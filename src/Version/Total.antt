-- ===== src/Version/Total.antt =====
-- The loop of `ver_compare` of src/version/version.c ends on every pair of C strings.
use lib_apg.Base.{
  ℕ, zero, suc, ◌+◌, ◌≤◌, ◌<◌, ◌≡◌, refl, ap, sym, ◌∙◌, not, [], ◌∷◌, Option, none, some, length,
  arith, ◌==◌, if_rule, ℤ, pos, negsuc, neg_ℤ, eq_ℤ,
}
use mathlib.Core.Option.{some-injective}
use lib_apg.CString.{CStr}
use lib_apg.Version.{
  strtol, number, skip_dots, order, Round, return, next, by_bytes, by_numbers, by_strtol,
  round_from, compare_loop, compare_epochs, split_epoch, after_colon, ver_compare,
}
use lib_apg.Version.Order.{negated, ver_compare_antisym}
use lib_apg.Version.Rests.{NoNul, Taken, skip_dots-Rest, after_colon-Rest, strtol-Taken}

-- A round returns, or leaves less to compare.
abbrev Less : ℕ → Round → Type 0
Less n (return r) = Unit
Less n (next a b) = (length a + length b < n) × NoNul a × NoNul b

by_numbers-Less :
    (n : ℕ) (va : ℤ) (a : CStr) (vb : ℤ) (b : CStr)
    → length a + length b < n
    → NoNul a
    → NoNul b
    → Less n (by_numbers va a vb b)
unfolding by_numbers
by_numbers-Less n va a vb b lt ca cb = if_rule (Less n) (eq_ℤ va vb) (λ _. (lt, ca, cb)) (λ _. tt)

by_bytes-Less :
    (a b : CStr)
    → NoNul a
    → NoNul b
    → 0 < length a + length b
    → Less (length a + length b) (by_bytes a b)
unfolding by_bytes
by_bytes-Less [] [] ca cb some_byte = absurd (omega arith)
by_bytes-Less [] (y ∷ ys) ca cb some_byte =
    if_rule (Less (length {A = ℕ} [] + length (y ∷ ys))) (not (0 == y)) (λ _. tt)
      (λ e. absurd (ground arith))
by_bytes-Less (x ∷ xs) [] ca cb some_byte =
    if_rule (Less (length (x ∷ xs) + length {A = ℕ} [])) (not (x == 0)) (λ _. tt)
      (λ e. absurd (ground arith))
by_bytes-Less (x ∷ xs) (y ∷ ys) ca cb some_byte =
    if_rule (Less (length (x ∷ xs) + length (y ∷ ys))) (not (x == y)) (λ _. tt)
      (λ _.
        if_rule (Less (length (x ∷ xs) + length (y ∷ ys))) (x == 0) (λ e. absurd (ground arith))
          (λ _. (omega arith, ca.1, cb.1)))

by_strtol-Less :
    (a b : CStr) (p q : Option (ℤ × CStr))
    → NoNul a
    → NoNul b
    → 0 < length a + length b
    → Taken a p
    → Taken b q
    → Less (length a + length b) (by_strtol a b p q)
unfolding by_strtol
by_strtol-Less a b none none ca cb some_byte tp tq = by_bytes-Less a b ca cb some_byte
by_strtol-Less a b none (some (vb, be)) ca cb some_byte tp tq =
    by_numbers-Less (length a + length b) (pos 0) a vb be (omega (arith, tq.0)) ca (tq.1 cb)
by_strtol-Less a b (some (va, ae)) none ca cb some_byte tp tq =
    by_numbers-Less (length a + length b) va ae (pos 0) b (omega (arith, tp.0)) (tp.1 ca) cb
by_strtol-Less a b (some (va, ae)) (some (vb, be)) ca cb some_byte tp tq =
    by_numbers-Less (length a + length b) va ae vb be (omega (arith, tp.0, tq.0)) (tp.1 ca)
      (tq.1 cb)

round_from-Less : (a b : CStr) → NoNul a → NoNul b → Less (length a + length b) (round_from a b)
unfolding round_from
round_from-Less [] [] ca cb = tt
round_from-Less [] (y ∷ ys) ca cb =
    by_strtol-Less [] (y ∷ ys) (strtol []) (strtol (y ∷ ys)) ca cb (omega arith) (strtol-Taken [])
      (strtol-Taken (y ∷ ys))
round_from-Less (x ∷ xs) [] ca cb =
    by_strtol-Less (x ∷ xs) [] (strtol (x ∷ xs)) (strtol []) ca cb (omega arith)
      (strtol-Taken (x ∷ xs)) (strtol-Taken [])
round_from-Less (x ∷ xs) (y ∷ ys) ca cb =
    by_strtol-Less (x ∷ xs) (y ∷ ys) (strtol (x ∷ xs)) (strtol (y ∷ ys)) ca cb (omega arith)
      (strtol-Taken (x ∷ xs)) (strtol-Taken (y ∷ ys))

compare_loop_ends :
    (fuel : ℕ) (a b : CStr)
    → NoNul a
    → NoNul b
    → length a + length b < fuel
    → (r : ℤ) × (compare_loop fuel a b ≡ some r)
unfolding compare_loop
compare_loop_ends zero a b ca cb lt = elim lt [ ]
compare_loop_ends (suc fuel) a b ca cb lt =
    let ra = skip_dots-Rest a in
    let rb = skip_dots-Rest b in
    by_round (round_from (skip_dots a) (skip_dots b))
      (round_from-Less (skip_dots a) (skip_dots b) (ra.clean ca) (rb.clean cb))
      (omega (arith, ra.short, rb.short)) (λ c d h k l. compare_loop_ends fuel c d h k l)
  where
    by_round :
        (r : Round)
        → Less (length (skip_dots a) + length (skip_dots b)) r
        → length (skip_dots a) + length (skip_dots b) ≤ fuel
        → ((c d : CStr)
            → NoNul c
            → NoNul d
            → length c + length d < fuel
            → (z : ℤ) × (compare_loop fuel c d ≡ some z))
        → (z : ℤ) × ((elim r as (λ _. Option ℤ) [
          | return z ↦ some z
          | next c d ↦ compare_loop fuel c d
        ])
            ≡ some z)
    by_round (return z) less le ih = (z, refl)
    by_round (next c d) less le ih = ih c d less.1 less.2 (omega (arith, less.0))

compare_epochs_ends :
    (p q : ℤ × CStr) → NoNul p.1 → NoNul q.1 → (r : ℤ) × (compare_epochs p q ≡ some r)
unfolding compare_epochs
compare_epochs_ends (ea, a) (eb, b) ca cb =
    if_rule (λ (o : Option ℤ). (r : ℤ) × (o ≡ some r)) (eq_ℤ ea eb)
      (λ _. compare_loop_ends (suc (length a + length b)) a b ca cb (omega arith))
      (λ _. (order ea eb, refl))

split_epoch-NoNul : (s : CStr) → NoNul s → NoNul (split_epoch s).1
unfolding split_epoch
split_epoch-NoNul s clean = by_colon (after_colon s) refl
  where
    by_colon :
        (o : Option CStr)
        → after_colon s ≡ o
        → NoNul
            (elim o as (λ _. ℤ × CStr) [
              | none ↦ (pos 0, s)
              | some rest ↦ (number (strtol s), rest)
            ]).1
    by_colon none e = clean
    by_colon (some r) e = after_colon-Rest s r e clean

-- The comparison of two C strings, whose bytes are not NUL, has a result: its loop does not run out of
-- a fuel of one more than the two strings have bytes, after their epochs.
pub ver_compare_total :
    (a b : CStr) → NoNul a → NoNul b → (r : ℤ) × (ver_compare (some a) (some b) ≡ some r)
unfolding ver_compare
ver_compare_total a b ca cb =
    compare_epochs_ends (split_epoch a) (split_epoch b) (split_epoch-NoNul a ca)
      (split_epoch-NoNul b cb)

neg_ℤ-fixed : (r : ℤ) → r ≡ neg_ℤ r → r ≡ pos 0
neg_ℤ-fixed (pos zero) h = refl
neg_ℤ-fixed (pos (suc n)) h = cc
neg_ℤ-fixed (negsuc n) h = cc

-- A version without NUL bytes equals itself.
pub ver_compare_refl : (a : CStr) → NoNul a → ver_compare (some a) (some a) ≡ some (pos 0)
ver_compare_refl a ca =
    let (r, e) = ver_compare_total a a ca ca in
    let twice : some r ≡ some (neg_ℤ r) =
      sym e ∙ ver_compare_antisym (some a) (some a) ∙ ap negated e in
    e ∙ ap some (neg_ℤ-fixed r (some-injective _ _ twice))
