-- ===== src/Version/Order.antt =====
-- `ver_compare` of src/version/version.c always answers, and is an order read both ways alike.
use lib_apg.Base.{
  ℕ, zero, suc, ◌+◌, ◌≡◌, refl, ap, sym, inl, inr, false, [], ◌∷◌, Option, none, some, length,
  arith, Bool-cases, ℤ, pos, neg_ℤ, eq_ℤ, neg-sub_ℕ,
}
use native.Mathlib.Nat.{add_comm}
use lib_apg.CString.{CStr}
use lib_apg.Version.{
  strtol, skip_dots, order, Round, return, next, by_bytes, by_numbers, by_strtol, round_from,
  compare_loop, compare_epochs, split_epoch, ver_compare, head_byte,
}

-- Swapping the arguments of a round.
abbrev mirror : Round → Round
mirror (return r) = return (neg_ℤ r)
mirror (next a b) = next b a

neg-order : (a b : ℤ) → eq_ℤ a b ≡ false → neg_ℤ (order a b) ≡ order b a
neg-order a b h = ground arith

eq_ℤ_comm : (a b : ℤ) → eq_ℤ a b ≡ eq_ℤ b a
eq_ℤ_comm a b = ground arith

by_bytes-mirror : (a b : CStr) → by_bytes b a ≡ mirror (by_bytes a b)
unfolding by_bytes
by_bytes-mirror a b = ground (arith, neg-sub_ℕ (head_byte a) (head_byte b))

by_numbers-mirror :
    (va : ℤ) (a : CStr) (vb : ℤ) (b : CStr) → by_numbers vb b va a ≡ mirror (by_numbers va a vb b)
unfolding by_numbers
by_numbers-mirror va a vb b = elim (Bool-cases (eq_ℤ va vb)) [
  | inl e ↦ rw (eq_ℤ_comm vb va, e)
  | inr e ↦ rw (eq_ℤ_comm vb va, e) (ap return (sym (neg-order va vb e)))
]

by_strtol-mirror :
    (a b : CStr) (p q : Option (ℤ × CStr)) → by_strtol b a q p ≡ mirror (by_strtol a b p q)
unfolding by_strtol
by_strtol-mirror a b none none = by_bytes-mirror a b
by_strtol-mirror a b none (some (vb, be)) = by_numbers-mirror (pos 0) a vb be
by_strtol-mirror a b (some (va, ae)) none = by_numbers-mirror va ae (pos 0) b
by_strtol-mirror a b (some (va, ae)) (some (vb, be)) = by_numbers-mirror va ae vb be

round_from-mirror : (a b : CStr) → round_from b a ≡ mirror (round_from a b)
unfolding round_from
round_from-mirror [] [] = refl
round_from-mirror [] (y ∷ ys) = by_strtol-mirror [] (y ∷ ys) (strtol []) (strtol (y ∷ ys))
round_from-mirror (x ∷ xs) [] = by_strtol-mirror (x ∷ xs) [] (strtol (x ∷ xs)) (strtol [])
round_from-mirror (x ∷ xs) (y ∷ ys) =
    by_strtol-mirror (x ∷ xs) (y ∷ ys) (strtol (x ∷ xs)) (strtol (y ∷ ys))

abbrev pub negated : Option ℤ → Option ℤ
negated none = none
negated (some r) = some (neg_ℤ r)

compare_loop-mirror :
    (fuel : ℕ) (a b : CStr) → compare_loop fuel b a ≡ negated (compare_loop fuel a b)
unfolding compare_loop
compare_loop-mirror zero a b = refl
compare_loop-mirror (suc fuel) a b =
    rw (round_from-mirror (skip_dots a) (skip_dots b), compare_loop)
      (by_round (round_from (skip_dots a) (skip_dots b)) (λ c d. compare_loop-mirror fuel c d))
  where
    by_round :
        (r : Round)
        → ((c d : CStr) → compare_loop fuel d c ≡ negated (compare_loop fuel c d))
        → (elim (mirror r) as (λ _. Option ℤ) [
          | return z ↦ some z
          | next c d ↦ compare_loop fuel c d
        ])
          ≡ negated
              (elim r as (λ _. Option ℤ) [ return z ↦ some z | next c d ↦ compare_loop fuel c d ])
    by_round (return z) ih = refl
    by_round (next c d) ih = ih c d

compare_epochs-mirror : (p q : ℤ × CStr) → compare_epochs q p ≡ negated (compare_epochs p q)
unfolding compare_epochs
compare_epochs-mirror (ea, a) (eb, b) = elim (Bool-cases (eq_ℤ ea eb)) [
  | inl e ↦
      rw (eq_ℤ_comm eb ea, e, add_comm (length b) (length a))
        (compare_loop-mirror (suc (length a + length b)) a b)
  | inr e ↦ rw (eq_ℤ_comm eb ea, e) (ap some (sym (neg-order ea eb e)))
]

-- Comparing the other way round negates the result, NULL versions and epochs included.
pub ver_compare_antisym : (a b : Option CStr) → ver_compare b a ≡ negated (ver_compare a b)
unfolding ver_compare
ver_compare_antisym none none = refl
ver_compare_antisym none (some b) = refl
ver_compare_antisym (some a) none = refl
ver_compare_antisym (some a) (some b) = compare_epochs-mirror (split_epoch a) (split_epoch b)
