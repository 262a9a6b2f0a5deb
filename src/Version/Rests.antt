-- ===== src/Version/Rests.antt =====
-- What `strtol` and the skipping loops of src/version/version.c leave of a string.
use lib_apg.Base.{
  ℕ, suc, ◌+◌, ◌-◌, ◌*◌, ◌≤◌, ◌<◌, ◌≡◌, sym, inl, inr, Bool, true, false, [], ◌∷◌, Option, none,
  some, length, arith, All, Bool-cases, ◌==◌, if_rule, ℤ, subst,
}
use mathlib.Core.Option.{some-injective}
use lib_apg.CString.{CStr}
use lib_apg.Version.{
  is_digit, skip_spaces, digits, strtol_digits, strtol_signed, strtol, skip_dots, after_colon,
  is_space,
}

-- No byte of a C string is NUL.
abbrev pub NoNul : CStr → Type 0
NoNul = All (λ c. 0 < c)

-- A rest of a string that is no longer than n.
pub record Rest (n : ℕ) (s r : CStr) : Type 0 where
  pub short : length r ≤ n
  pub clean : NoNul s → NoNul r

skip_spaces-Rest : (s : CStr) → Rest (length s) s (skip_spaces s)
unfolding skip_spaces
skip_spaces-Rest [] = record { short = omega arith; clean = λ h. h }
skip_spaces-Rest (c ∷ s) =
    if_rule (Rest (length (c ∷ s)) (c ∷ s)) (is_space c)
      (λ _.
        let ih = skip_spaces-Rest s in record { short = omega arith; clean = λ h. ih.clean h.1 })
      (λ _. record { short = omega arith; clean = λ h. h })

pub skip_dots-Rest : (s : CStr) → Rest (length s) s (skip_dots s)
unfolding skip_dots
skip_dots-Rest [] = record { short = omega arith; clean = λ h. h }
skip_dots-Rest (c ∷ s) =
    if_rule (Rest (length (c ∷ s)) (c ∷ s)) (c == b'.')
      (λ _. let ih = skip_dots-Rest s in record { short = omega arith; clean = λ h. ih.clean h.1 })
      (λ _. record { short = omega arith; clean = λ h. h })

pub after_colon-Rest : (s r : CStr) → after_colon s ≡ some r → NoNul s → NoNul r
unfolding after_colon
after_colon-Rest [] r h clean = cc
after_colon-Rest (c ∷ s) r h clean = elim (Bool-cases (c == b':')) [
  | inl e ↦ subst NoNul (some-injective _ _ (rw (e, after_colon) at h)) clean.1
  | inr e ↦ after_colon-Rest s r (rw (e, after_colon) at h) clean.1
]

digits-Rest : (acc : ℕ) (s : CStr) → Rest (length s) s (digits acc s).1
unfolding digits
digits-Rest acc [] = record { short = omega arith; clean = λ h. h }
digits-Rest acc (c ∷ s) = by_digit (is_digit c) (digits-Rest (acc * 10 + (c - b'0')) s)
  where
    by_digit :
        (b : Bool)
        → Rest (length s) s (digits (acc * 10 + (c - b'0')) s).1
        → Rest
            (length (c ∷ s))
            (c ∷ s)
            (elim b as (λ _. ℕ × CStr) [
              | true ↦ digits (acc * 10 + (c - b'0')) s
              | false ↦ (acc, c ∷ s)
            ]).1
    by_digit true ih = record { short = omega (arith, ih.short); clean = λ h. ih.clean h.1 }
    by_digit false ih = record { short = omega arith; clean = λ h. h }

-- A conversion takes at least one byte.
abbrev pub Taken : CStr → Option (ℤ × CStr) → Type 0
Taken s none = Unit
Taken s (some (v, r)) = (length r < length s) × (NoNul s → NoNul r)

digits-digit :
    (acc c : ℕ) (s : CStr)
    → is_digit c ≡ true
    → digits acc (c ∷ s) ≡ digits (acc * 10 + (c - b'0')) s
unfolding digits
digits-digit acc c s e = rw (e, digits)

strtol_digits-Taken : (negative : Bool) (s : CStr) → Taken s (strtol_digits negative s)
unfolding strtol_digits
strtol_digits-Taken negative [] = tt
strtol_digits-Taken negative (c ∷ s) =
    if_rule (Taken (c ∷ s)) (is_digit c)
      (λ e.
        let ih = digits-Rest (0 * 10 + (c - b'0')) s in
        subst (λ (d : ℕ × CStr). (length d.1 < suc (length s)) × (NoNul (c ∷ s) → NoNul d.1))
          (sym (digits-digit 0 c s e)) (omega (arith, ih.short), λ h. ih.clean h.1))
      (λ _. tt)

Taken-longer :
    (s t : CStr) (o : Option (ℤ × CStr))
    → length s ≤ length t
    → (NoNul t → NoNul s)
    → Taken s o
    → Taken t o
Taken-longer s t none le clean h = tt
Taken-longer s t (some (v, r)) le clean h = (omega (arith, h.0), λ k. h.1 (clean k))

strtol_signed-Taken : (s : CStr) → Taken s (strtol_signed s)
unfolding strtol_signed
strtol_signed-Taken [] = tt
strtol_signed-Taken (c ∷ s) =
    if_rule (Taken (c ∷ s)) (c == b'-') (λ _. tail true)
      (λ _.
        if_rule (Taken (c ∷ s)) (c == b'+') (λ _. tail false)
          (λ _. strtol_digits-Taken false (c ∷ s)))
  where
    tail : (b : Bool) → Taken (c ∷ s) (strtol_digits b s)
    tail b =
        Taken-longer s (c ∷ s) (strtol_digits b s) (omega arith) (λ h. h.1)
          (strtol_digits-Taken b s)

pub strtol-Taken : (s : CStr) → Taken s (strtol s)
unfolding strtol
strtol-Taken s =
    let rest = skip_spaces-Rest s in
    Taken-longer (skip_spaces s) s (strtol_signed (skip_spaces s)) rest.short rest.clean
      (strtol_signed-Taken (skip_spaces s))
