-- ===== src/Sat/Pick.antt =====
-- `pick_var` of src/graph/sat_solve.c: the chosen variable is undefined, and none is left out.
use lib_apg.Base.{
  ℕ, zero, suc, ◌+◌, ◌≤◌, ◌<◌, ◌≡◌, refl, ap, ◌≢◌, Bool, true, false, List, Option, none, some,
  arith, sym, ◌∙◌, subst,
}
use native.Mathlib.Decide.{ℕ_discrete}
use lib_apg.Sat.Clause.{Value, undef, yea, nay, value, Model}
use lib_apg.Sat.Search.{pick_up, pick_down, pick_var, var_count}

-- The choice from the variables v .. v + n - 1.
abbrev PickPost : List Value → ℕ → ℕ → Option ℕ → Type 0
PickPost a lo hi (some w) = (lo ≤ w) × (w < hi) × (value a w ≡ undef)
PickPost a lo hi none = (w : ℕ) → lo ≤ w → w < hi → value a w ≢ undef

-- A cell that holds a value is passed over.
skip :
    (a : List Value) (v w : ℕ) (x : Value) → value a v ≡ x → x ≢ undef → v ≡ w → value a w ≢ undef
skip a v w x is ne e = λ u. ne (sym is ∙ ap (value a) e ∙ u)

pick_up-Post : (a : List Value) (v n hi : ℕ) → v + n ≡ hi → PickPost a v hi (pick_up a v n)
unfolding pick_up
pick_up-Post a v zero hi e = λ w lo lt. absurd (omega arith)
pick_up-Post a v (suc n) hi e =
    by_value (value a v) refl (pick_up a (v + 1) n) (pick_up-Post a (v + 1) n hi (omega arith))
  where
    by_value :
        (x : Value)
        → value a v ≡ x
        → (r : Option ℕ) → PickPost a (v + 1) hi r
        → PickPost a v hi (elim x [ undef ↦ some v | _ ↦ r ])
    by_value undef is r p = (omega arith, omega arith, is)
    by_value yea is (some w) p = (omega arith, p.1, p.2)
    by_value nay is (some w) p = (omega arith, p.1, p.2)
    by_value yea is none p = λ w lo lt. elim (ℕ_discrete v w) [
      | yes e ↦ skip a v w yea is (λ o. cc) e
      | no ne ↦ p w (omega arith) lt
    ]
    by_value nay is none p = λ w lo lt. elim (ℕ_discrete v w) [
      | yes e ↦ skip a v w nay is (λ o. cc) e
      | no ne ↦ p w (omega arith) lt
    ]

pick_down-Post : (a : List Value) (n : ℕ) → PickPost a 1 (suc n) (pick_down a n)
unfolding pick_down
pick_down-Post a zero = λ w lo lt. absurd (omega arith)
pick_down-Post a (suc n) = by_value (value a (suc n)) refl (pick_down a n) (pick_down-Post a n)
  where
    by_value :
        (x : Value)
        → value a (suc n) ≡ x
        → (r : Option ℕ) → PickPost a 1 (suc n) r
        → PickPost a 1 (suc (suc n)) (elim x [ undef ↦ some (suc n) | _ ↦ r ])
    by_value undef is r p = (omega arith, omega arith, is)
    by_value yea is (some w) p = (p.0, omega arith, p.2)
    by_value nay is (some w) p = (p.0, omega arith, p.2)
    by_value yea is none p = λ w lo lt. elim (ℕ_discrete (suc n) w) [
      | yes e ↦ skip a (suc n) w yea is (λ o. cc) e
      | no ne ↦ p w lo (omega arith)
    ]
    by_value nay is none p = λ w lo lt. elim (ℕ_discrete (suc n) w) [
      | yes e ↦ skip a (suc n) w nay is (λ o. cc) e
      | no ne ↦ p w lo (omega arith)
    ]

module _ (m : Model) where
  pub pick_var-some :
      (reverse_order : Bool) (a : List Value) (v : ℕ)
      → pick_var m reverse_order a ≡ some v
      → (0 < v) × (v < suc (var_count m)) × (value a v ≡ undef)
  unfolding pick_var
  pick_var-some true a v e =
      subst (PickPost a 1 (suc (var_count m))) e (pick_down-Post a (var_count m))
  pick_var-some false a v e =
      subst (PickPost a 1 (suc (var_count m))) e
        (pick_up-Post a 1 (var_count m) (suc (var_count m)) (omega arith))

  pub pick_var-none :
      (reverse_order : Bool) (a : List Value)
      → pick_var m reverse_order a ≡ none
      → (v : ℕ) → 0 < v
      → v < suc (var_count m)
      → value a v ≢ undef
  unfolding pick_var
  pick_var-none true a e =
      subst (PickPost a 1 (suc (var_count m))) e (pick_down-Post a (var_count m))
  pick_var-none false a e =
      subst (PickPost a 1 (suc (var_count m))) e
        (pick_up-Post a 1 (var_count m) (suc (var_count m)) (omega arith))
