-- ===== src/SatResolve/Selected.antt =====
-- The packages that src/graph/sat.c reads off the assignment.
use lib_apg.Base.{
  ℕ, zero, suc, ◌+◌, ◌-◌, ◌≡◌, refl, sym, ap, ◌∙◌, ◌≢◌, ◌⊎◌, inl, inr, Bool, true, false, List, [],
  ◌∷◌, Option, none, some, get_elem?, arith, All, Bool-cases, subst, ◌==◌, ==_iff, if_rule,
  if◌then◌else◌,
}
use mathlib.Core.Option.{some-injective}
use lib_apg.Package.{Package}
use lib_apg.Sat.Clause.{Value, undef, yea, nay, value}
use lib_apg.Sat.Sound.{is_yea, chosen}
use lib_apg.SatModel.{SatModel, find_var}
use lib_apg.SatModel.Vars.{VarOf, IsValid}
use lib_apg.SatModel.Built.{chosen_at, as_selection}
use lib_apg.SatResolve.{is_chosen, selected_from}

-- Is a package of the list at the address?
abbrev pub has_addr : List Package → ℕ → Bool
has_addr [] a = false
has_addr (p ∷ ps) a = if p.addr == a then true else has_addr ps a

-- No address twice.
abbrev pub IsOnce : List Package → Type 0
IsOnce [] = Unit
IsOnce (p ∷ ps) = (has_addr ps p.addr ≡ false) × IsOnce ps

is_chosen-chosen : (o : Option (List Value)) (i : ℕ) → is_chosen o i ≡ chosen o (suc i)
unfolding is_chosen
is_chosen-chosen none i = refl
is_chosen-chosen (some a) i = by_value (value a (suc i))
  where
    by_value : (x : Value) → (elim x as (λ _. Bool) [ yea ↦ true | _ ↦ false ]) ≡ is_yea x
    by_value undef = refl
    by_value yea = refl
    by_value nay = refl

has_addr-get :
    (ps : List Package) (a : ℕ)
    → has_addr ps a ≡ true
    → (k : ℕ) × (p : Package) × (get_elem? ps k ≡ some p) × (p.addr ≡ a)
has_addr-get [] a h = cc
has_addr-get (p ∷ ps) a h = elim (Bool-cases (p.addr == a)) [
  | inl e ↦ (zero, p, refl, (==_iff p.addr a).0 e)
  | inr n ↦ let (k, q, at, same) = has_addr-get ps a (rw n at h) in (suc k, q, at, same)
]

has_addr-get_none :
    (ps : List Package) (k : ℕ) (p : Package) → get_elem? ps k ≡ some p → has_addr ps p.addr ≢ false
has_addr-get_none [] k p at h = cc
has_addr-get_none (q ∷ ps) zero p at h =
    let self : (q.addr == p.addr) ≡ true =
      (==_iff q.addr p.addr).1 (ap (λ (t : Package). t.addr) (some-injective _ _ at)) in
    cc (rw self at h)
has_addr-get_none (q ∷ ps) (suc k) p at h = elim (Bool-cases (q.addr == p.addr)) [
  | inl s ↦ cc (rw s at h)
  | inr n ↦ has_addr-get_none ps k p at (rw n at h)
]

true-false : (b : Bool) → b ≡ true → b ≢ false
true-false b e f = cc

none-some : (o : Option ℕ) (k : ℕ) → o ≡ none → o ≢ some k
none-some o k e f = cc

zero-suc : (k : ℕ) → 0 ≢ suc k
zero-suc k e = omega arith

pub suc-inj : (i j : ℕ) → suc i ≡ suc j → i ≡ j
suc-inj i j e = omega arith

module _ (o : Option (List Value)) where
  -- A package of the selection is that of a chosen variable.
  selected_from-chosen :
      (vars : List Package) (i a : ℕ)
      → has_addr (selected_from o i vars) a ≡ true
      → (k : ℕ) × (p : Package) × (get_elem? vars k ≡ some p)
        × (p.addr ≡ a)
        × (is_chosen o (i + k) ≡ true)
  unfolding selected_from
  selected_from-chosen [] i a h = cc
  selected_from-chosen (p ∷ vars) i a h =
      by_head (is_chosen o i) refl h (selected_from-chosen vars (suc i) a)
    where
      later :
          ((k : ℕ) × (q : Package) × (get_elem? vars k ≡ some q)
            × (q.addr ≡ a)
            × (is_chosen o (suc i + k) ≡ true))
          → ((k : ℕ) × (q : Package) × (get_elem? (p ∷ vars) k ≡ some q)
              × (q.addr ≡ a)
              × (is_chosen o (i + k) ≡ true))
      later (k, q, at, same, on) =
          (suc k, q, at, same, subst (λ n. is_chosen o n ≡ true) (omega arith) on)

      by_head :
          (b : Bool)
          → is_chosen o i ≡ b
          → has_addr
              (if b then p ∷ selected_from o (suc i) vars else selected_from o (suc i) vars)
              a
            ≡ true
          → (has_addr (selected_from o (suc i) vars) a ≡ true
              → (k : ℕ) × (q : Package) × (get_elem? vars k ≡ some q)
                × (q.addr ≡ a)
                × (is_chosen o (suc i + k) ≡ true))
          → (k : ℕ) × (q : Package) × (get_elem? (p ∷ vars) k ≡ some q)
            × (q.addr ≡ a)
            × (is_chosen o (i + k) ≡ true)
      by_head false e h rec = later (rec h)
      by_head true e h rec = elim (Bool-cases (p.addr == a)) [
        | inl s ↦ (
          zero,
          p,
          refl,
          (==_iff p.addr a).0 s,
          subst (λ n. is_chosen o n ≡ true) (omega arith) e,
        )
        | inr n ↦ later (rec (rw n at h))
      ]

  selected_from-has :
      (vars : List Package) (i k : ℕ) (p : Package)
      → get_elem? vars k ≡ some p
      → is_chosen o (i + k) ≡ true
      → has_addr (selected_from o i vars) p.addr ≡ true
  unfolding selected_from
  selected_from-has [] i k p e on = cc
  selected_from-has (q ∷ vars) i zero p e on =
      let here : is_chosen o i ≡ true = subst (λ n. is_chosen o n ≡ true) (omega arith) on in
      let self : (q.addr == p.addr) ≡ true =
        (==_iff q.addr p.addr).1 (ap (λ (t : Package). t.addr) (some-injective _ _ e)) in
      rw here (rw self refl)
  selected_from-has (q ∷ vars) i (suc k) p e on =
      let rest =
        selected_from-has vars (suc i) k p e (subst (λ n. is_chosen o n ≡ true) (omega arith) on) in
      elim (Bool-cases (is_chosen o i)) [
        | inl t ↦
            rw t (elim (Bool-cases (q.addr == p.addr)) [ inl s ↦ rw s refl | inr n ↦ rw n rest ])
        | inr f ↦ rw f rest
      ]

  pub selected_from-All :
      (P : Package → Type 0) (vars : List Package) (i : ℕ)
      → All P vars
      → All P (selected_from o i vars)
  unfolding selected_from
  selected_from-All P [] i all = tt
  selected_from-All P (p ∷ vars) i all =
      if_rule (All P) (is_chosen o i) (λ _. (all.0, selected_from-All P vars (suc i) all.1))
        (λ _. selected_from-All P vars (suc i) all.1)

  has_addr-selected :
      (vars : List Package) (i a : ℕ)
      → has_addr vars a ≡ false
      → has_addr (selected_from o i vars) a ≡ false
  has_addr-selected vars i a h = elim (Bool-cases (has_addr (selected_from o i vars) a)) [
    | inr n ↦ n
    | inl t ↦
        let (k, p, at, same, _) = selected_from-chosen vars i a t in
        absurd (has_addr-get_none vars k p at (subst (λ b. has_addr vars b ≡ false) (sym same) h))
  ]

  pub selected_from-IsOnce :
      (vars : List Package) (i : ℕ) → IsOnce vars → IsOnce (selected_from o i vars)
  unfolding selected_from
  selected_from-IsOnce [] i once = tt
  selected_from-IsOnce (p ∷ vars) i once =
      if_rule IsOnce (is_chosen o i)
        (λ _.
          (has_addr-selected vars (suc i) p.addr once.0, selected_from-IsOnce vars (suc i) once.1))
        (λ _. selected_from-IsOnce vars (suc i) once.1)

-- Variables of different packages.
pub IsOnce-of :
    (vars : List Package)
    → ((i j : ℕ) (p q : Package)
        → get_elem? vars i ≡ some p
        → get_elem? vars j ≡ some q
        → p.addr ≡ q.addr
        → i ≡ j)
    → IsOnce vars
IsOnce-of [] apart = tt
IsOnce-of (p ∷ vars) apart = (
  elim (Bool-cases (has_addr vars p.addr)) [
    | inr n ↦ n
    | inl t ↦
        let (k, q, at, same) = has_addr-get vars p.addr t in
        absurd (zero-suc k (apart zero (suc k) p q refl at (sym same)))
  ],
  IsOnce-of vars (λ i j q r at at' same. suc-inj i j (apart (suc i) (suc j) q r at at' same)),
)

-- The selection that is read off the assignment is that of the packages in the list.
pub has_addr-as_selection :
    (P : Package → Type 0) (m : SatModel) (o : Option (List Value)) (a : ℕ)
    → IsValid P m
    → has_addr (selected_from o 0 m.vars) a ≡ as_selection (chosen o) m a
has_addr-as_selection P m o a ok = by_index (find_var m.var_buckets a) refl
  where
    at_address :
        (k : ℕ) (p : Package)
        → get_elem? m.vars k ≡ some p
        → p.addr ≡ a
        → find_var m.var_buckets a ≡ some (suc k)
    at_address k p at same = subst (λ b. VarOf m b (suc k)) same (ok.indexed k p at)

    by_choice :
        (v : ℕ)
        → find_var m.var_buckets a ≡ some v
        → (chosen o v ≡ true) ⊎ (chosen o v ≡ false)
        → (has_addr (selected_from o 0 m.vars) a ≡ true)
          ⊎ (has_addr (selected_from o 0 m.vars) a ≡ false)
        → has_addr (selected_from o 0 m.vars) a ≡ chosen o v
    by_choice v e (inl on) (inl t) = t ∙ sym on
    by_choice v e (inr off) (inr n) = n ∙ sym off
    by_choice v e (inl on) (inr n) =
        let (above, p, at, same) = ok.found a v e in
        let index : suc (v - 1) ≡ v = omega (arith, above) in
        let on' : is_chosen o (0 + (v - 1)) ≡ true =
          subst (λ k. is_chosen o k ≡ true) (omega arith)
            (is_chosen-chosen o (v - 1) ∙ ap (chosen o) index ∙ on) in
        absurd (
          true-false (has_addr (selected_from o 0 m.vars) a)
            (subst (λ b. has_addr (selected_from o 0 m.vars) b ≡ true) same
              (selected_from-has o m.vars 0 (v - 1) p at on'))
            n)
    by_choice v e (inr off) (inl t) =
        let (k, p, at, same, on) = selected_from-chosen o m.vars 0 a t in
        let index : v ≡ suc k = some-injective _ _ (sym e ∙ at_address k p at same) in
        let on' : chosen o v ≡ true =
          ap (chosen o) index
          ∙ sym (is_chosen-chosen o k)
          ∙ subst (λ n. is_chosen o n ≡ true) (omega arith) on in
        absurd (true-false (chosen o v) on' off)

    by_index :
        (v : Option ℕ)
        → find_var m.var_buckets a ≡ v
        → has_addr (selected_from o 0 m.vars) a ≡ chosen_at (chosen o) v
    by_index none e = elim (Bool-cases (has_addr (selected_from o 0 m.vars) a)) [
      | inr n ↦ n
      | inl t ↦
          let (k, p, at, same, _) = selected_from-chosen o m.vars 0 a t in
          absurd (none-some (find_var m.var_buckets a) (suc k) e (at_address k p at same))
    ]
    by_index (some v) e =
        by_choice v e (Bool-cases (chosen o v)) (Bool-cases (has_addr (selected_from o 0 m.vars) a))
