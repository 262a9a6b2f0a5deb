-- ===== src/Transaction/Needs.antt =====
-- `depends_on` of src/transaction/prepare.c.
use lib_apg.Base.{
  ◌≡◌, refl, sym, ◌∙◌, ◌⊎◌, inl, inr, ◌↔◌, Bool, true, false, ◌||◌, List, [], ◌∷◌, Option, none,
  some, ap, Bool-cases, subst,
}
use mathlib.Core.List.{Memᴰ}
use mathlib.Core.Option.{some-injective}
use lib_apg.CString.{CStr, str_eq, str_eq_sound, str_eq_refl}
use lib_apg.Package.{DepConstraint}
use lib_apg.Transaction.{PackageFile}
use lib_apg.Transaction.Removals.{is_provided, needs_target, depends_on}

-- Both packages are installed, and the first has a dependency on the name of the second or on a name that
-- the second, which has a name, provides.
abbrev pub Depends : Option PackageFile → Option PackageFile → Type 0
Depends none target = ⊥
Depends (some p) none = ⊥
Depends (some p) (some q) =
    (name : CStr) × (d : DepConstraint) × (q.meta.name ≡ some name)
    × Memᴰ d p.meta.dependencies
    × ((d.name ≡ name) ⊎ Memᴰ d.name q.meta.provides)

is_provided-Memᴰ : (dep : CStr) (names : List CStr) → is_provided dep names ≡ true → Memᴰ dep names
unfolding is_provided
is_provided-Memᴰ dep [] e = cc
is_provided-Memᴰ dep (n ∷ names) e = elim (Bool-cases (str_eq dep n)) [
  | inl s ↦ Memᴰ.head (str_eq_sound dep n s)
  | inr f ↦ Memᴰ.tail (is_provided-Memᴰ dep names (rw (f, is_provided) at e))
]

Memᴰ-is_provided : (dep : CStr) (names : List CStr) → Memᴰ dep names → is_provided dep names ≡ true
unfolding is_provided
Memᴰ-is_provided dep [] m = elim m [ ]
Memᴰ-is_provided dep (n ∷ names) (Memᴰ.head e) =
    let s : str_eq dep n ≡ true = subst (λ x. str_eq dep x ≡ true) e (str_eq_refl dep) in
    rw (s, is_provided) refl
Memᴰ-is_provided dep (n ∷ names) (Memᴰ.tail m) = elim (Bool-cases (str_eq dep n)) [
  | inl s ↦ rw (s, is_provided) refl
  | inr f ↦ rw (f, is_provided) (Memᴰ-is_provided dep names m)
]

abbrev Needs : List DepConstraint → CStr → List CStr → Type 0
Needs deps name provides =
    (d : DepConstraint) × Memᴰ d deps × ((d.name ≡ name) ⊎ Memᴰ d.name provides)

needs_target-Needs :
    (deps : List DepConstraint) (name : CStr) (provides : List CStr)
    → needs_target deps name provides ≡ true
    → Needs deps name provides
unfolding needs_target
needs_target-Needs [] name provides e = cc
needs_target-Needs (d ∷ deps) name provides e = elim (Bool-cases (str_eq d.name name)) [
  | inl s ↦ (d, Memᴰ.head refl, inl (str_eq_sound d.name name s))
  | inr f ↦ elim (Bool-cases (is_provided d.name provides)) [
    | inl s ↦ (d, Memᴰ.head refl, inr (is_provided-Memᴰ d.name provides s))
    | inr g ↦
        let (d', m, why) = needs_target-Needs deps name provides (rw (f, g, needs_target) at e) in
        (d', Memᴰ.tail m, why)
  ]
]

Needs-needs_target :
    (deps : List DepConstraint) (name : CStr) (provides : List CStr) (d : DepConstraint)
    → Memᴰ d deps
    → (d.name ≡ name) ⊎ Memᴰ d.name provides
    → needs_target deps name provides ≡ true
unfolding needs_target
Needs-needs_target [] name provides d m why = elim m [ ]
Needs-needs_target (e ∷ deps) name provides d (Memᴰ.tail m) why =
    elim (Bool-cases (str_eq e.name name || is_provided e.name provides)) [
      | inl s ↦ rw (s, needs_target) refl
      | inr f ↦ rw (f, needs_target) (Needs-needs_target deps name provides d m why)
    ]
Needs-needs_target (e ∷ deps) name provides d (Memᴰ.head q) (inl same) =
    let s : str_eq e.name name ≡ true =
      subst (λ n. str_eq e.name n ≡ true) (ap (λ (c : DepConstraint). c.name) (sym q) ∙ same)
        (str_eq_refl e.name) in
    rw (s, needs_target) refl
Needs-needs_target (e ∷ deps) name provides d (Memᴰ.head q) (inr m) =
    let s : is_provided e.name provides ≡ true =
      Memᴰ-is_provided e.name provides (subst (λ (c : DepConstraint). Memᴰ c.name provides) q m) in
    elim (Bool-cases (str_eq e.name name)) [
      | inl t ↦ rw (t, needs_target) refl
      | inr f ↦ rw (f, s, needs_target) refl
    ]

pub depends_on_iff : (a b : Option PackageFile) → (depends_on a b ≡ true) ↔ Depends a b
unfolding depends_on
depends_on_iff none b = ((λ e. cc), (λ h. absurd h))
depends_on_iff (some p) none = ((λ e. cc), (λ h. absurd h))
depends_on_iff (some p) (some q) = by_name q.meta.name
  where
    by_name :
        (o : Option CStr)
        → ((elim o as (λ _. Bool) [
          | none ↦ false
          | some name ↦ needs_target p.meta.dependencies name q.meta.provides
        ])
            ≡ true)
          ↔ ((name : CStr) × (d : DepConstraint) × (o ≡ some name)
              × Memᴰ d p.meta.dependencies
              × ((d.name ≡ name) ⊎ Memᴰ d.name q.meta.provides))
    by_name none = ((λ e. cc), (λ h. absurd (empty h.0 h.2)))
      where
        empty : (n : CStr) → ¬ (none ≡ some n)
        empty n e = cc
    by_name (some name) = (
      λ e.
          let (d, m, why) = needs_target-Needs p.meta.dependencies name q.meta.provides e in
          (name, d, refl, m, why),
      λ h.
          let (n, d, e, m, why) = h in
          Needs-needs_target p.meta.dependencies name q.meta.provides d m (
            subst (λ x. (d.name ≡ x) ⊎ Memᴰ d.name q.meta.provides) (sym (some-injective _ _ e))
              why),
    )
