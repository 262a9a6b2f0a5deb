-- ===== src/SatModel/Lits.antt =====
-- The literals of a dependency clause: the loop over the candidates in `add_dependency_clauses` of
-- src/graph/sat_model.c.
use lib_apg.Base.{
  ℕ, suc, ◌≡◌, refl, ◌∙◌, sym, ◌≢◌, ◌⊎◌, inl, inr, ◌↔◌, Bool, true, false, not, List, [], ◌∷◌, ◌++◌,
  Option, none, some, length, arith, All, All-append, Allocs,
}
use lib_apg.Package.{DepConstraint, Package}
use lib_apg.Version.{ver_satisfies}
use lib_apg.Version.Satisfies.{not_any_not_satisfied}
use lib_apg.Candidates.{CandidateGroup, CandidateSet}
use lib_apg.Candidates.Group.{items_in, items_of}
use lib_apg.Sat.Clause.{Lit, pos}
use lib_apg.Sat.Scan.{Holds, HoldsSome}
use lib_apg.Sat.Visit.{LitOk}
use lib_apg.SatModel.{SatModel, sat_model_var, is_unfit, group_items, with_lit, candidate_lits}
use lib_apg.SatModel.Vars.{VarOf, IsValid, Grown, Grown-refl, Grown-trans}
use lib_apg.SatModel.NewVar.{VarPost, sat_model_var-VarPost}
use lib_apg.SatModel.Meaning.{picked, picked-Grown, picked-VarOf, VarOf-LitOk, HoldsSome-cong}

-- A selection, by address, has one of the candidates, in a version that the dependency accepts.
abbrev pub SomeFits : (ℕ → Bool) → DepConstraint → List Package → Type 0
SomeFits sel dep [] = ⊥
SomeFits sel dep (cand ∷ items) =
    ((ver_satisfies cand.version dep.op dep.version ≡ true) × (sel cand.addr ≡ true))
    ⊎ SomeFits sel dep items

-- If the package is selected, so is a candidate for each of its dependencies.
abbrev pub IsClosedAt : CandidateSet → (ℕ → Bool) → Package → Type 0
IsClosedAt cs sel pkg =
    sel pkg.addr ≡ true → All (λ dep. SomeFits sel dep (items_of cs dep.name)) pkg.dependencies

pub group_items_lem : (o : Option CandidateGroup) → group_items o ≡ items_in o
group_items_lem none = refl
group_items_lem (some g) = refl

is_unfit_lem :
    (dep : DepConstraint) (cand : Package)
    → is_unfit dep cand ≡ not (ver_satisfies cand.version dep.op dep.version)
unfolding is_unfit
is_unfit_lem dep cand = not_any_not_satisfied dep.op cand.version dep.version

not-true : (b : Bool) → not b ≡ true → b ≢ true
not-true true e = cc
not-true false e = λ q. cc

not-false : (b : Bool) → not b ≡ false → b ≡ true
not-false true e = refl
not-false false e = cc

HoldsSome-append :
    (ρ : ℕ → Bool) (ls : List Lit) (l : Lit)
    → HoldsSome ρ (ls ++ (l ∷ [])) ↔ (HoldsSome ρ ls ⊎ Holds ρ l)
HoldsSome-append ρ [] l = (
  λ h. elim h [ inl a ↦ inr a | inr b ↦ absurd b ],
  λ h. elim h [ inl a ↦ absurd a | inr b ↦ inl b ],
)
HoldsSome-append ρ (k ∷ ls) l =
    let (to, from) = HoldsSome-append ρ ls l in
    (
      λ h. elim h [
        | inl a ↦ inl (inl a)
        | inr b ↦ elim (to b) [ inl c ↦ inl (inr c) | inr d ↦ inr d ]
      ],
      λ h. elim h [
        | inl a ↦ elim a [ inl c ↦ inl c | inr d ↦ inr (from (inl d)) ]
        | inr b ↦ inr (from (inr b))
      ],
    )

append-nonempty : (ls : List Lit) (l : Lit) → (ls ++ (l ∷ [])) ≢ []
append-nonempty [] l e = cc
append-nonempty (k ∷ ls) l e = cc

module _ (P : Package → Type 0) where
  -- The literals that the loop over the candidates leaves.
  pub record Lits (dep : DepConstraint) (items : List Package) (lits : List Lit) (m : SatModel)
      (lits' : List Lit) (m' : SatModel) : Type 0 where
    pub grown : Grown P m m'
    pub same_clauses : m'.clauses ≡ m.clauses
    pub lits_ok : All (LitOk (suc (length m'.vars))) lits'
    pub nonempty : lits' ≢ []
    pub says :
        (sel : ℕ → Bool)
        → HoldsSome (picked sel m') lits' ↔ (HoldsSome (picked sel m) lits ⊎ SomeFits sel dep items)

  abbrev pub LitsPost :
      Allocs
      → DepConstraint
      → List Package
      → List Lit
      → SatModel
      → Option (List Lit) × SatModel × Allocs
      → Type 0
  LitsPost allocs dep items lits m (none, m', rest) = allocs ≢ []
  LitsPost allocs dep items lits m (some lits', m', rest) =
      Lits dep items lits m lits' m' × (allocs ≡ [] → rest ≡ [])

  LitOk-Grown :
      (m m' : SatModel) (ls : List Lit)
      → Grown P m m'
      → All (LitOk (suc (length m.vars))) ls
      → All (LitOk (suc (length m'.vars))) ls
  LitOk-Grown m m' [] g good = tt
  LitOk-Grown m m' (l ∷ ls) g good =
      ((good.0.0, omega (arith, good.0.1, g.larger)), LitOk-Grown m m' ls g good.1)

  -- One candidate more, then the rest.
  with_lit-LitsPost :
      (allocs : Allocs) (dep : DepConstraint) (cand : Package) (items : List Package)
      (lits : List Lit) (m : SatModel) (r : Option ℕ × SatModel × Allocs)
      (next : ℕ → SatModel → Allocs → Option (List Lit) × SatModel × Allocs)
      → ver_satisfies cand.version dep.op dep.version ≡ true
      → All (LitOk (suc (length m.vars))) lits
      → VarPost P allocs m cand.addr r
      → ((v : ℕ) (m' : SatModel) (rest : Allocs)
          → IsValid P m'
          → All (LitOk (suc (length m'.vars))) (lits ++ (pos v ∷ []))
          → LitsPost rest dep items (lits ++ (pos v ∷ [])) m' (next v m' rest))
      → LitsPost allocs dep (cand ∷ items) lits m (with_lit r next)
  with_lit-LitsPost allocs dep cand items lits m (none, m', rest) next fit good p f = p
  with_lit-LitsPost allocs dep cand items lits m (some v, m', rest) next fit good p f =
      let (g, same, found, nil) = p in
      by_next g same found nil (next v m' rest) (
        f v m' rest g.valid (
          All-append (LitOk (suc (length m'.vars))) lits (pos v ∷ []) (LitOk-Grown m m' lits g good)
            (VarOf-LitOk P m' cand.addr v g.valid found, tt)))
    where
      by_next :
          Grown P m m'
          → m'.clauses ≡ m.clauses
          → VarOf m' cand.addr v
          → (allocs ≡ [] → rest ≡ [])
          → (r : Option (List Lit) × SatModel × Allocs)
          → LitsPost rest dep items (lits ++ (pos v ∷ [])) m' r
          → LitsPost allocs dep (cand ∷ items) lits m r
      by_next g same found nil (none, m'', rest') q = λ e. q (nil e)
      by_next g same found nil (some lits', m'', rest') q = (
        record {
          grown = Grown-trans P m m' m'' g q.0.grown;
          same_clauses = q.0.same_clauses ∙ same;
          lits_ok = q.0.lits_ok;
          nonempty = q.0.nonempty;
          says = λ sel.
              let (to, from) = q.0.says sel in
              let (split, join) = HoldsSome-append (picked sel m') lits (pos v) in
              let (new, old) =
                HoldsSome-cong (suc (length m.vars)) (picked sel m) (picked sel m')
                  (λ l ok. picked-Grown P m m' sel g l ok) lits good in
              let here = picked-VarOf P m' sel cand.addr v g.valid found in
              (
                λ h. elim (to h) [
                  | inr b ↦ inr (inr b)
                  | inl a ↦ elim (split a) [
                    | inl c ↦ inl (old c)
                    | inr d ↦ inr (inl (fit, sym here ∙ d))
                  ]
                ],
                λ h. elim h [
                  | inl a ↦ from (inl (join (inl (new a))))
                  | inr b ↦ elim b [
                    | inl c ↦ from (inl (join (inr (here ∙ c.1))))
                    | inr d ↦ from (inr d)
                  ]
                ],
              );
        },
        λ e. q.1 (nil e),
      )

  -- A candidate that does not fit changes nothing.
  skip-LitsPost :
      (allocs : Allocs) (dep : DepConstraint) (cand : Package) (items : List Package)
      (lits : List Lit) (m : SatModel) (r : Option (List Lit) × SatModel × Allocs)
      → ver_satisfies cand.version dep.op dep.version ≢ true
      → LitsPost allocs dep items lits m r
      → LitsPost allocs dep (cand ∷ items) lits m r
  skip-LitsPost allocs dep cand items lits m (none, m', rest) unfit p = p
  skip-LitsPost allocs dep cand items lits m (some lits', m', rest) unfit p = (
    record {
      grown = p.0.grown;
      same_clauses = p.0.same_clauses;
      lits_ok = p.0.lits_ok;
      nonempty = p.0.nonempty;
      says = λ sel.
          let (to, from) = p.0.says sel in
          (
            λ h. elim (to h) [ inl a ↦ inl a | inr b ↦ inr (inr b) ],
            λ h. elim h [
              | inl a ↦ from (inl a)
              | inr b ↦ elim b [ inl c ↦ absurd (unfit c.0) | inr d ↦ from (inr d) ]
            ],
          );
    },
    p.1,
  )

  pub candidate_lits-LitsPost :
      (dep : DepConstraint) (items : List Package) (lits : List Lit) (m : SatModel)
      (allocs : Allocs)
      → IsValid P m
      → All P items
      → All (LitOk (suc (length m.vars))) lits
      → lits ≢ []
      → LitsPost allocs dep items lits m (candidate_lits dep items lits m allocs)
  unfolding candidate_lits
  candidate_lits-LitsPost dep [] lits m allocs ok from good full = (
    record {
      grown = Grown-refl P m ok;
      same_clauses = refl;
      lits_ok = good;
      nonempty = full;
      says = λ sel. ((λ h. inl h), (λ h. elim h [ inl a ↦ a | inr b ↦ absurd b ]));
    },
    λ e. e,
  )
  candidate_lits-LitsPost dep (cand ∷ items) lits m allocs ok from good full =
      by_fit (is_unfit dep cand) (sym (is_unfit_lem dep cand))
        (candidate_lits-LitsPost dep items lits m allocs ok from.1 good full)
        (λ v m' rest ok' good'.
          candidate_lits-LitsPost dep items (lits ++ (pos v ∷ [])) m' rest ok' from.1 good'
            (append-nonempty lits (pos v)))
    where
      by_fit :
          (b : Bool)
          → not (ver_satisfies cand.version dep.op dep.version) ≡ b
          → LitsPost allocs dep items lits m (candidate_lits dep items lits m allocs)
          → ((v : ℕ) (m' : SatModel) (rest : Allocs)
              → IsValid P m'
              → All (LitOk (suc (length m'.vars))) (lits ++ (pos v ∷ []))
              → LitsPost rest dep items
                  (lits ++ (pos v ∷ []))
                  m'
                  (candidate_lits dep items (lits ++ (pos v ∷ [])) m' rest))
          → LitsPost allocs dep
              (cand ∷ items)
              lits
              m
              (elim b as (λ _. Option (List Lit) × SatModel × Allocs) [
                | true ↦ candidate_lits dep items lits m allocs
                | false ↦
                    with_lit
                      (sat_model_var m cand allocs)
                      (λ v m' rest. candidate_lits dep items (lits ++ (pos v ∷ [])) m' rest)
              ])
      by_fit true e skipped rec =
          skip-LitsPost allocs dep cand items lits m (candidate_lits dep items lits m allocs)
            (not-true (ver_satisfies cand.version dep.op dep.version) e) skipped
      by_fit false e skipped rec =
          with_lit-LitsPost allocs dep cand items lits m (sat_model_var m cand allocs)
            (λ v m' rest. candidate_lits dep items (lits ++ (pos v ∷ [])) m' rest)
            (not-false (ver_satisfies cand.version dep.op dep.version) e) good
            (sat_model_var-VarPost P m cand allocs ok from.0) rec
