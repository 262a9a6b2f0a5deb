-- ===== src/SatModel/Conflicts.antt =====
-- The conflict clauses: `add_conflict_clauses` of src/graph/sat_model.c, and the model that
-- `sat_model_build` makes.
use lib_apg.Base.{
  ℕ, ◌≡◌, refl, ◌∙◌, sym, ◌≢◌, inl, inr, Bool, true, false, List, [], ◌∷◌, none, arith, All, subst,
  Allocs, Bool-cases, ◌==◌, ==_iff,
}
use lib_apg.CString.{CStr}
use lib_apg.Package.{Package}
use lib_apg.Candidates.{CandidateSet, candidate_set_lookup}
use lib_apg.Candidates.Group.{items_of}
use lib_apg.Sat.Clause.{neg, conflict}
use lib_apg.SatModel.{
  SatModel, sat_model_var, add_clause, with_var, then_build, group_items, group_conflicts,
  conflict_clauses, add_conflict_clauses,
}
use lib_apg.SatModel.Vars.{VarOf, IsValid, Grown, Grown-trans, Grown-VarOf}
use lib_apg.SatModel.NewVar.{sat_model_var-VarPost}
use lib_apg.SatModel.Meaning.{
  picked-VarOf, VarOf-LitOk, BuildPost, nothing_added, BuildPost-iff, then_build-BuildPost,
  with_var-BuildPost,
}
use lib_apg.SatModel.Clauses.{add_clause-BuildPost}
use lib_apg.SatModel.Lits.{group_items_lem}

-- None of the candidates but the package at address a itself is selected.
abbrev pub NoneElse : (ℕ → Bool) → ℕ → List Package → Type 0
NoneElse sel a items = All (λ other. other.addr ≢ a → sel other.addr ≡ false) items

-- If the package is selected, no other candidate for a name that it conflicts with is.
abbrev pub IsFreeAt : CandidateSet → (ℕ → Bool) → Package → Type 0
IsFreeAt cs sel pkg =
    sel pkg.addr ≡ true → All (λ name. NoneElse sel pkg.addr (items_of cs name)) pkg.conflicts

apart : (b : Bool) → b ≡ false → b ≢ true
apart b e q = cc

unequal : (a b : ℕ) → (a == b) ≡ false → a ≢ b
unequal a b e = ground arith

module _ (P : Package → Type 0) where
  conflict_clause-BuildPost :
      (allocs : Allocs) (m : SatModel) (a b v w : ℕ)
      → IsValid P m
      → VarOf m a v
      → VarOf m b w
      → BuildPost P allocs m
          (λ sel. sel a ≡ true → sel b ≡ false)
          (add_clause
            (record { lits = neg v ∷ neg w ∷ []; kind = conflict; dep_name = none })
            m
            allocs)
  conflict_clause-BuildPost allocs m a b v w ok found other =
      add_clause-BuildPost P allocs m ok
        (record { lits = neg v ∷ neg w ∷ []; kind = conflict; dep_name = none })
        (record {
          lits_ok = (VarOf-LitOk P m a v ok found, (VarOf-LitOk P m b w ok other, tt));
          nonempty = λ e. cc;
          pair = λ e. omega arith;
        })
        (λ sel. sel a ≡ true → sel b ≡ false)
        (λ sel.
          let here = picked-VarOf P m sel a v ok found in
          let there = picked-VarOf P m sel b w ok other in
          (
            λ h t. elim h [
              | inl c ↦ absurd (apart (sel a) (sym here ∙ c) t)
              | inr d ↦ elim d [ inl c ↦ sym there ∙ c | inr n ↦ absurd n ]
            ],
            λ f. elim (Bool-cases (sel a)) [
              | inl t ↦ inr (inl (there ∙ f t))
              | inr n ↦ inl (here ∙ n)
            ],
          ))

  group_conflicts-BuildPost :
      (pkg : Package) (v : ℕ) (items : List Package) (m : SatModel) (allocs : Allocs)
      → IsValid P m
      → All P items
      → VarOf m pkg.addr v
      → BuildPost P allocs m
          (λ sel. sel pkg.addr ≡ true → NoneElse sel pkg.addr items)
          (group_conflicts pkg v items m allocs)
  unfolding group_conflicts
  group_conflicts-BuildPost pkg v [] m allocs ok from found =
      (nothing_added P m (λ sel. sel pkg.addr ≡ true → Unit) ok (λ sel _. tt), λ e. e)
  group_conflicts-BuildPost pkg v (other ∷ items) m allocs ok from found =
      by_self (other.addr == pkg.addr) refl
        (group_conflicts-BuildPost pkg v items m allocs ok from.1 found)
        (λ m' rest g.
          group_conflicts-BuildPost pkg v items m' rest g.valid from.1
            (Grown-VarOf P m m' pkg.addr v ok g found))
    where
      by_self :
          (b : Bool)
          → (other.addr == pkg.addr) ≡ b
          → BuildPost P allocs m
              (λ sel. sel pkg.addr ≡ true → NoneElse sel pkg.addr items)
              (group_conflicts pkg v items m allocs)
          → ((m' : SatModel) (rest : Allocs)
              → Grown P m m'
              → BuildPost P rest m'
                  (λ sel. sel pkg.addr ≡ true → NoneElse sel pkg.addr items)
                  (group_conflicts pkg v items m' rest))
          → BuildPost P allocs m
              (λ sel. sel pkg.addr ≡ true → NoneElse sel pkg.addr (other ∷ items))
              (elim b as (λ _. Bool × SatModel × Allocs) [
                | true ↦ group_conflicts pkg v items m allocs
                | false ↦ with_var (sat_model_var m other allocs) (λ w m' rest.
                    then_build
                      (add_clause
                        (record { lits = neg v ∷ neg w ∷ []; kind = conflict; dep_name = none })
                        m'
                        rest)
                      (λ m'' rest'. group_conflicts pkg v items m'' rest'))
              ])
      by_self true e skipped rec =
          BuildPost-iff P allocs m (λ sel. sel pkg.addr ≡ true → NoneElse sel pkg.addr items)
            (λ sel. sel pkg.addr ≡ true → NoneElse sel pkg.addr (other ∷ items))
            (group_conflicts pkg v items m allocs)
            (λ sel. (
              λ f t. ((λ ne. absurd (ne ((==_iff other.addr pkg.addr).0 e))), f t),
              λ f t. (f t).1,
            ))
            skipped
      by_self false e skipped rec =
          with_var-BuildPost P allocs m other.addr
            (λ sel. sel pkg.addr ≡ true → NoneElse sel pkg.addr (other ∷ items))
            (sat_model_var m other allocs)
            (λ w m' rest.
              then_build
                (add_clause (record { lits = neg v ∷ neg w ∷ []; kind = conflict; dep_name = none })
                  m' rest)
                (λ m'' rest'. group_conflicts pkg v items m'' rest'))
            ok (sat_model_var-VarPost P m other allocs ok from.0)
            (λ w m' rest g found'.
              then_build-BuildPost P rest m' (λ sel. sel pkg.addr ≡ true → sel other.addr ≡ false)
                (λ sel. sel pkg.addr ≡ true → NoneElse sel pkg.addr items)
                (λ sel. sel pkg.addr ≡ true → NoneElse sel pkg.addr (other ∷ items))
                (add_clause (record { lits = neg v ∷ neg w ∷ []; kind = conflict; dep_name = none })
                  m' rest)
                (λ m'' rest'. group_conflicts pkg v items m'' rest')
                (λ sel. (
                  (λ f. ((λ t. (f t).0 (unequal other.addr pkg.addr e)), (λ t. (f t).1))),
                  λ h t. ((λ _. h.0 t), h.1 t),
                ))
                (conflict_clause-BuildPost rest m' pkg.addr other.addr v w g.valid
                  (Grown-VarOf P m m' pkg.addr v ok g found) found')
                (λ m'' rest' g'. rec m'' rest' (Grown-trans P m m' m'' g g')))

  module _ (cs : CandidateSet) (from : (name : CStr) → All P (items_of cs name)) where
    conflict_clauses-BuildPost :
        (pkg : Package) (v : ℕ) (names : List CStr) (m : SatModel) (allocs : Allocs)
        → IsValid P m
        → VarOf m pkg.addr v
        → BuildPost P allocs m
            (λ sel.
              sel pkg.addr ≡ true → All (λ name. NoneElse sel pkg.addr (items_of cs name)) names)
            (conflict_clauses cs pkg v names m allocs)
    unfolding conflict_clauses
    conflict_clauses-BuildPost pkg v [] m allocs ok found =
        (nothing_added P m (λ sel. sel pkg.addr ≡ true → Unit) ok (λ sel _. tt), λ e. e)
    conflict_clauses-BuildPost pkg v (name ∷ names) m allocs ok found =
        then_build-BuildPost P allocs m
          (λ sel. sel pkg.addr ≡ true → NoneElse sel pkg.addr (items_of cs name))
          (λ sel. sel pkg.addr ≡ true → All (λ n. NoneElse sel pkg.addr (items_of cs n)) names)
          (λ sel.
            sel pkg.addr ≡ true → All (λ n. NoneElse sel pkg.addr (items_of cs n)) (name ∷ names))
          (group_conflicts pkg v (group_items (candidate_set_lookup cs name)) m allocs)
          (λ m' rest. conflict_clauses cs pkg v names m' rest)
          (λ sel. ((λ f. ((λ t. (f t).0), (λ t. (f t).1))), λ h t. (h.0 t, h.1 t)))
          (subst
            (λ items.
              BuildPost P allocs m (λ sel. sel pkg.addr ≡ true → NoneElse sel pkg.addr items)
                (group_conflicts pkg v (group_items (candidate_set_lookup cs name)) m allocs))
            (group_items_lem (candidate_set_lookup cs name))
            (group_conflicts-BuildPost pkg v (group_items (candidate_set_lookup cs name)) m allocs
              ok (subst (All P) (sym (group_items_lem (candidate_set_lookup cs name))) (from name))
              found))
          (λ m' rest g.
            conflict_clauses-BuildPost pkg v names m' rest g.valid
              (Grown-VarOf P m m' pkg.addr v ok g found))

    pub add_conflict_clauses-BuildPost :
        (pkg : Package) (m : SatModel) (allocs : Allocs)
        → IsValid P m
        → P pkg
        → BuildPost P allocs m (λ sel. IsFreeAt cs sel pkg) (add_conflict_clauses cs pkg m allocs)
    unfolding add_conflict_clauses
    add_conflict_clauses-BuildPost pkg m allocs ok origin =
        with_var-BuildPost P allocs m pkg.addr (λ sel. IsFreeAt cs sel pkg)
          (sat_model_var m pkg allocs)
          (λ v m' rest. conflict_clauses cs pkg v pkg.conflicts m' rest) ok
          (sat_model_var-VarPost P m pkg allocs ok origin)
          (λ v m' rest g found.
            conflict_clauses-BuildPost pkg v pkg.conflicts m' rest g.valid found)
