-- ===== src/SatModel/Dependencies.antt =====
-- The dependency clauses: `add_dependency_clauses` of src/graph/sat_model.c.
use lib_apg.Base.{
  ℕ, ◌≡◌, refl, ◌∙◌, sym, ◌≢◌, inl, inr, Bool, true, false, List, [], ◌∷◌, Option, none, some, All,
  subst, Allocs, granted, later, Bool-cases,
}
use lib_apg.CString.{CStr}
use lib_apg.Package.{DepConstraint, Package}
use lib_apg.Candidates.{CandidateSet, candidate_set_lookup}
use lib_apg.Candidates.Group.{items_of}
use lib_apg.Sat.Clause.{Lit, neg, dependency}
use lib_apg.SatModel.{
  SatModel, sat_model_var, add_clause, then_build, group_items, candidate_lits, dependency_clause,
  dependency_clauses, add_dependency_clauses,
}
use lib_apg.SatModel.Vars.{VarOf, IsValid, Grown, Grown-refl, Grown-VarOf}
use lib_apg.SatModel.NewVar.{sat_model_var-VarPost, granted-nil, later-nil}
use lib_apg.SatModel.Meaning.{
  picked-VarOf, VarOf-LitOk, BuildPost, nothing_added, same_clauses-BuildPost, then_build-BuildPost,
  with_var-BuildPost,
}
use lib_apg.SatModel.Lits.{SomeFits, IsClosedAt, group_items_lem, LitsPost, candidate_lits-LitsPost}
use lib_apg.SatModel.Clauses.{add_clause-BuildPost}

module _ (P : Package → Type 0) where
  -- The clause of one dependency.
  dependency_clause-BuildPost :
      (allocs : Allocs) (dep : DepConstraint) (items : List Package) (m : SatModel) (a v : ℕ)
      (r : Option (List Lit) × SatModel × Allocs)
      → IsValid P m
      → VarOf m a v
      → LitsPost P allocs dep items (neg v ∷ []) m r
      → BuildPost P allocs m
          (λ sel. sel a ≡ true → SomeFits sel dep items)
          (dependency_clause dep r)
  unfolding dependency_clause
  dependency_clause-BuildPost allocs dep items m a v (none, m', rest) ok found p = p
  dependency_clause-BuildPost allocs dep items m a v (some lits, m', rest) ok found p =
      same_clauses-BuildPost P allocs rest m m' (λ sel. sel a ≡ true → SomeFits sel dep items)
        (add_clause (record { lits = lits; kind = dependency; dep_name = some dep.name }) m' rest)
        ok p.0.grown p.0.same_clauses p.1
        (add_clause-BuildPost P rest m' p.0.grown.valid
          (record { lits = lits; kind = dependency; dep_name = some dep.name })
          (record { lits_ok = p.0.lits_ok; nonempty = p.0.nonempty; pair = λ e. cc })
          (λ sel. sel a ≡ true → SomeFits sel dep items)
          (λ sel.
            let (to, from) = p.0.says sel in
            let here = picked-VarOf P m sel a v ok found in
            (
              λ h t. elim (to h) [
                | inl b ↦ elim b [
                  | inl c ↦ absurd (apart (sel a) (sym here ∙ c) t)
                  | inr d ↦ absurd d
                ]
                | inr b ↦ b
              ],
              λ f. elim (Bool-cases (sel a)) [
                | inl t ↦ from (inr (f t))
                | inr n ↦ from (inl (inl (here ∙ n)))
              ],
            )))
    where
      apart : (b : Bool) → b ≡ false → b ≢ true
      apart b e q = cc

  module _ (cs : CandidateSet) (from : (name : CStr) → All P (items_of cs name)) where
    -- One dependency.
    dependency-BuildPost :
        (a v : ℕ) (dep : DepConstraint) (m : SatModel) (allocs : Allocs)
        → IsValid P m
        → VarOf m a v
        → BuildPost P allocs m
            (λ sel. sel a ≡ true → SomeFits sel dep (items_of cs dep.name))
            (dependency_clause dep (
              candidate_lits dep
                (group_items (candidate_set_lookup cs dep.name))
                (neg v ∷ [])
                m
                allocs))
    dependency-BuildPost a v dep m allocs ok found =
        subst
          (λ items.
            BuildPost P allocs m (λ sel. sel a ≡ true → SomeFits sel dep items)
              (dependency_clause dep (
                candidate_lits dep (group_items (candidate_set_lookup cs dep.name)) (neg v ∷ []) m
                  allocs)))
          (group_items_lem (candidate_set_lookup cs dep.name))
          (dependency_clause-BuildPost allocs dep (group_items (candidate_set_lookup cs dep.name)) m
            a v
            (candidate_lits dep (group_items (candidate_set_lookup cs dep.name)) (neg v ∷ []) m
              allocs)
            ok found
            (candidate_lits-LitsPost P dep (group_items (candidate_set_lookup cs dep.name))
              (neg v ∷ []) m allocs ok
              (subst (All P) (sym (group_items_lem (candidate_set_lookup cs dep.name)))
                (from dep.name))
              (VarOf-LitOk P m a v ok found, tt) (λ e. cc)))

    dependency_clauses-BuildPost :
        (a v : ℕ) (deps : List DepConstraint) (m : SatModel) (allocs : Allocs)
        → IsValid P m
        → VarOf m a v
        → BuildPost P allocs m
            (λ sel. sel a ≡ true → All (λ dep. SomeFits sel dep (items_of cs dep.name)) deps)
            (dependency_clauses cs v deps m allocs)
    unfolding dependency_clauses
    dependency_clauses-BuildPost a v [] m allocs ok found =
        (nothing_added P m (λ sel. sel a ≡ true → Unit) ok (λ sel _. tt), λ e. e)
    dependency_clauses-BuildPost a v (dep ∷ deps) m allocs ok found =
        by_room (granted allocs) refl (λ m' rest g.
          dependency_clauses-BuildPost a v deps m' rest g.valid (Grown-VarOf P m m' a v ok g found))
      where
        by_room :
            (b : Bool)
            → granted allocs ≡ b
            → ((m' : SatModel) (rest : Allocs)
                → Grown P m m'
                → BuildPost P rest m'
                    (λ sel. sel a ≡ true → All (λ d. SomeFits sel d (items_of cs d.name)) deps)
                    (dependency_clauses cs v deps m' rest))
            → BuildPost P allocs m
                (λ sel. sel a ≡ true → All (λ d. SomeFits sel d (items_of cs d.name)) (dep ∷ deps))
                (elim b as (λ _. Bool × SatModel × Allocs) [
                  | false ↦ (false, m, later allocs)
                  | true ↦
                      then_build
                        (dependency_clause dep (
                          candidate_lits dep
                            (group_items (candidate_set_lookup cs dep.name))
                            (neg v ∷ [])
                            m
                            (later allocs)))
                        (λ m' rest. dependency_clauses cs v deps m' rest)
                ])
        by_room false e rec = granted-nil allocs e
        by_room true e rec =
            same_clauses-BuildPost P allocs (later allocs) m m
              (λ sel. sel a ≡ true → All (λ d. SomeFits sel d (items_of cs d.name)) (dep ∷ deps))
              (then_build
                (dependency_clause dep (
                  candidate_lits dep (group_items (candidate_set_lookup cs dep.name)) (neg v ∷ []) m
                    (later allocs)))
                (λ m' rest. dependency_clauses cs v deps m' rest))
              ok (Grown-refl P m ok) refl (later-nil allocs)
              (then_build-BuildPost P (later allocs) m
                (λ sel. sel a ≡ true → SomeFits sel dep (items_of cs dep.name))
                (λ sel. sel a ≡ true → All (λ d. SomeFits sel d (items_of cs d.name)) deps)
                (λ sel. sel a ≡ true → All (λ d. SomeFits sel d (items_of cs d.name)) (dep ∷ deps))
                (dependency_clause dep (
                  candidate_lits dep (group_items (candidate_set_lookup cs dep.name)) (neg v ∷ []) m
                    (later allocs)))
                (λ m' rest. dependency_clauses cs v deps m' rest)
                (λ sel. ((λ f. ((λ t. (f t).0), (λ t. (f t).1))), λ h t. (h.0 t, h.1 t)))
                (dependency-BuildPost a v dep m (later allocs) ok found) rec)

    pub add_dependency_clauses-BuildPost :
        (pkg : Package) (m : SatModel) (allocs : Allocs)
        → IsValid P m
        → P pkg
        → BuildPost P allocs m
            (λ sel. IsClosedAt cs sel pkg)
            (add_dependency_clauses cs pkg m allocs)
    unfolding add_dependency_clauses
    add_dependency_clauses-BuildPost pkg m allocs ok origin =
        with_var-BuildPost P allocs m pkg.addr (λ sel. IsClosedAt cs sel pkg)
          (sat_model_var m pkg allocs)
          (λ v m' rest. dependency_clauses cs v pkg.dependencies m' rest) ok
          (sat_model_var-VarPost P m pkg allocs ok origin)
          (λ v m' rest g found.
            dependency_clauses-BuildPost pkg.addr v pkg.dependencies m' rest g.valid found)
