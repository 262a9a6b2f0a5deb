-- ===== src/SatModel/Built.antt =====
-- The model that `sat_model_build` of src/graph/sat_model.c makes.
use lib_apg.Base.{
  ℕ, suc, ◌-◌, ◌≡◌, sym, ◌∙◌, ◌≢◌, Bool, false, List, [], ◌∷◌, Option, none, some, length, arith,
  All, Allocs, ap, get_elem?-some,
}
use lib_apg.CString.{CStr}
use lib_apg.Package.{Package}
use lib_apg.Candidates.{CandidateSet}
use lib_apg.Candidates.Group.{items_of}
use lib_apg.Sat.Clause.{Lit, Clause, var}
use lib_apg.Sat.Visit.{LitOk, ClausesOk}
use lib_apg.Sat.Sound.{ModelOk}
use lib_apg.SatModel.{
  SatModel, solver_model, sat_model_init, find_var, then_build, add_conflict_clauses,
  add_dependency_clauses, sat_model_build,
}
use lib_apg.SatModel.Vars.{ClauseGood, IsValid}
use lib_apg.SatModel.Meaning.{picked_at, picked, BuildPost, nothing_added, then_build-BuildPost}
use lib_apg.SatModel.Lits.{IsClosedAt}
use lib_apg.SatModel.Dependencies.{add_dependency_clauses-BuildPost}
use lib_apg.SatModel.Conflicts.{IsFreeAt, add_conflict_clauses-BuildPost}

-- The selection, by address, is right for the packages: with each of them it has a candidate for
-- each dependency, and no other candidate for a name in its conflicts.
abbrev pub IsSelection : CandidateSet → List Package → (ℕ → Bool) → Type 0
IsSelection cs pkgs sel = All (λ pkg. IsClosedAt cs sel pkg × IsFreeAt cs sel pkg) pkgs

-- An assignment to the variables as a selection of the packages.
abbrev pub chosen_at : (ℕ → Bool) → Option ℕ → Bool
chosen_at ρ none = false
chosen_at ρ (some v) = ρ v

abbrev pub as_selection : (ℕ → Bool) → SatModel → ℕ → Bool
as_selection ρ m a = chosen_at ρ (find_var m.var_buckets a)

module _ (P : Package → Type 0) where
  pub sat_model_init-IsValid : IsValid P sat_model_init
  unfolding sat_model_init find_var
  sat_model_init-IsValid = record {
    buckets_placed = record { placed = λ i. tt; distinct = λ i. tt };
    indexed = λ i p e. cc;
    found = λ a v e. cc;
    origin = λ i p e. cc;
    clauses_good = tt;
  }

  module _ (cs : CandidateSet) (from : (name : CStr) → All P (items_of cs name)) where
    -- On a valid model, sat_model_build fails only if an allocation does. Otherwise the model stays valid, keeps
    -- its variables, and its new clauses hold exactly for the selections in which every given package that is
    -- selected has a selected candidate for each dependency and no other selected candidate for a name in
    -- its conflicts. All packages that it takes satisfy `P`.
    pub sat_model_build-BuildPost :
        (pkgs : List Package) (m : SatModel) (allocs : Allocs)
        → IsValid P m
        → All P pkgs
        → BuildPost P allocs m (IsSelection cs pkgs) (sat_model_build cs pkgs m allocs)
    unfolding sat_model_build
    sat_model_build-BuildPost [] m allocs ok origin =
        (nothing_added P m (λ sel. Unit) ok (λ sel. tt), λ e. e)
    sat_model_build-BuildPost (pkg ∷ pkgs) m allocs ok origin =
        then_build-BuildPost P allocs m (λ sel. IsClosedAt cs sel pkg)
          (λ sel. IsFreeAt cs sel pkg × IsSelection cs pkgs sel) (IsSelection cs (pkg ∷ pkgs))
          (add_dependency_clauses cs pkg m allocs)
          (λ m' rest.
            then_build (add_conflict_clauses cs pkg m' rest)
              (λ m'' rest'. sat_model_build cs pkgs m'' rest'))
          (λ sel. ((λ h. (h.0.0, (h.0.1, h.1))), (λ h. ((h.0, h.1.0), h.1.1))))
          (add_dependency_clauses-BuildPost P cs from pkg m allocs ok origin.0)
          (λ m' rest g.
            then_build-BuildPost P rest m' (λ sel. IsFreeAt cs sel pkg) (IsSelection cs pkgs)
              (λ sel. IsFreeAt cs sel pkg × IsSelection cs pkgs sel)
              (add_conflict_clauses cs pkg m' rest) (λ m'' rest'. sat_model_build cs pkgs m'' rest')
              (λ sel. ((λ h. h), (λ h. h)))
              (add_conflict_clauses-BuildPost P cs from pkg m' rest g.valid origin.0)
              (λ m'' rest' g'. sat_model_build-BuildPost pkgs m'' rest' g'.valid origin.1))

  -- What the solver needs.
  pub IsValid-ModelOk : (m : SatModel) → IsValid P m → ModelOk (solver_model m)
  IsValid-ModelOk m ok = record {
    clauses_ok = each m.clauses ok.clauses_good;
    nonempty = full m.clauses ok.clauses_good;
  }
    where
      each :
          (cs : List Clause)
          → All (ClauseGood (suc (length m.vars))) cs
          → ClausesOk (suc (length m.vars)) cs
      each [] h = tt
      each (c ∷ cs) h = (h.0.lits_ok, each cs h.1)

      full :
          (cs : List Clause) → All (ClauseGood (suc (length m.vars))) cs → All (λ c. c.lits ≢ []) cs
      full [] h = tt
      full (c ∷ cs) h = (h.0.nonempty, full cs h.1)

  pub picked-as_selection :
      (m : SatModel) (ρ : ℕ → Bool)
      → IsValid P m
      → (l : Lit) → LitOk (suc (length m.vars)) l
      → ρ (var l) ≡ picked (as_selection ρ m) m (var l)
  picked-as_selection m ρ ok l good =
      let (p, at) = get_elem?-some m.vars (var l - 1) (omega (arith, good)) in
      let found = ok.indexed (var l - 1) p at in
      let back : suc (var l - 1) ≡ var l = omega (arith, good) in
      sym (ap (picked_at (as_selection ρ m)) at ∙ ap (chosen_at ρ) found ∙ ap ρ back)
