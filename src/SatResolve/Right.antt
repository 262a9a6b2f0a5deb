-- ===== src/SatResolve/Right.antt =====
-- The answers of `dep_graph_resolve_sat` of src/graph/sat.c are right.
use lib_apg.Base.{
  ℕ, suc, ◌≡◌, refl, sym, ◌∙◌, ◌⊎◌, inl, inr, ◌↔◌, Bool, true, false, List, [], ◌∷◌, Option, none,
  some, length, All, All-of_get, All-of, subst, Allocs, granted, if_rule,
}
use mathlib.Core.List.{Memᴰ}
use std.Path.{fun_ext}
use mathlib.Core.Option.{some-injective}
use lib_apg.CString.{CStr}
use lib_apg.Package.{Package}
use lib_apg.Candidates.{CandidateSet, candidate_set_init}
use lib_apg.Candidates.Group.{IsValid as SetIsValid, items_of}
use lib_apg.Candidates.Add.{candidate_set_init_lem}
use lib_apg.Sat.Clause.{Value}
use lib_apg.Sat.Scan.{Satisfies}
use lib_apg.Sat.Solve.{SatResult, Message}
use lib_apg.Sat.Sound.{chosen}
use lib_apg.Sat.Parallel.{
  Finish, sat_solve_parallel, sat_solve_parallel-satisfiable, sat_solve_parallel-unsatisfiable,
  sat_solve_parallel_terminates,
}
use lib_apg.SatModel.{
  SatModel, find_var, solver_model, sat_model_init, sat_model_build, sat_model_force,
}
use lib_apg.SatModel.Vars.{IsValid}
use lib_apg.SatModel.Meaning.{
  picked, Satisfies-cong, Adds, BuildPost, nothing_added, then_build-BuildPost,
}
use lib_apg.SatModel.Clauses.{sat_model_force-BuildPost}
use lib_apg.SatModel.Built.{
  IsSelection, as_selection, picked-as_selection, sat_model_init-IsValid, sat_model_build-BuildPost,
  IsValid-ModelOk,
}
use lib_apg.SatResolve.{
  Resolution, selected, unsatisfiable, budget_exceeded, error, stuck, null_name, selected_from,
  copy_selected, map_result, add_candidates, force_roots, solve_model, build_model, resolve_added,
  resolve_in, dep_graph_resolve_sat,
}
use lib_apg.SatResolve.Candidacy.{
  IsNamed, IsConsistent, IsPool, IsSelection-IsConsistent, IsConsistent-IsSelection, AddedPost,
  add_candidates-AddedPost, new-IsPool,
}
use lib_apg.SatResolve.Selected.{
  has_addr, IsOnce, selected_from-All, selected_from-IsOnce, IsOnce-of, suc-inj,
  has_addr-as_selection,
}

-- The roots are selected.
abbrev pub HasRoots : List Package → (ℕ → Bool) → Type 0
HasRoots roots sel = All (λ r. sel r.addr ≡ true) roots

force_roots-BuildPost :
    (P : Package → Type 0) (roots : List Package) (m : SatModel) (allocs : Allocs)
    → IsValid P m
    → All P roots
    → BuildPost P allocs m (HasRoots roots) (force_roots roots m allocs)
unfolding force_roots
force_roots-BuildPost P [] m allocs ok from =
    (nothing_added P m (λ sel. Unit) ok (λ sel. tt), λ e. e)
force_roots-BuildPost P (root ∷ roots) m allocs ok from =
    then_build-BuildPost P allocs m (λ sel. sel root.addr ≡ true) (HasRoots roots)
      (HasRoots (root ∷ roots)) (sat_model_force m root allocs)
      (λ m' rest. force_roots roots m' rest) (λ sel. ((λ h. h), (λ h. h)))
      (sat_model_force-BuildPost P m root allocs ok from.0)
      (λ m' rest g. force_roots-BuildPost P roots m' rest g.valid from.1)

module _ (candidates roots : List Package) where
  -- A candidate or a root.
  abbrev pub IsKnown : Package → Type 0
  IsKnown p = Memᴰ p candidates ⊎ Memᴰ p roots

  -- What a SATISFIABLE answer promises of the array that it returns.
  pub record IsResolution (ps : List Package) : Type 0 where
    pub consistent : IsConsistent candidates (has_addr ps)
    pub rooted : HasRoots roots (has_addr ps)
    pub known : All IsKnown ps
    pub once : IsOnce ps

  abbrev pub Meaning : Resolution → Type 0
  Meaning (selected ps) = IsResolution ps
  Meaning (unsatisfiable e) = (sel : ℕ → Bool) → IsConsistent candidates sel → ¬ HasRoots roots sel
  Meaning budget_exceeded = Unit
  Meaning error = Unit
  Meaning stuck = ⊥
  Meaning null_name = ¬ All IsNamed candidates

  module _ (budget thread_count : ℕ) (finishes : List Finish) (after : Allocs) where
    module _ (cs : CandidateSet) (pool : IsPool candidates cs) where
      build_model-BuildPost :
          (allocs : Allocs)
          → BuildPost IsKnown allocs sat_model_init
              (λ sel. IsSelection cs candidates sel × HasRoots roots sel)
              (build_model candidates roots budget thread_count finishes after cs allocs)
      unfolding build_model
      build_model-BuildPost allocs =
          then_build-BuildPost IsKnown allocs sat_model_init (IsSelection cs candidates)
            (HasRoots roots) (λ sel. IsSelection cs candidates sel × HasRoots roots sel)
            (sat_model_build cs candidates sat_model_init allocs)
            (λ m rest. force_roots roots m rest) (λ sel. ((λ h. h), (λ h. h)))
            (sat_model_build-BuildPost IsKnown cs
              (λ name. All-of IsKnown (items_of cs name) (λ p m. inl (pool.listed name p m).0))
              candidates sat_model_init allocs (sat_model_init-IsValid IsKnown)
              (All-of IsKnown candidates (λ p m. inl m)))
            (λ m rest g.
              force_roots-BuildPost IsKnown roots m rest g.valid
                (All-of IsKnown roots (λ p m. inr m)))

      module _ (m : SatModel)
          (adds : Adds IsKnown sat_model_init
            (λ sel. IsSelection cs candidates sel × HasRoots roots sel)
            m) where
        abbrev ok : IsValid IsKnown m
        ok = adds.grown.valid

        -- The clauses say that a selection is consistent and has the roots.
        Satisfies-sel :
            (sel : ℕ → Bool)
            → Satisfies (picked sel m) m.clauses
              ↔ (IsConsistent candidates sel × HasRoots roots sel)
        unfolding sat_model_init
        Satisfies-sel sel = (
          λ h.
              let says = ((adds.means sel).0 h).1 in
              (IsSelection-IsConsistent candidates cs pool sel says.0, says.1),
          λ h. (adds.means sel).1 (tt, (IsConsistent-IsSelection candidates cs pool sel h.0, h.1)),
        )

        selected-IsResolution :
            (o : Option (List Value))
            → Satisfies (chosen o) m.clauses
            → IsResolution (selected_from o 0 m.vars)
        selected-IsResolution o h =
            let read : as_selection (chosen o) m ≡ has_addr (selected_from o 0 m.vars) =
              fun_ext (λ a. sym (has_addr-as_selection IsKnown m o a ok)) in
            let agree =
              Satisfies-cong (suc (length m.vars)) (chosen o) (picked (as_selection (chosen o) m) m)
                (λ l good. picked-as_selection IsKnown m (chosen o) ok l good) m.clauses
                ok.clauses_good in
            let says =
              (Satisfies-sel (has_addr (selected_from o 0 m.vars))).0
                (subst (λ sel. Satisfies (picked sel m) m.clauses) read (agree.0 h)) in
            record {
              consistent = says.0;
              rooted = says.1;
              known = selected_from-All o IsKnown m.vars 0 (All-of_get IsKnown m.vars ok.origin);
              once = selected_from-IsOnce o m.vars 0 (
                  IsOnce-of m.vars (λ i j p q at at' same. suc-inj i j (
                    some-injective _ _ (
                      sym (ok.indexed i p at)
                      ∙ subst (λ a. find_var m.var_buckets a ≡ some (suc j)) (sym same)
                          (ok.indexed j q at')))));
            }

        copy_selected-Meaning :
            (ps : List Package) → IsResolution ps → Meaning (copy_selected ps after)
        unfolding copy_selected
        copy_selected-Meaning [] r = r
        copy_selected-Meaning (p ∷ ps) r = if_rule Meaning (granted after) (λ _. r) (λ _. tt)

        map_result-Meaning :
            (allocs : Allocs) (r : SatResult)
            → sat_solve_parallel (solver_model m) budget thread_count finishes allocs ≡ r
            → Meaning (map_result m.vars after r)
        unfolding map_result
        map_result-Meaning allocs (SatResult.satisfiable o) e =
            copy_selected-Meaning (selected_from o 0 m.vars) (
              selected-IsResolution o (
                sat_solve_parallel-satisfiable (solver_model m) budget
                  (IsValid-ModelOk IsKnown m ok) thread_count finishes allocs o e))
        map_result-Meaning allocs (SatResult.unsatisfiable c) e = λ sel right has.
            sat_solve_parallel-unsatisfiable (solver_model m) budget (IsValid-ModelOk IsKnown m ok)
              thread_count finishes allocs c e (picked sel m) ((Satisfies-sel sel).1 (right, has))
        map_result-Meaning allocs SatResult.budget_exceeded e = tt
        map_result-Meaning allocs SatResult.error e = tt
        map_result-Meaning allocs SatResult.stuck e =
            sat_solve_parallel_terminates (solver_model m) budget (IsValid-ModelOk IsKnown m ok)
              thread_count finishes allocs e

      solve_model-Meaning :
          (allocs : Allocs) (r : Bool × SatModel × Allocs)
          → BuildPost IsKnown allocs sat_model_init
              (λ sel. IsSelection cs candidates sel × HasRoots roots sel)
              r
          → Meaning (solve_model candidates roots budget thread_count finishes after r)
      unfolding solve_model
      solve_model-Meaning allocs (false, m, rest) p = tt
      solve_model-Meaning allocs (true, m, rest) p =
          map_result-Meaning m p.0 rest
            (sat_solve_parallel (solver_model m) budget thread_count finishes rest) refl

    resolve_added-Meaning :
        (cs : CandidateSet) (r : Option (Bool × CandidateSet × Allocs))
        → ((name : CStr) → items_of cs name ≡ [])
        → AddedPost cs candidates r
        → Meaning (resolve_added candidates roots budget thread_count finishes after r)
    unfolding resolve_added
    resolve_added-Meaning cs none empty p = p
    resolve_added-Meaning cs (some (false, cs', allocs)) empty p = tt
    resolve_added-Meaning cs (some (true, cs', allocs)) empty p =
        let pool = new-IsPool candidates cs cs' allocs empty p in
        solve_model-Meaning cs' pool allocs
          (build_model candidates roots budget thread_count finishes after cs' allocs)
          (build_model-BuildPost cs' pool allocs)

    dep_graph_resolve_sat-Meaning :
        (allocs : Allocs)
        → Meaning (dep_graph_resolve_sat candidates roots budget thread_count finishes after allocs)
    unfolding dep_graph_resolve_sat resolve_in
    dep_graph_resolve_sat-Meaning allocs =
        by_set (candidate_set_init allocs) (λ cs e. candidate_set_init_lem allocs cs e)
      where
        by_set :
            (r : Option CandidateSet × Allocs)
            → ((cs : CandidateSet)
                → r.0 ≡ some cs
                → SetIsValid cs × ((name : CStr) → items_of cs name ≡ []))
            → Meaning (resolve_in candidates roots budget thread_count finishes after r)
        by_set (none, rest) f = tt
        by_set (some cs, rest) f =
            let (valid, empty) = f cs refl in
            resolve_added-Meaning cs (add_candidates candidates cs rest) empty
              (add_candidates-AddedPost candidates cs rest valid)

    module _ (allocs : Allocs) where
      abbrev pub answer : Resolution
      answer = dep_graph_resolve_sat candidates roots budget thread_count finishes after allocs

      -- If the resolution answers SATISFIABLE, the array that it returns is a resolution: every dependency of a
      -- candidate in it is met by a candidate in it, none of its conflicts is in it but itself, the roots are
      -- in it, and it has only candidates and roots, each once. This holds for every budget, thread count,
      -- order of the workers and outcome of the allocations.
      pub dep_graph_resolve_sat-selected :
          (ps : List Package) → answer ≡ selected ps → IsResolution ps
      dep_graph_resolve_sat-selected ps e = subst Meaning e (dep_graph_resolve_sat-Meaning allocs)

      -- If the resolution answers UNSATISFIABLE, no selection of the candidates that has the roots is consistent.
      pub dep_graph_resolve_sat-unsatisfiable :
          (e : Option Message)
          → answer ≡ unsatisfiable e
          → (sel : ℕ → Bool) → IsConsistent candidates sel
          → ¬ HasRoots roots sel
      dep_graph_resolve_sat-unsatisfiable e h =
          subst Meaning h (dep_graph_resolve_sat-Meaning allocs)
