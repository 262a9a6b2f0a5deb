-- ===== src/SatResolve.antt =====
-- The SAT resolution of src/graph/sat.c: candidates, model, solver and selection together.
pub mod Candidacy
pub mod Selected
pub mod Right
use lib_apg.Base.{
  ℕ, suc, Bool, true, false, List, [], ◌∷◌, Option, none, some, if◌then◌else◌, Allocs, granted,
}
use lib_apg.Package.{Package}
use lib_apg.Candidates.{CandidateSet, candidate_set_init, candidate_set_add_package}
use lib_apg.Sat.Clause.{Value, yea, value}
use lib_apg.Sat.Solve.{SatResult, Message}
use lib_apg.Sat.Parallel.{Finish, sat_solve_parallel}
use lib_apg.SatModel.{
  SatModel, solver_model, sat_model_init, then_build, sat_model_build, sat_model_force,
}

-- `sat_solve_result_t` with `*out_selected` or `*out_conflict`. The last two are the model's own:
-- the search ran out of fuel, and the NULL name of a candidate was read.
pub data Resolution : Type 0 where
  selected : List Package → Resolution
  unsatisfiable : Option Message → Resolution
  budget_exceeded error stuck null_name : Resolution

-- `assignment[i + 1] == 1`. The assignment is NULL only without variables, and then not read.
unfoldable pub is_chosen : Option (List Value) → ℕ → Bool
is_chosen none i = false
is_chosen (some assignment) i = elim (value assignment (suc i)) [ yea ↦ true | _ ↦ false ]

-- The loops over the variables, from index i on.
unfoldable pub selected_from : Option (List Value) → ℕ → List Package → List Package
unfolding is_chosen
selected_from assignment i [] = []
selected_from assignment i (p ∷ vars) =
    let rest = selected_from assignment (suc i) vars in
    if is_chosen assignment i then p ∷ rest else rest

-- The array of the selection, which an empty one does not need.
unfoldable pub copy_selected : List Package → Allocs → Resolution
copy_selected [] allocs = selected []
copy_selected (p ∷ ps) allocs = if granted allocs then selected (p ∷ ps) else error

unfoldable pub map_result : List Package → Allocs → SatResult → Resolution
unfolding selected_from copy_selected
map_result vars allocs (SatResult.satisfiable assignment) =
    copy_selected (selected_from assignment 0 vars) allocs
map_result vars allocs (SatResult.unsatisfiable conflict) = unsatisfiable conflict
map_result vars allocs SatResult.budget_exceeded = budget_exceeded
map_result vars allocs SatResult.error = error
map_result vars allocs SatResult.stuck = stuck

-- The loop over the candidates; `none` is the NULL name.
unfoldable pub add_candidates :
    List Package → CandidateSet → Allocs → Option (Bool × CandidateSet × Allocs)
unfolding candidate_set_add_package
add_candidates [] cs allocs = some (true, cs, allocs)
add_candidates (pkg ∷ pkgs) cs allocs = elim pkg.name [
  | none ↦ none
  | some name ↦
      let (ok, cs', rest) = candidate_set_add_package cs name pkg allocs in
      elim ok [ true ↦ add_candidates pkgs cs' rest | false ↦ some (false, cs', rest) ]
]

-- The loop over the roots.
unfoldable pub force_roots : List Package → SatModel → Allocs → Bool × SatModel × Allocs
unfolding sat_model_force
force_roots [] m allocs = (true, m, allocs)
force_roots (root ∷ roots) m allocs =
    then_build (sat_model_force m root allocs) (λ m' rest. force_roots roots m' rest)

-- `finishes` are the workers of the solver in the order in which they end, and `after` the outcomes
-- of the allocations that come after it.
module _ (candidates roots : List Package) (budget thread_count : ℕ) (finishes : List Finish)
    (after : Allocs) where
  unfoldable pub solve_model : Bool × SatModel × Allocs → Resolution
  unfolding map_result sat_solve_parallel
  solve_model (false, m, allocs) = error
  solve_model (true, m, allocs) =
      map_result m.vars after
        (sat_solve_parallel (solver_model m) budget thread_count finishes allocs)

  unfoldable pub build_model : CandidateSet → Allocs → Bool × SatModel × Allocs
  unfolding sat_model_build force_roots sat_model_init
  build_model cs allocs =
      then_build (sat_model_build cs candidates sat_model_init allocs)
        (λ m rest. force_roots roots m rest)

  unfoldable pub resolve_added : Option (Bool × CandidateSet × Allocs) → Resolution
  unfolding solve_model build_model
  resolve_added none = null_name
  resolve_added (some (false, cs, allocs)) = error
  resolve_added (some (true, cs, allocs)) = solve_model (build_model cs allocs)

  unfoldable pub resolve_in : Option CandidateSet × Allocs → Resolution
  unfolding resolve_added add_candidates
  resolve_in (none, allocs) = error
  resolve_in (some cs, allocs) = resolve_added (add_candidates candidates cs allocs)

  unfoldable pub dep_graph_resolve_sat : Allocs → Resolution
  unfolding resolve_in candidate_set_init
  dep_graph_resolve_sat allocs = resolve_in (candidate_set_init allocs)
