-- ===== src/Resolve/Runs.antt =====
-- `dep_graph_resolve_parallel` and `dep_graph_has_cycle` of src/graph/resolve.c.
use lib_apg.Base.{
  ℕ, zero, suc, Bool, true, false, ◌&&◌, List, [], ◌∷◌, ◌++◌, Option, none, some, length, ◌==◌,
  if◌then◌else◌, Allocs, granted, later,
}
use lib_apg.CString.{CStr}
use lib_apg.StrMap.{StrMap, str_map_init, str_map_get, str_map_set}
use lib_apg.Graph.{DepError, nomem, cycle, DepGraph}
use lib_apg.Resolve.{
  unvisited, visiting, visited, Dfs, mark_at, dfs, start, Resolved, ordered, refused, stuck,
  dep_graph_resolve,
}

-- A package to resolve, and the outcomes of the allocations of its thread.
pub record ResolveTask : Type 0 where
  pub pkg_name : CStr
  pub allocs : Allocs

-- The orders of all tasks, or the first of them, by position, that is not an order.
unfoldable pub all_orders : List Resolved → (List (List CStr)) × Option Resolved
all_orders [] = ([], none)
all_orders (ordered names ∷ rs) = let (orders, failed) = all_orders rs in (names ∷ orders, failed)
all_orders (refused e ∷ rs) = ([], some (refused e))
all_orders (stuck ∷ rs) = ([], some stuck)

-- What the loops over the orders carry: `seen` and `merged`.
pub record Merge : Type 0 where
  pub seen : StrMap
  pub merged : List CStr

-- After `str_map_set` of a name that is new.
unfoldable pub take_name : Merge → CStr → Bool × StrMap × Allocs → Option Merge × Allocs
take_name t name (true, seen, allocs) =
    (some (record { seen = seen; merged = t.merged ++ (name ∷ []) }), allocs)
take_name t name (false, seen, allocs) = (none, allocs)

unfoldable pub merge_name : Merge → CStr → Allocs → Option Merge × Allocs
unfolding take_name
merge_name t name allocs = elim (str_map_get t.seen name) [
  | some _ ↦ (some t, allocs)
  | none ↦ take_name t name (str_map_set t.seen name 1 allocs)
]

abbrev pub then_merge :
    Option Merge × Allocs → (Merge → Allocs → Option Merge × Allocs) → Option Merge × Allocs
then_merge (none, allocs) next = (none, allocs)
then_merge (some t, allocs) next = next t allocs

-- The inner loop, and the outer one.
unfoldable pub merge_order : List CStr → Merge → Allocs → Option Merge × Allocs
unfolding merge_name
merge_order [] t allocs = (some t, allocs)
merge_order (name ∷ names) t allocs =
    then_merge (merge_name t name allocs) (λ t' rest. merge_order names t' rest)

unfoldable pub merge_orders : List (List CStr) → Merge → Allocs → Option Merge × Allocs
unfolding merge_order
merge_orders [] t allocs = (some t, allocs)
merge_orders (names ∷ orders) t allocs =
    then_merge (merge_order names t allocs) (λ t' rest. merge_orders orders t' rest)

abbrev pub merged_result : Option Merge × Allocs → Resolved
merged_result (none, allocs) = refused nomem
merged_result (some t, allocs) = ordered t.merged

unfoldable pub merge_seen : List (List CStr) → Option StrMap × Allocs → Resolved
unfolding merge_orders
merge_seen orders (none, allocs) = refused nomem
merge_seen orders (some seen, allocs) =
    merged_result (merge_orders orders (record { seen = seen; merged = [] }) allocs)

unfoldable pub merge_all : (List (List CStr)) × Option Resolved → Allocs → Resolved
unfolding merge_seen
merge_all (orders, some failed) allocs = failed
merge_all (orders, none) allocs =
    if granted allocs then merge_seen orders (str_map_init (later allocs)) else refused nomem

module _ (g : DepGraph) where
  -- The order of the threads does not matter: each writes only its own task, and a task whose
  -- thread could not be created is run in place.
  unfoldable pub run_tasks : List ResolveTask → List Resolved
  run_tasks [] = []
  run_tasks (t ∷ ts) = dep_graph_resolve g t.pkg_name t.allocs ∷ run_tasks ts

  unfoldable pub dep_graph_resolve_parallel : List ResolveTask → Allocs → Resolved
  unfolding all_orders merge_all run_tasks
  dep_graph_resolve_parallel [] allocs = ordered []
  dep_graph_resolve_parallel (t ∷ []) allocs = dep_graph_resolve g t.pkg_name t.allocs
  dep_graph_resolve_parallel (t ∷ u ∷ ts) allocs =
      if granted allocs && granted (later allocs)
      then merge_all (all_orders (run_tasks (t ∷ u ∷ ts))) (later (later allocs))
      else refused nomem

  -- `dfs(&ctx, i) == DEP_ERR_CYCLE`; any other error is passed over, with the marks that it leaves.
  -- `none` is the model's own: a search ran out of fuel.
  abbrev pub unless_cycle : Option DepError × Dfs → (Dfs → Option Bool) → Option Bool
  unless_cycle (none, c) next = none
  unless_cycle (some cycle, c) next = some true
  unless_cycle (some e, c) next = next c

  -- The loop over the `n` nodes from i on.
  unfoldable pub cycle_from : ℕ → ℕ → Dfs → Option Bool
  cycle_from zero i c = some false
  cycle_from (suc n) i c = elim (mark_at c i) [
    | unvisited ↦ unless_cycle (dfs g (suc (length g.nodes)) i c) (λ c'. cycle_from n (suc i) c')
    | visiting ↦ cycle_from n (suc i) c
    | visited ↦ cycle_from n (suc i) c
  ]

  unfoldable pub dep_graph_has_cycle : Allocs → Option Bool
  unfolding cycle_from
  dep_graph_has_cycle allocs =
      if length g.nodes == 0
      then some false
      else if granted allocs && granted (later allocs)
      then cycle_from (length g.nodes) 0 (start g)
      else some false
