-- ===== src/Resolve.antt =====
-- The topological resolver of src/graph/resolve.c.
pub mod Runs
pub mod Merge
pub mod Union
pub mod Paths
pub mod Post
pub mod Search
pub mod Order
pub mod Complete
use lib_apg.Base.{
  ℕ, zero, suc, Bool, true, false, not, ◌&&◌, List, [], ◌∷◌, ◌++◌, Option, none, some, get_elem?,
  get_or, set, replicate, length, ◌==◌, if◌then◌else◌, Allocs, granted, later,
}
use lib_apg.CString.{CStr}
use lib_apg.Package.{is_any, DepConstraint, Package}
use lib_apg.Version.{ver_satisfies}
use lib_apg.Version.Constraint.{dep_constraint_to_str}
use lib_apg.StrMap.{StrMap, str_map_init, str_map_get, str_map_set}
use lib_apg.Graph.{DepError, ok, nomem, cycle, missing, version, Node, DepGraph, dep_graph_lookup}

-- STATE_UNVISITED, STATE_VISITING and STATE_VISITED.
pub data Mark : Type 0 where
  unvisited visiting visited : Mark

-- The texts of `apg_set_error`.
pub data Complaint : Type 0 where
  unavailable : Option CStr → CStr → Complaint
  unsatisfied : Option CStr → CStr → Option CStr → Option CStr → Complaint

-- `struct dfs_ctx`: the filled part of `order`, its last entry first, and the text of the last
-- error.
pub record Dfs : Type 0 where
  pub state : List Mark
  pub order : List ℕ
  pub last_error : Option Complaint

abbrev pub mark_at : Dfs → ℕ → Mark
mark_at c i = get_or c.state i visited

abbrev pub mark : ℕ → Mark → Dfs → Dfs
mark i x c = record c { state = set c.state i x }

abbrev pub complain : Complaint → Dfs → Dfs
complain t c = record c { last_error = some t }

-- `want ? want : c->name`
abbrev pub want : DepConstraint → CStr
want d = elim (dep_constraint_to_str (some d)) [ none ↦ d.name | some t ↦ t ]

-- The order of names, or an error code; the last one is the model's own, the search ran out of
-- fuel.
pub data Resolved : Type 0 where
  ordered : List CStr → Resolved
  refused : DepError → Resolved
  stuck : Resolved

module _ (g : DepGraph) where
  -- Fields of `g->nodes[i]->pkg`.
  abbrev pub deps_of : ℕ → List DepConstraint
  deps_of i = elim (get_elem? g.nodes i) [ none ↦ [] | some n ↦ n.pkg.dependencies ]

  abbrev pub pkg_name_of : ℕ → Option CStr
  pkg_name_of i = elim (get_elem? g.nodes i) [ none ↦ none | some n ↦ n.pkg.name ]

  abbrev pub version_of : ℕ → Option CStr
  version_of i = elim (get_elem? g.nodes i) [ none ↦ none | some n ↦ n.pkg.version ]

  -- The version check on dependency d, which node k answers.
  unfoldable pub is_rejected : DepConstraint → ℕ → Bool
  is_rejected d k = not (is_any d.op) && not (ver_satisfies (version_of k) d.op d.version)

  -- The first component is `none` if the search runs out of fuel.
  abbrev pub then_next :
      Option DepError × Dfs → (Dfs → Option DepError × Dfs) → Option DepError × Dfs
  then_next (some ok, c) next = next c
  then_next (e, c) next = (e, c)

  -- The loop over the dependencies of node i; `rec` is the recursive call of `dfs`.
  unfoldable pub visit_deps :
      (ℕ → Dfs → Option DepError × Dfs) → ℕ → List DepConstraint → Dfs → Option DepError × Dfs
  visit_deps rec i [] c = (some ok, c)
  visit_deps rec i (d ∷ ds) c = elim (dep_graph_lookup g d.name) [
    | none ↦ (some missing, complain (unavailable (pkg_name_of i) (want d)) c)
    | some k ↦ elim (is_rejected d k) [
      | true ↦ (
        some version,
        complain (unsatisfied (pkg_name_of i) (want d) (pkg_name_of k) (version_of k)) c,
      )
      | false ↦ then_next (rec k c) (λ c'. visit_deps rec i ds c')
    ]
  ]

  unfoldable pub visit_node : (ℕ → Dfs → Option DepError × Dfs) → ℕ → Dfs → Option DepError × Dfs
  unfolding visit_deps
  visit_node rec i c = elim (mark_at c i) [
    | visited ↦ (some ok, c)
    | visiting ↦ (some cycle, c)
    | unvisited ↦
        then_next (visit_deps rec i (deps_of i) (mark i visiting c))
          (λ c'. (some ok, record c' { state = set c'.state i visited; order = i ∷ c'.order }))
  ]

  unfoldable pub dfs : ℕ → ℕ → Dfs → Option DepError × Dfs
  unfolding visit_node
  dfs zero i c = (none, c)
  dfs (suc fuel) i c = visit_node (λ k c'. dfs fuel k c') i c

  abbrev pub start : Dfs
  start = record { state = replicate (length g.nodes) unvisited; order = []; last_error = none }

  -- `g->nodes[i]->name`
  abbrev pub name_at : ℕ → CStr
  name_at i = elim (get_elem? g.nodes i) [ none ↦ [] | some n ↦ n.name ]

  -- The names of the order, whose last entry comes first.
  unfoldable pub names_of : List ℕ → List CStr
  names_of [] = []
  names_of (i ∷ is) = names_of is ++ (name_at i ∷ [])

  unfoldable pub finish : Allocs → Option DepError × Dfs → Resolved
  unfolding names_of
  finish allocs (none, c) = stuck
  finish allocs (some ok, c) = if granted allocs then ordered (names_of c.order) else refused nomem
  finish allocs (some e, c) = refused e

  -- Fuel: a call below another one has one unvisited node less.
  unfoldable pub dep_graph_resolve : CStr → Allocs → Resolved
  unfolding finish dfs
  dep_graph_resolve pkg_name allocs = elim (dep_graph_lookup g pkg_name) [
    | none ↦ refused missing
    | some root ↦
        if granted allocs && granted (later allocs)
        then finish (later (later allocs)) (dfs (suc (length g.nodes)) root start)
        else refused nomem
  ]
