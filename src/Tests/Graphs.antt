-- ===== src/Tests/Graphs.antt =====
-- Graphs and installation orders: src/graph/graph.c and src/graph/resolve.c.
use lib_apg.Base.{
  ℕ, zero, suc, ◌≡◌, refl, ◌≢◌, ◌⊎◌, ◌↔◌, ◌++◌, true, false, List, [], ◌∷◌, Option, none, some,
  get_elem?, length, replicate, grow,
}
use mathlib.Core.List.{Memᴰ}
use lib_apg.StrMap.{
  str_map_init, str_map_set, set_chain, insert_entry, replace_in, fnv1a, fnv1a_from, str_map_get,
}
use lib_apg.Chains.{push_entry, bucket_of, find_in}
use lib_apg.Version.{
  ver_satisfies, ver_compare, compare_epochs, split_epoch, after_colon, compare_loop, round_from,
  skip_dots, by_strtol, by_numbers, strtol, strtol_signed, strtol_digits, skip_spaces, digits,
}
use lib_apg.Version.Constraint.{dep_constraint_to_str, print_fields}
use lib_apg.CString.{CStr, str_eq}
use lib_apg.Package.{VerOp, any, ge, DepConstraint, Package}
use lib_apg.Graph.{
  ok, cycle, missing, version, Node, DepGraph, dep_graph_new, dep_graph_find, dep_graph_lookup,
  add_node, new_node, map_node, add_provides, add_replaces, add_alias, new_group, map_group,
  push_provider, find_pref, lookup_alias, with_maps,
}
use lib_apg.Graph.Valid.{IsValid}
use lib_apg.Graph.Add.{add_node-IsValid, add_node-new, dep_graph_new_lem}
use lib_apg.Resolve.{
  ordered, refused, stuck, deps_of, dep_graph_resolve, dfs, visit_node, visit_deps, is_rejected,
  finish, names_of,
}
use lib_apg.Resolve.Paths.{HasCycle, HasMissing, HasMismatch}
use lib_apg.Resolve.Runs.{
  ResolveTask, dep_graph_resolve_parallel, run_tasks, all_orders, merge_all, merge_seen,
  merge_orders, merge_order, merge_name, take_name, dep_graph_has_cycle, cycle_from,
}
use lib_apg.Resolve.Union.{Union, dep_graph_resolve_parallel-ordered}
use lib_apg.Resolve.Complete.{dep_graph_resolve_complete}
use lib_apg.Conflict.{
  looked_up, breaks, dep_graph_find_breaks, find_breaks_of, collect, is_broken, clashes,
  contains_any, str_list_contains,
}
use lib_apg.Conflict.Breaks.{Broken, dep_graph_find_breaks_lem}
use lib_apg.Resolve.Order.{
  OrderedFrom, dep_graph_resolve-ordered, dep_graph_resolve-cycle, dep_graph_resolve-missing,
  dep_graph_resolve-version, dep_graph_resolve_terminates, dep_graph_resolve_succeeds,
}

abbrev named : CStr → CStr → List DepConstraint → Package
named name ver deps = record {
  addr = 8;
  name = some name;
  version = some ver;
  dependencies = deps;
  conflicts = [];
  provides = [];
  replaces = [];
}

abbrev a_name : CStr
a_name = b'a' ∷ []

abbrev b_name : CStr
b_name = b'b' ∷ []

abbrev two : CStr
two = b'2' ∷ []

abbrev three : CStr
three = b'3' ∷ []

abbrev needs : CStr → VerOp → Option CStr → List DepConstraint
needs name op ver = record { name = name; op = op; version = ver } ∷ []

abbrev empty : DepGraph
empty = record {
  nodes = [];
  cap = 16;
  node_map = record { buckets = replicate 16 []; entry_count = 0 };
  alias_groups = [];
  alias_group_cap = 0;
  alias_map = record { buckets = replicate 16 []; entry_count = 0 };
  prefs = [];
  pref_cap = 0;
}

empty_made : (dep_graph_new []).0 ≡ some empty
unfolding dep_graph_new str_map_init with_maps
empty_made = refl

empty-IsValid : IsValid empty
empty-IsValid = (dep_graph_new_lem [] empty empty_made).0

-- A graph with b, and one with a on top of it.
abbrev with_b : List DepConstraint → DepGraph
with_b deps = (add_node empty (named b_name two deps) false []).1

abbrev with_a : List DepConstraint → List DepConstraint → DepGraph
with_a a_deps b_deps = (add_node (with_b b_deps) (named a_name three a_deps) true []).1

with_b-IsValid : (deps : List DepConstraint) → IsValid (with_b deps)
with_b-IsValid deps = add_node-IsValid empty (named b_name two deps) false [] empty-IsValid

with_a-IsValid : (a_deps b_deps : List DepConstraint) → IsValid (with_a a_deps b_deps)
with_a-IsValid a_deps b_deps =
    add_node-IsValid (with_b b_deps) (named a_name three a_deps) true [] (with_b-IsValid b_deps)

-- a needs b >= 2.
abbrev chained : DepGraph
chained = with_a (needs b_name ge (some two)) []

abbrev loop : DepGraph
loop = with_a (needs b_name any none) (needs a_name any none)

abbrev unmet : DepGraph
unmet = with_a (needs three any none) []

abbrev mismatched : DepGraph
mismatched = with_a (needs b_name ge (some three)) []

abbrev b_node : Node
b_node = record { name = b_name; pkg = named b_name two []; installed = false }

-- The runs at these graphs.
runs :
    (dep_graph_resolve chained a_name [] ≡ ordered (b_name ∷ a_name ∷ []))
    × (dep_graph_resolve (with_a (needs b_name any none) (needs a_name any none)) a_name []
        ≡ refused cycle)
    × (dep_graph_resolve (with_a (needs three any none) []) a_name [] ≡ refused missing)
    × (dep_graph_resolve (with_a (needs b_name ge (some three)) []) a_name [] ≡ refused version)
    × (dep_graph_find (with_b []) b_name ≡ some 0)
    × (dep_graph_lookup chained a_name ≡ some 1)
    × (dep_graph_find empty b_name ≡ none)
    × ((add_node empty (named b_name two []) true []).0 ≡ ok)
    × (get_elem? (with_b []).nodes 0 ≡ some b_node)
    × (dep_graph_lookup (with_b []) b_name ≡ some 0)
unfolding dep_graph_resolve add_node new_node map_node add_provides add_replaces grow str_map_set
    set_chain insert_entry push_entry replace_in bucket_of fnv1a fnv1a_from str_eq find_in
    str_map_get dep_graph_lookup find_pref lookup_alias dfs visit_node visit_deps is_rejected
    ver_satisfies ver_compare compare_epochs split_epoch after_colon compare_loop round_from finish
    names_of dep_constraint_to_str print_fields skip_dots by_strtol by_numbers strtol strtol_signed
    strtol_digits skip_spaces digits
runs = (refl, refl, refl, refl, refl, refl, refl, refl, refl, refl)

add_node-IsValid_example :
    IsValid (add_node empty (named b_name two []) false (true ∷ false ∷ [])).1
add_node-IsValid_example =
    add_node-IsValid empty (named b_name two []) false (true ∷ false ∷ []) empty-IsValid

add_node-new_example :
    ((add_node empty (named b_name two []) true []).1.nodes
      ≡ empty.nodes ++ (record { name = b_name; pkg = named b_name two []; installed = true } ∷ []))
    × (dep_graph_find (add_node empty (named b_name two []) true []).1 b_name
        ≡ some (length empty.nodes))
add_node-new_example =
    add_node-new empty (named b_name two []) true [] empty-IsValid b_name refl runs.6 runs.7

dep_graph_resolve-ordered_example :
    (root : ℕ) × OrderedFrom chained a_name root (b_name ∷ a_name ∷ [])
dep_graph_resolve-ordered_example =
    dep_graph_resolve-ordered chained (with_a-IsValid (needs b_name ge (some two)) []) a_name []
      (b_name ∷ a_name ∷ []) runs.0

dep_graph_resolve-cycle_example :
    (root : ℕ) × (dep_graph_lookup loop a_name ≡ some root) × HasCycle loop root
dep_graph_resolve-cycle_example =
    dep_graph_resolve-cycle loop (with_a-IsValid (needs b_name any none) (needs a_name any none))
      a_name [] runs.1

dep_graph_resolve-missing_example :
    (dep_graph_lookup unmet a_name ≡ none)
    ⊎ ((root : ℕ) × (dep_graph_lookup unmet a_name ≡ some root) × HasMissing unmet root)
dep_graph_resolve-missing_example =
    dep_graph_resolve-missing unmet (with_a-IsValid (needs three any none) []) a_name [] runs.2

dep_graph_resolve-version_example :
    (root : ℕ) × (dep_graph_lookup mismatched a_name ≡ some root) × HasMismatch mismatched root
dep_graph_resolve-version_example =
    dep_graph_resolve-version mismatched (with_a-IsValid (needs b_name ge (some three)) []) a_name
      [] runs.3

dep_graph_resolve_terminates_example : dep_graph_resolve loop a_name (true ∷ false ∷ []) ≢ stuck
dep_graph_resolve_terminates_example =
    dep_graph_resolve_terminates loop
      (with_a-IsValid (needs b_name any none) (needs a_name any none)) a_name (true ∷ false ∷ [])

-- Without dependencies nothing is wrong.
no_deps : (i : ℕ) (d : DepConstraint) → ¬ Memᴰ d (deps_of (with_b []) i)
unfolding dep_graph_resolve add_node new_node map_node add_provides add_replaces grow str_map_set
    set_chain insert_entry push_entry replace_in bucket_of fnv1a fnv1a_from str_eq find_in
    str_map_get dep_graph_lookup find_pref lookup_alias dfs visit_node visit_deps is_rejected
    ver_satisfies ver_compare compare_epochs split_epoch after_colon compare_loop round_from finish
    names_of dep_constraint_to_str print_fields skip_dots by_strtol by_numbers strtol strtol_signed
    strtol_digits skip_spaces digits
no_deps zero d m = elim m [ ]
no_deps (suc i) d m = elim m [ ]

no_cycle : ¬ HasCycle (with_b []) 0
no_cycle (i, r, (j, s, (d, m, e))) = no_deps j d m

no_missing : ¬ HasMissing (with_b []) 0
no_missing (i, d, r, m, e) = no_deps i d m

no_mismatch : ¬ HasMismatch (with_b []) 0
no_mismatch (i, d, k, r, m, e, q) = no_deps i d m

dep_graph_resolve_succeeds_example :
    (names : List CStr) × (dep_graph_resolve (with_b []) b_name [] ≡ ordered names)
dep_graph_resolve_succeeds_example =
    dep_graph_resolve_succeeds (with_b []) (with_b-IsValid []) b_name 0 runs.9 no_cycle no_missing
      no_mismatch

dep_graph_resolve_complete_example :
    (¬ HasCycle chained 1) × (¬ HasMissing chained 1) × (¬ HasMismatch chained 1)
dep_graph_resolve_complete_example =
    dep_graph_resolve_complete chained (with_a-IsValid (needs b_name ge (some two)) []) a_name []
      (b_name ∷ a_name ∷ []) 1 runs.0 runs.5

-- a provides the name that c conflicts with.
abbrev c_name : CStr
c_name = b'c' ∷ []

abbrev c_package : Package
c_package = record (named c_name two []) { conflicts = three ∷ [] }

abbrev provider : Package
provider = record (named a_name two []) { provides = three ∷ [] }

abbrev broken_graph : DepGraph
broken_graph = (add_node (add_node empty provider true []).1 c_package false []).1

c_looked_up : looked_up broken_graph c_name ≡ some c_package
unfolding add_node new_node map_node add_provides add_replaces add_alias new_group map_group
    push_provider grow str_map_set set_chain insert_entry push_entry replace_in bucket_of fnv1a
    fnv1a_from str_eq find_in str_map_get dep_graph_lookup find_pref lookup_alias
c_looked_up = refl

dep_graph_find_breaks_lem_example :
    (names : List CStr) × (dep_graph_find_breaks broken_graph c_name (a_name ∷ b_name ∷ []) []
      ≡ breaks names)
    × ((name : CStr)
        → Memᴰ name names ↔ (Memᴰ name (a_name ∷ b_name ∷ []) × Broken broken_graph c_package name))
dep_graph_find_breaks_lem_example =
    dep_graph_find_breaks_lem broken_graph c_name c_package (a_name ∷ b_name ∷ []) c_looked_up

a_broken :
    dep_graph_find_breaks broken_graph c_name (a_name ∷ b_name ∷ []) [] ≡ breaks (a_name ∷ [])
unfolding dep_graph_find_breaks find_breaks_of collect is_broken clashes contains_any
    str_list_contains add_node new_node map_node add_provides add_replaces add_alias new_group
    map_group push_provider grow str_map_set set_chain insert_entry push_entry replace_in bucket_of
    fnv1a fnv1a_from str_eq find_in str_map_get dep_graph_lookup find_pref lookup_alias
a_broken = refl

-- The package and its dependency, resolved side by side.
abbrev two_tasks : List ResolveTask
two_tasks =
    record { pkg_name = a_name; allocs = [] } ∷ record { pkg_name = b_name; allocs = [] } ∷ []

-- b needs a missing package, and a needs b: there is no cycle, but one is reported.
abbrev half_broken : DepGraph
half_broken = with_a (needs b_name any none) (needs three any none)

whole_graph_runs :
    (dep_graph_resolve_parallel chained two_tasks [] ≡ ordered (b_name ∷ a_name ∷ []))
    × (dep_graph_has_cycle half_broken [] ≡ some true)
    × (dep_graph_has_cycle chained [] ≡ some false)
unfolding dep_graph_has_cycle cycle_from dep_graph_resolve_parallel run_tasks all_orders merge_all
    merge_seen merge_orders merge_order merge_name take_name str_map_init dep_graph_resolve add_node
    new_node map_node add_provides add_replaces grow str_map_set set_chain insert_entry push_entry
    replace_in bucket_of fnv1a fnv1a_from str_eq find_in str_map_get dep_graph_lookup find_pref
    lookup_alias dfs visit_node visit_deps is_rejected ver_satisfies ver_compare compare_epochs
    split_epoch after_colon compare_loop round_from finish names_of dep_constraint_to_str
    print_fields skip_dots by_strtol by_numbers strtol strtol_signed strtol_digits skip_spaces
    digits
whole_graph_runs = (refl, refl, refl)

dep_graph_resolve_parallel-ordered_example :
    Union (run_tasks chained two_tasks) (b_name ∷ a_name ∷ [])
dep_graph_resolve_parallel-ordered_example =
    dep_graph_resolve_parallel-ordered chained (record { pkg_name = a_name; allocs = [] })
      (record { pkg_name = b_name; allocs = [] }) [] [] (b_name ∷ a_name ∷ []) whole_graph_runs.0
