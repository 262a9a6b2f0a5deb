-- ===== src/Graph.antt =====
-- The dependency graph of src/graph/graph_priv.h and src/graph/graph.c.
pub mod Prefer
pub mod Valid
pub mod Groups
pub mod Aliases
pub mod Nodes
pub mod Add
use lib_apg.Base.{
  ℕ, zero, suc, ◌+◌, Bool, true, false, ◌&&◌, List, [], ◌∷◌, ◌++◌, Option, none, some, get_elem?,
  set, length, ◌==◌, if◌then◌else◌, Allocs, granted, later, grow,
}
use lib_apg.CString.{CStr, str_eq}
use lib_apg.StrMap.{StrMap, str_map_init, str_map_get, str_map_set}
use lib_apg.Package.{Package}

pub data DepError : Type 0 where
  ok nomem cycle missing conflict version : DepError

pub record Node : Type 0 where
  pub name : CStr
  pub pkg : Package
  pub installed : Bool

pub record AliasGroup : Type 0 where
  pub alias : CStr
  pub providers : List ℕ
  pub cap : ℕ

pub record Pref : Type 0 where
  pub alias : CStr
  pub pkg_name : CStr

-- The counts are the lengths of the lists; the capacities decide when the arrays grow.
pub record DepGraph : Type 0 where
  pub nodes : List Node
  pub cap : ℕ
  pub node_map : StrMap
  pub alias_groups : List AliasGroup
  pub alias_group_cap : ℕ
  pub alias_map : StrMap
  pub prefs : List Pref
  pub pref_cap : ℕ

-- `str_map_init` of the second map, after the graph, its nodes and the first map.
unfoldable pub with_maps : Option StrMap × Allocs → Option DepGraph × Allocs
with_maps (none, allocs) = (none, allocs)
with_maps (some node_map, allocs) =
    let (made, rest) = str_map_init allocs in
    elim made [
      | none ↦ (none, rest)
      | some alias_map ↦ (
        some (record {
          nodes = [];
          cap = 16;
          node_map = node_map;
          alias_groups = [];
          alias_group_cap = 0;
          alias_map = alias_map;
          prefs = [];
          pref_cap = 0;
        }),
        rest,
      )
    ]

unfoldable pub dep_graph_new : Allocs → Option DepGraph × Allocs
unfolding with_maps
dep_graph_new allocs =
    if granted allocs
    then if granted (later allocs)
      then with_maps (str_map_init (later (later allocs)))
      else (none, later (later allocs))
    else (none, later allocs)

-- `none` is SIZE_MAX.
abbrev pub dep_graph_find : DepGraph → CStr → Option ℕ
dep_graph_find g name = str_map_get g.node_map name

-- The loop over `prefs`: the first preference for the name decides.
unfoldable pub find_pref : DepGraph → List Pref → CStr → Option ℕ
find_pref g [] name = none
find_pref g (p ∷ ps) name =
    if str_eq p.alias name then dep_graph_find g p.pkg_name else find_pref g ps name

-- `g->nodes[i]->installed`
abbrev pub installed_at : DepGraph → ℕ → Bool
installed_at g i = elim (get_elem? g.nodes i) [ none ↦ false | some n ↦ n.installed ]

-- The loop over `providers`, with `first_match`.
unfoldable pub pick_provider : DepGraph → List ℕ → Option ℕ → Option ℕ
pick_provider g [] first_match = first_match
pick_provider g (i ∷ is) first_match = elim (installed_at g i) [
  | true ↦ some i
  | false ↦ pick_provider g is (elim first_match [ none ↦ some i | some f ↦ some f ])
]

unfoldable pub lookup_alias : DepGraph → CStr → Option ℕ
unfolding pick_provider
lookup_alias g name = elim (str_map_get g.alias_map name) [
  | none ↦ none
  | some k ↦ elim (get_elem? g.alias_groups k) [
    | none ↦ none
    | some group ↦ pick_provider g group.providers none
  ]
]

unfoldable pub dep_graph_lookup : DepGraph → CStr → Option ℕ
unfolding find_pref lookup_alias
dep_graph_lookup g name = elim (dep_graph_find g name) [
  | some i ↦ some i
  | none ↦ elim (find_pref g g.prefs name) [ some i ↦ some i | none ↦ lookup_alias g name ]
]

-- The end of `add_alias`: one more provider in group k.
unfoldable pub push_provider : DepGraph → ℕ → ℕ → Allocs → DepError × DepGraph × Allocs
push_provider g k i allocs = elim (get_elem? g.alias_groups k) [
  | none ↦ (nomem, g, allocs)
  | some group ↦
      let (room, rest) = grow (length group.providers) group.cap 2 allocs in
      elim room [
        | none ↦ (nomem, g, rest)
        | some cap ↦ (
          ok,
          record g {
            alias_groups =
                set g.alias_groups k
                  (record group { providers = group.providers ++ (i ∷ []); cap = cap });
          },
          rest,
        )
      ]
]

-- The new group of `add_alias`, once its name is copied; it is dropped if the map cannot take it.
unfoldable pub map_group :
    DepGraph → CStr → ℕ → Bool × StrMap × Allocs → DepError × DepGraph × Allocs
unfolding push_provider
map_group g alias i (true, alias_map, allocs) =
    push_provider
      (record g {
        alias_groups = g.alias_groups ++ (record { alias = alias; providers = []; cap = 0 } ∷ []);
        alias_map = alias_map;
      })
      (length g.alias_groups) i allocs
map_group g alias i (false, alias_map, allocs) = (nomem, record g { alias_map = alias_map }, allocs)

unfoldable pub new_group : DepGraph → CStr → ℕ → Option ℕ × Allocs → DepError × DepGraph × Allocs
unfolding map_group
new_group g alias i (none, allocs) = (nomem, g, allocs)
new_group g alias i (some cap, allocs) =
    let g' = record g { alias_group_cap = cap } in
    if granted allocs
    then map_group g' alias i (str_map_set g.alias_map alias (length g.alias_groups) (later allocs))
    else (nomem, g', later allocs)

unfoldable pub add_alias : DepGraph → CStr → ℕ → Allocs → DepError × DepGraph × Allocs
unfolding new_group
add_alias g alias i allocs = elim (str_map_get g.alias_map alias) [
  | some k ↦ push_provider g k i allocs
  | none ↦ new_group g alias i (grow (length g.alias_groups) g.alias_group_cap 16 allocs)
]

-- The loop of `add_node` over `provides`.
abbrev pub then_ok :
    DepError × DepGraph × Allocs
    → (DepGraph → Allocs → DepError × DepGraph × Allocs)
    → DepError × DepGraph × Allocs
then_ok (ok, g, allocs) f = f g allocs
then_ok (e, g, allocs) f = (e, g, allocs)

unfoldable pub add_provides : ℕ → List CStr → DepGraph → Allocs → DepError × DepGraph × Allocs
add_provides i [] g allocs = (ok, g, allocs)
add_provides i (a ∷ aliases) g allocs =
    then_ok (add_alias g a i allocs) (λ g' rest. add_provides i aliases g' rest)

-- The loop over `replaces`: an alias only if no node has that name yet.
unfoldable pub add_replaces : ℕ → List CStr → DepGraph → Allocs → DepError × DepGraph × Allocs
add_replaces i [] g allocs = (ok, g, allocs)
add_replaces i (a ∷ aliases) g allocs = elim (dep_graph_find g a) [
  | some _ ↦ add_replaces i aliases g allocs
  | none ↦ then_ok (add_alias g a i allocs) (λ g' rest. add_replaces i aliases g' rest)
]

-- The node is in the array, and goes again if the map cannot take its name.
unfoldable pub map_node : DepGraph → Node → Bool × StrMap × Allocs → DepError × DepGraph × Allocs
unfolding add_provides add_replaces
map_node g node (false, node_map, allocs) = (nomem, record g { node_map = node_map }, allocs)
map_node g node (true, node_map, allocs) =
    let g' = record g { nodes = g.nodes ++ (node ∷ []); node_map = node_map } in
    then_ok (add_provides (length g.nodes) node.pkg.provides g' allocs)
      (λ g'' rest. add_replaces (length g.nodes) node.pkg.replaces g'' rest)

unfoldable pub new_node :
    DepGraph → Package → CStr → Bool → Option ℕ × Allocs → DepError × DepGraph × Allocs
unfolding map_node
new_node g pkg name installed (none, allocs) = (nomem, g, allocs)
new_node g pkg name installed (some cap, allocs) =
    let g' = record g { cap = cap } in
    if granted allocs
    then if granted (later allocs)
      then map_node g' (record { name = name; pkg = pkg; installed = installed })
          (str_map_set g.node_map name (length g.nodes) (later (later allocs)))
      else (nomem, g', later (later allocs))
    else (nomem, g', later allocs)

-- `if (installed) g->nodes[i]->installed = true;`
unfoldable pub mark_installed : DepGraph → ℕ → Bool → DepGraph
mark_installed g i false = g
mark_installed g i true = elim (get_elem? g.nodes i) [
  | none ↦ g
  | some n ↦ record g { nodes = set g.nodes i (record n { installed = true }) }
]

unfoldable pub add_node : DepGraph → Package → Bool → Allocs → DepError × DepGraph × Allocs
unfolding new_node mark_installed
add_node g pkg installed allocs = elim pkg.name [
  | none ↦ (nomem, g, allocs)
  | some name ↦ elim (dep_graph_find g name) [
    | some i ↦ (ok, mark_installed g i installed, allocs)
    | none ↦ new_node g pkg name installed (grow (length g.nodes) g.cap 16 allocs)
  ]
]

unfoldable pub dep_graph_add : DepGraph → Package → Allocs → DepError × DepGraph × Allocs
unfolding add_node
dep_graph_add g pkg allocs = add_node g pkg false allocs

unfoldable pub dep_graph_add_installed : DepGraph → Package → Allocs → DepError × DepGraph × Allocs
unfolding add_node
dep_graph_add_installed g pkg allocs = add_node g pkg true allocs
