-- ===== src/Graph/Add.antt =====
-- `dep_graph_new`, `dep_graph_add` and `dep_graph_add_installed` of src/graph/graph.c keep the
-- invariant of the graph, and add the node.
use lib_apg.Base.{
  ℕ, ◌≡◌, refl, ap, sym, ◌∙◌, Bool, [], ◌∷◌, ◌++◌, Option, none, some, get_elem?, length,
  get_elem?-append_last, if_rule, subst, Allocs, granted, later, grow,
}
use mathlib.Core.Option.{some-injective}
use lib_apg.CString.{CStr}
use lib_apg.Package.{Package}
use lib_apg.StrMap.{StrMap, str_map_get, str_map_init}
use lib_apg.StrMap.Insert.{IsValid as MapIsValid}
use lib_apg.StrMap.Laws.{str_map_init_lem}
use lib_apg.Graph.{
  dep_graph_lookup, lookup_alias, find_pref, DepError, ok, nomem, DepGraph, Node, AliasGroup,
  dep_graph_find, new_node, mark_installed, add_node, dep_graph_new, with_maps,
}
use lib_apg.Graph.Valid.{IsValid}
use lib_apg.Graph.Nodes.{new_node-NewPost, mark_installed-MarkPost}

module _ (g : DepGraph) (pkg : Package) (installed : Bool) (allocs : Allocs) (h : IsValid g) where
  -- Adding a package keeps a valid graph valid, also if an allocation fails on the way.
  pub add_node-IsValid : IsValid (add_node g pkg installed allocs).1
  unfolding add_node
  add_node-IsValid = by_name pkg.name
    where
      Result : Type 0
      Result = DepError × DepGraph × Allocs

      by_found :
          (name : CStr) (o : Option ℕ)
          → dep_graph_find g name ≡ o
          → IsValid
              (elim o as (λ _. DepError × DepGraph × Allocs) [
                | some i ↦ (ok, mark_installed g i installed, allocs)
                | none ↦ new_node g pkg name installed (grow (length g.nodes) g.cap 16 allocs)
              ]).1
      by_found name (some i) e = (mark_installed-MarkPost g i installed h).valid
      by_found name none e =
          (new_node-NewPost g pkg name installed (grow (length g.nodes) g.cap 16 allocs) h e).valid

      by_name :
          (o : Option CStr)
          → IsValid
              (elim o as (λ _. DepError × DepGraph × Allocs) [
                | none ↦ (nomem, g, allocs)
                | some name ↦ elim (dep_graph_find g name) as (λ _. DepError × DepGraph × Allocs) [
                  | some i ↦ (ok, mark_installed g i installed, allocs)
                  | none ↦ new_node g pkg name installed (grow (length g.nodes) g.cap 16 allocs)
                ]
              ]).1
      by_name none = h
      by_name (some name) = by_found name (dep_graph_find g name) refl

  -- A package with a new name that is added to a valid graph without an error becomes the last node, under its name, with the given flag; the
  -- other nodes stay.
  pub add_node-new :
      (name : CStr)
      → pkg.name ≡ some name
      → dep_graph_find g name ≡ none
      → (add_node g pkg installed allocs).0 ≡ ok
      → ((add_node g pkg installed allocs).1.nodes
          ≡ g.nodes ++ (record { name = name; pkg = pkg; installed = installed } ∷ []))
        × (dep_graph_find (add_node g pkg installed allocs).1 name ≡ some (length g.nodes))
  unfolding add_node
  add_node-new name e f done =
      let r = new_node g pkg name installed (grow (length g.nodes) g.cap 16 allocs) in
      let is : add_node g pkg installed allocs ≡ r = simp (e, f, add_node) in
      let post =
        new_node-NewPost g pkg name installed (grow (length g.nodes) g.cap 16 allocs) h f in
      let nodes = post.added (sym (ap (λ t. t.0) is) ∙ done) in
      let node : Node = record { name = name; pkg = pkg; installed = installed } in
      subst
        (λ (t : DepError × DepGraph × Allocs).
          (t.1.nodes ≡ g.nodes ++ (node ∷ [])) × (dep_graph_find t.1 name ≡ some (length g.nodes)))
        (sym is)
        (
          nodes,
          post.valid.named (length g.nodes) node
              (ap (λ ns. get_elem? ns (length g.nodes)) nodes ∙ get_elem?-append_last g.nodes node),
        )

  -- In a valid graph a package whose name is known adds no node, and the metadata that was added first stays.
  pub add_node-known :
      (name : CStr) (i j : ℕ) (n : Node)
      → pkg.name ≡ some name
      → dep_graph_find g name ≡ some i
      → get_elem? g.nodes j ≡ some n
      → (length (add_node g pkg installed allocs).1.nodes ≡ length g.nodes)
        × ((n' : Node) × (get_elem? (add_node g pkg installed allocs).1.nodes j ≡ some n')
            × (n'.name ≡ n.name)
            × (n'.pkg ≡ n.pkg))
  unfolding add_node
  add_node-known name i j n e f at =
      let post = mark_installed-MarkPost g i installed h in
      let is : add_node g pkg installed allocs ≡ (ok, mark_installed g i installed, allocs) =
        rw (e, f, add_node) in
      subst
        (λ (t : DepError × DepGraph × Allocs).
          (length t.1.nodes ≡ length g.nodes)
          × ((n' : Node) × (get_elem? t.1.nodes j ≡ some n')
              × (n'.name ≡ n.name)
              × (n'.pkg ≡ n.pkg)))
        (sym is) (post.same_size, post.same_pkg j n at)

abbrev IsFresh : Option StrMap → Type 0
IsFresh o = (m : StrMap) → o ≡ some m → MapIsValid m × ((key : CStr) → str_map_get m key ≡ none)

-- A graph without nodes, over two new maps.
abbrev empty_graph : StrMap → StrMap → DepGraph
empty_graph node_map alias_map = record {
  nodes = [];
  cap = 16;
  node_map = node_map;
  alias_groups = [];
  alias_group_cap = 0;
  alias_map = alias_map;
  prefs = [];
  pref_cap = 0;
}

empty_graph-IsValid :
    (node_map alias_map : StrMap)
    → MapIsValid node_map × ((key : CStr) → str_map_get node_map key ≡ none)
    → MapIsValid alias_map × ((key : CStr) → str_map_get alias_map key ≡ none)
    → IsValid (empty_graph node_map alias_map)
      × ((name : CStr) → dep_graph_lookup (empty_graph node_map alias_map) name ≡ none)
unfolding dep_graph_lookup lookup_alias find_pref str_map_get
empty_graph-IsValid node_map alias_map p q = (
  record {
    node_map_valid = p.0;
    alias_map_valid = q.0;
    found = λ name i e. absurd (differ i (sym (p.1 name) ∙ e));
    named = λ i n e. absurd (differ_node n e);
    alias_lt = λ alias k e. absurd (differ k (sym (q.1 alias) ∙ e));
    providers_lt = λ k group e. absurd (differ_group group e);
  },
  λ name. rw (p.1 name, q.1 name),
)
  where
    differ : (k : ℕ) → ¬ (◌≡◌ {A = Option ℕ} none (some k))
    differ k e = cc

    differ_node : (n : Node) → ¬ (◌≡◌ {A = Option Node} none (some n))
    differ_node n e = cc

    differ_group : (n : AliasGroup) → ¬ (◌≡◌ {A = Option AliasGroup} none (some n))
    differ_group n e = cc

-- A new graph is valid, and a lookup in it finds nothing.
pub dep_graph_new_lem :
    (allocs : Allocs) (g : DepGraph)
    → (dep_graph_new allocs).0 ≡ some g
    → IsValid g × ((name : CStr) → dep_graph_lookup g name ≡ none)
unfolding dep_graph_new with_maps
dep_graph_new_lem allocs g =
    if_rule Made (granted allocs)
      (λ _.
        if_rule Made (granted (later allocs))
          (λ _.
            maps (str_map_init (later (later allocs)))
              (λ m e. str_map_init_lem (later (later allocs)) m e))
          (λ _ e. cc))
      (λ _ e. cc)
  where
    Made : Option DepGraph × Allocs → Type 0
    Made r = r.0 ≡ some g → IsValid g × ((name : CStr) → dep_graph_lookup g name ≡ none)

    second :
        (node_map : StrMap) (o : Option StrMap) (rest : Allocs)
        → MapIsValid node_map × ((key : CStr) → str_map_get node_map key ≡ none)
        → IsFresh o
        → Made (elim o as (λ _. Option DepGraph × Allocs) [
          | none ↦ (none, rest)
          | some alias_map ↦ (some (empty_graph node_map alias_map), rest)
        ])
    second node_map none rest p f e = cc
    second node_map (some alias_map) rest p f e =
        subst (λ (t : DepGraph). IsValid t × ((name : CStr) → dep_graph_lookup t name ≡ none))
          (some-injective _ _ e) (empty_graph-IsValid node_map alias_map p (f alias_map refl))

    maps : (r : Option StrMap × Allocs) → IsFresh r.0 → Made (with_maps r)
    maps (none, rest) f = λ e. cc
    maps (some node_map, rest) f =
        second node_map (str_map_init rest).0 (str_map_init rest).1 (f node_map refl)
          (λ m e. str_map_init_lem rest m e)
