-- ===== src/Graph/Nodes.antt =====
-- The steps of `add_node` of src/graph/graph.c keep the invariant of the graph.
use lib_apg.Base.{
  ℕ, zero, suc, ◌+◌, ◌<◌, ◌≡◌, refl, ap, sym, ◌∙◌, inl, inr, Bool, true, false, List, [], ◌∷◌, ◌++◌,
  Option, none, some, get_elem?, set, length, arith, All, Bool-cases, get_elem?-append_cases,
  get_elem?-append_left, get_elem?-append_last, get_elem?-set_cases, length-append, length-set,
  if_rule, subst, Allocs, granted, later,
}
use mathlib.Core.Option.{some-injective}
use lib_apg.CString.{CStr, str_eq, str_eq_sound, str_eq_refl}
use lib_apg.Package.{Package}
use lib_apg.StrMap.{StrMap, str_map_get, str_map_set}
use lib_apg.StrMap.Insert.{SetPost}
use lib_apg.StrMap.Laws.{str_map_set-SetPost}
use lib_apg.Graph.{
  DepError, ok, DepGraph, Node, dep_graph_find, add_provides, add_replaces, map_node, new_node,
  mark_installed,
}
use lib_apg.Graph.Valid.{IsValid}
use lib_apg.Graph.Aliases.{then_ok-AliasPost, add_provides-AliasPost, add_replaces-AliasPost}

All-more : (n m : ℕ) (is : List ℕ) → n < m → All (λ i. i < n) is → All (λ i. i < m) is
All-more n m [] lt h = tt
All-more n m (i ∷ is) lt h = (omega (arith, lt, h.0), All-more n m is lt h.1)

-- What `add_node` of a new name does.
pub record NewPost (g : DepGraph) (node : Node) (r : DepError × DepGraph × Allocs) : Type 0 where
  pub valid : IsValid r.1
  pub added : r.0 ≡ ok → r.1.nodes ≡ g.nodes ++ (node ∷ [])

map_node-NewPost :
    (g : DepGraph) (node : Node) (r : Bool × StrMap × Allocs)
    → IsValid g
    → dep_graph_find g node.name ≡ none
    → SetPost node.name (length g.nodes) g.node_map r
    → NewPost g node (map_node g node r)
unfolding map_node
map_node-NewPost g node (false, node_map, allocs) h new p = record {
  valid = record {
    node_map_valid = p.valid;
    alias_map_valid = h.alias_map_valid;
    found = λ name i q. h.found name i (sym (p.kept refl name) ∙ q);
    named = λ i n q. p.kept refl n.name ∙ h.named i n q;
    alias_lt = h.alias_lt;
    providers_lt = h.providers_lt;
  };
  added = λ e. cc;
}
map_node-NewPost g node (true, node_map, allocs) h new p =
    let post =
      then_ok-AliasPost (length g.nodes) g'
        (add_provides (length g.nodes) node.pkg.provides g' allocs)
        (λ g'' rest. add_replaces (length g.nodes) node.pkg.replaces g'' rest) more
        (add_provides-AliasPost (length g.nodes) node.pkg.provides g' allocs valid more)
        (λ g'' rest h'' lt''.
          add_replaces-AliasPost (length g.nodes) node.pkg.replaces g'' rest h'' lt'') in
    record { valid = post.valid; added = λ e. post.same_nodes }
  where
    g' : DepGraph
    g' = record g { nodes = g.nodes ++ (node ∷ []); node_map = node_map }

    size : length (g.nodes ++ (node ∷ [])) ≡ length g.nodes + 1
    size = length-append g.nodes (node ∷ [])

    more : length g.nodes < length (g.nodes ++ (node ∷ []))
    more = omega (arith, size)

    found' :
        (name : CStr) (i : ℕ)
        → str_map_get node_map name ≡ some i
        → (n : Node) × (get_elem? (g.nodes ++ (node ∷ [])) i ≡ some n) × (n.name ≡ name)
    found' name i q = elim (Bool-cases (str_eq node.name name)) [
      | inl e ↦
          let is : some (length g.nodes) ≡ some i = rw e at (sym (p.done refl name) ∙ q) in
          (
            node,
            subst (λ k. get_elem? (g.nodes ++ (node ∷ [])) k ≡ some node) (some-injective _ _ is)
                (get_elem?-append_last g.nodes node),
            str_eq_sound node.name name e,
          )
      | inr e ↦
          let was : dep_graph_find g name ≡ some i = rw e at (sym (p.done refl name) ∙ q) in
          let (n, at, same) = h.found name i was in
          (n, get_elem?-append_left g.nodes (node ∷ []) i n at, same)
    ]

    named' :
        (i : ℕ) (n : Node)
        → get_elem? (g.nodes ++ (node ∷ [])) i ≡ some n
        → str_map_get node_map n.name ≡ some i
    named' i n q = elim (get_elem?-append_cases g.nodes node i n q) [
      | inl old ↦
          let was = h.named i n old in
          elim (Bool-cases (str_eq node.name n.name)) [
            | inl e ↦
                let same : node.name ≡ n.name = str_eq_sound node.name n.name e in
                absurd (differ i (sym new ∙ ap (dep_graph_find g) same ∙ was))
            | inr e ↦ rw e at (p.done refl n.name) ∙ was
          ]
      | inr (last, same) ↦
          let own : str_map_get node_map node.name ≡ some (length g.nodes) =
            rw (str_eq_refl node.name) at (p.done refl node.name) in
          ap (λ (t : Node). str_map_get node_map t.name) same ∙ own ∙ ap some (sym last)
    ]
      where
        differ : (j : ℕ) → ¬ (◌≡◌ {A = Option ℕ} none (some j))
        differ j e = cc

    valid : IsValid g'
    valid = record {
      node_map_valid = p.valid;
      alias_map_valid = h.alias_map_valid;
      found = found';
      named = named';
      alias_lt = h.alias_lt;
      providers_lt = λ k group q.
          All-more (length g.nodes) (length (g.nodes ++ (node ∷ []))) group.providers more
            (h.providers_lt k group q);
    }

pub new_node-NewPost :
    (g : DepGraph) (pkg : Package) (name : CStr) (installed : Bool) (r : Option ℕ × Allocs)
    → IsValid g
    → dep_graph_find g name ≡ none
    → NewPost g
        (record { name = name; pkg = pkg; installed = installed })
        (new_node g pkg name installed r)
unfolding new_node
new_node-NewPost g pkg name installed (none, allocs) h new = record { valid = h; added = λ e. cc }
new_node-NewPost g pkg name installed (some cap, allocs) h new =
    if_rule (NewPost g node) (granted allocs)
      (λ _.
        if_rule (NewPost g node) (granted (later allocs)) (λ _. mapped)
          (λ _. record { valid = valid; added = λ e. cc }))
      (λ _. record { valid = valid; added = λ e. cc })
  where
    node : Node
    node = record { name = name; pkg = pkg; installed = installed }

    g' : DepGraph
    g' = record g { cap = cap }

    valid : IsValid g'
    valid = record {
      node_map_valid = h.node_map_valid;
      alias_map_valid = h.alias_map_valid;
      found = h.found;
      named = h.named;
      alias_lt = h.alias_lt;
      providers_lt = h.providers_lt;
    }

    mapped :
        NewPost g node
          (map_node g' node (str_map_set g.node_map name (length g.nodes) (later (later allocs))))
    mapped =
        let post =
          map_node-NewPost g' node
            (str_map_set g.node_map name (length g.nodes) (later (later allocs))) valid new
            (str_map_set-SetPost name (length g.nodes) g.node_map (later (later allocs))
              h.node_map_valid) in
        record { valid = post.valid; added = post.added }

-- The node of an index after another one was marked.
get_elem?-marked :
    (ns : List Node) (i j : ℕ) (m n : Node)
    → get_elem? ns i ≡ some m
    → get_elem? ns j ≡ some n
    → (n' : Node) × (get_elem? (set ns i (record m { installed = true })) j ≡ some n')
      × (n'.name ≡ n.name)
      × (n'.pkg ≡ n.pkg)
get_elem?-marked [] i j m n e f = cc
get_elem?-marked (x ∷ ns) zero zero m n e f =
    let same : m ≡ n = some-injective _ _ (sym e ∙ f) in
    (
      record m { installed = true },
      refl,
      ap (λ (t : Node). t.name) same,
      ap (λ (t : Node). t.pkg) same,
    )
get_elem?-marked (x ∷ ns) zero (suc j) m n e f = (n, f, refl, refl)
get_elem?-marked (x ∷ ns) (suc i) zero m n e f = (n, f, refl, refl)
get_elem?-marked (x ∷ ns) (suc i) (suc j) m n e f = get_elem?-marked ns i j m n e f

-- Marking a node as installed keeps its name, its metadata and the other nodes.
pub record MarkPost (g g' : DepGraph) : Type 0 where
  pub valid : IsValid g'
  pub same_size : length g'.nodes ≡ length g.nodes
  pub same_pkg :
      (j : ℕ) (n : Node)
      → get_elem? g.nodes j ≡ some n
      → (n' : Node) × (get_elem? g'.nodes j ≡ some n') × (n'.name ≡ n.name) × (n'.pkg ≡ n.pkg)

pub mark_installed-MarkPost :
    (g : DepGraph) (i : ℕ) (installed : Bool)
    → IsValid g
    → MarkPost g (mark_installed g i installed)
unfolding mark_installed
mark_installed-MarkPost g i false h = record {
  valid = h;
  same_size = refl;
  same_pkg = λ j n e. (n, e, refl, refl);
}
mark_installed-MarkPost g i true h = by_node (get_elem? g.nodes i) refl
  where
    by_node :
        (o : Option Node)
        → get_elem? g.nodes i ≡ o
        → MarkPost g (elim o as (λ _. DepGraph) [
          | none ↦ g
          | some n ↦ record g { nodes = set g.nodes i (record n { installed = true }) }
        ])
    by_node none e = record { valid = h; same_size = refl; same_pkg = λ j n f. (n, f, refl, refl) }
    by_node (some m) e = record {
      valid = record {
        node_map_valid = h.node_map_valid;
        alias_map_valid = h.alias_map_valid;
        found = λ name j q.
            let (n, at, same) = h.found name j q in
            let (n', at', named, _) = get_elem?-marked g.nodes i j m n e at in
            (n', at', named ∙ same);
        named = λ j n q. elim (get_elem?-set_cases g.nodes i j _ n q) [
          | inl (same, is) ↦
              ap (λ (t : Node). dep_graph_find g t.name) is ∙ h.named i m e ∙ ap some same
          | inr old ↦ h.named j n old
        ];
        alias_lt = h.alias_lt;
        providers_lt = λ k group q.
            subst (λ n. All (λ j. j < n) group.providers)
              (sym (length-set g.nodes i (record m { installed = true })))
              (h.providers_lt k group q);
      };
      same_size = length-set g.nodes i (record m { installed = true });
      same_pkg = λ j n f. get_elem?-marked g.nodes i j m n e f;
    }
