-- ===== src/Graph/Valid.antt =====
-- The invariant of the dependency graph of src/graph/graph.c, and the bounds of its lookups.
use lib_apg.Base.{
  ℕ, ◌<◌, ◌≡◌, ◌∙◌, inl, inr, List, [], ◌∷◌, Option, none, some, get_elem?, length, arith, All,
  Bool-cases, Option-cases, get_elem?-lt,
}
use mathlib.Core.Option.{some-injective}
use lib_apg.CString.{CStr, str_eq}
use lib_apg.StrMap.{str_map_get}
use lib_apg.StrMap.Insert.{IsValid as MapIsValid}
use lib_apg.Graph.{
  DepGraph, Node, AliasGroup, Pref, dep_graph_find, find_pref, installed_at, pick_provider,
  lookup_alias, dep_graph_lookup,
}

-- The node map is the inverse of the names of the nodes, and every alias leads to nodes.
pub record IsValid (g : DepGraph) : Type 0 where
  pub node_map_valid : MapIsValid g.node_map
  pub alias_map_valid : MapIsValid g.alias_map
  pub found :
      (name : CStr) (i : ℕ)
      → dep_graph_find g name ≡ some i
      → (n : Node) × (get_elem? g.nodes i ≡ some n) × (n.name ≡ name)
  pub named : (i : ℕ) (n : Node) → get_elem? g.nodes i ≡ some n → dep_graph_find g n.name ≡ some i
  pub alias_lt :
      (alias : CStr) (k : ℕ) → str_map_get g.alias_map alias ≡ some k → k < length g.alias_groups
  pub providers_lt :
      (k : ℕ) (group : AliasGroup)
      → get_elem? g.alias_groups k ≡ some group
      → All (λ i. i < length g.nodes) group.providers

module _ (g : DepGraph) (ok : IsValid g) where
  find-lt : (name : CStr) (i : ℕ) → dep_graph_find g name ≡ some i → i < length g.nodes
  find-lt name i h = let (n, at, _) = ok.found name i h in get_elem?-lt g.nodes i n at

  find_pref-lt :
      (ps : List Pref) (name : CStr) (i : ℕ) → find_pref g ps name ≡ some i → i < length g.nodes
  unfolding find_pref
  find_pref-lt [] name i h = cc
  find_pref-lt (p ∷ ps) name i h = elim (Bool-cases (str_eq p.alias name)) [
    | inl e ↦ find-lt p.pkg_name i (rw (e, find_pref) at h)
    | inr e ↦ find_pref-lt ps name i (rw (e, find_pref) at h)
  ]

  pick_provider-lt :
      (is : List ℕ) (first_match : Option ℕ) (i : ℕ)
      → All (λ j. j < length g.nodes) is
      → ((f : ℕ) → first_match ≡ some f → f < length g.nodes)
      → pick_provider g is first_match ≡ some i
      → i < length g.nodes
  unfolding pick_provider
  pick_provider-lt [] first_match i all first h = first i h
  pick_provider-lt (j ∷ is) first_match i all first h = elim (Bool-cases (installed_at g j)) [
    | inl e ↦ omega (arith, some-injective j i (rw (e, pick_provider) at h), all.0)
    | inr e ↦
        pick_provider-lt is (kept first_match) i all.1 (kept-lt first_match first)
          (rw (e, pick_provider) at h)
  ]
    where
      kept : Option ℕ → Option ℕ
      kept f = elim f [ none ↦ some j | some k ↦ some k ]

      kept-lt :
          (f : Option ℕ)
          → ((k : ℕ) → f ≡ some k → k < length g.nodes)
          → (k : ℕ) → kept f ≡ some k
          → k < length g.nodes
      kept-lt none p k q = omega (arith, some-injective j k q, all.0)
      kept-lt (some f) p k q = p k q

  lookup_alias-lt : (name : CStr) (i : ℕ) → lookup_alias g name ≡ some i → i < length g.nodes
  unfolding lookup_alias
  lookup_alias-lt name i h = elim (Option-cases (str_map_get g.alias_map name)) [
    | inl e ↦ cc (rw (e, lookup_alias) at h)
    | inr (k, e) ↦ elim (Option-cases (get_elem? g.alias_groups k)) [
      | inl f ↦ cc (rw (e, f, lookup_alias) at h)
      | inr (group, f) ↦
          pick_provider-lt group.providers none i (ok.providers_lt k group f) (λ j q. none-lt j q)
            (rw (e, f, lookup_alias) at h)
    ]
  ]
    where
      none-lt : (j : ℕ) → ◌≡◌ {A = Option ℕ} none (some j) → j < length g.nodes
      none-lt j q = cc

  -- A lookup in a valid graph, by name, preference or alias, yields the index of a node.
  pub lookup-lt : (name : CStr) (i : ℕ) → dep_graph_lookup g name ≡ some i → i < length g.nodes
  unfolding dep_graph_lookup
  lookup-lt name i h = elim (Option-cases (dep_graph_find g name)) [
    | inl e ↦ elim (Option-cases (find_pref g g.prefs name)) [
      | inl f ↦ lookup_alias-lt name i (rw (e, f, dep_graph_lookup) at h)
      | inr (j, f) ↦ find_pref-lt g.prefs name i (f ∙ (rw (e, f, dep_graph_lookup) at h))
    ]
    | inr (j, e) ↦ find-lt name i (e ∙ (rw (e, dep_graph_lookup) at h))
  ]
