-- ===== src/Graph/Aliases.antt =====
-- `add_alias` of src/graph/graph.c keeps the invariant of the graph.
use lib_apg.Base.{
  ℕ, ◌<◌, refl, List, [], ◌∷◌, Option, none, some, length, if_rule, Allocs, granted, later, grow,
}
use lib_apg.CString.{CStr}
use lib_apg.StrMap.{str_map_get, str_map_set}
use lib_apg.StrMap.Laws.{str_map_set-SetPost}
use lib_apg.Graph.{
  DepError, ok, nomem, DepGraph, push_provider, new_group, add_alias, dep_graph_find, then_ok,
  add_provides, add_replaces,
}
use lib_apg.Graph.Valid.{IsValid}
use lib_apg.Graph.Groups.{
  AliasPost, AliasPost-refl, AliasPost-trans, push_provider-AliasPost, map_group-AliasPost,
}

module _ (i : ℕ) where
  new_group-AliasPost :
      (g : DepGraph) (alias : CStr) (r : Option ℕ × Allocs)
      → IsValid g
      → i < length g.nodes
      → AliasPost g (new_group g alias i r)
  unfolding new_group
  new_group-AliasPost g alias (none, allocs) h lt = AliasPost-refl g nomem allocs h
  new_group-AliasPost g alias (some cap, allocs) h lt =
      if_rule (AliasPost g) (granted allocs)
        (λ _. AliasPost-trans g g' _ refl refl (
          map_group-AliasPost i g' alias
            (str_map_set g.alias_map alias (length g.alias_groups) (later allocs)) valid lt
            (str_map_set-SetPost alias (length g.alias_groups) g.alias_map (later allocs)
              h.alias_map_valid)))
        (λ _. record { valid = valid; same_nodes = refl; same_map = refl })
    where
      g' : DepGraph
      g' = record g { alias_group_cap = cap }

      valid : IsValid g'
      valid = record {
        node_map_valid = h.node_map_valid;
        alias_map_valid = h.alias_map_valid;
        found = h.found;
        named = h.named;
        alias_lt = h.alias_lt;
        providers_lt = h.providers_lt;
      }

  add_alias-AliasPost :
      (g : DepGraph) (alias : CStr) (allocs : Allocs)
      → IsValid g
      → i < length g.nodes
      → AliasPost g (add_alias g alias i allocs)
  unfolding add_alias
  add_alias-AliasPost g alias allocs h lt = by_group (str_map_get g.alias_map alias)
    where
      by_group :
          (o : Option ℕ)
          → AliasPost g (elim o as (λ _. DepError × DepGraph × Allocs) [
            | some k ↦ push_provider g k i allocs
            | none ↦ new_group g alias i (grow (length g.alias_groups) g.alias_group_cap 16 allocs)
          ])
      by_group none =
          new_group-AliasPost g alias (grow (length g.alias_groups) g.alias_group_cap 16 allocs) h
            lt
      by_group (some k) = push_provider-AliasPost i g k allocs h lt

  -- A step, and the rest if it succeeds.
  pub then_ok-AliasPost :
      (g : DepGraph) (r : DepError × DepGraph × Allocs)
      (f : DepGraph → Allocs → DepError × DepGraph × Allocs)
      → i < length g.nodes
      → AliasPost g r
      → ((g' : DepGraph) (rest : Allocs)
          → IsValid g'
          → i < length g'.nodes
          → AliasPost g' (f g' rest))
      → AliasPost g (then_ok r f)
  then_ok-AliasPost g (ok, g', rest) f lt p next =
      AliasPost-trans g g' (f g' rest) p.same_nodes p.same_map
        (next g' rest p.valid (rw p.same_nodes lt))
  then_ok-AliasPost g (nomem, g', rest) f lt p next = p
  then_ok-AliasPost g (DepError.cycle, g', rest) f lt p next = p
  then_ok-AliasPost g (DepError.missing, g', rest) f lt p next = p
  then_ok-AliasPost g (DepError.conflict, g', rest) f lt p next = p
  then_ok-AliasPost g (DepError.version, g', rest) f lt p next = p

  pub add_provides-AliasPost :
      (aliases : List CStr) (g : DepGraph) (allocs : Allocs)
      → IsValid g
      → i < length g.nodes
      → AliasPost g (add_provides i aliases g allocs)
  unfolding add_provides
  add_provides-AliasPost [] g allocs h lt = AliasPost-refl g ok allocs h
  add_provides-AliasPost (a ∷ aliases) g allocs h lt =
      then_ok-AliasPost g (add_alias g a i allocs) (λ g' rest. add_provides i aliases g' rest) lt
        (add_alias-AliasPost g a allocs h lt)
        (λ g' rest h' lt'. add_provides-AliasPost aliases g' rest h' lt')

  pub add_replaces-AliasPost :
      (aliases : List CStr) (g : DepGraph) (allocs : Allocs)
      → IsValid g
      → i < length g.nodes
      → AliasPost g (add_replaces i aliases g allocs)
  unfolding add_replaces
  add_replaces-AliasPost [] g allocs h lt = AliasPost-refl g ok allocs h
  add_replaces-AliasPost (a ∷ aliases) g allocs h lt =
      by_node (dep_graph_find g a) (λ g' rest h' lt'. add_replaces-AliasPost aliases g' rest h' lt')
    where
      by_node :
          (o : Option ℕ)
          → ((g' : DepGraph) (rest : Allocs)
              → IsValid g'
              → i < length g'.nodes
              → AliasPost g' (add_replaces i aliases g' rest))
          → AliasPost g (elim o as (λ _. DepError × DepGraph × Allocs) [
            | some _ ↦ add_replaces i aliases g allocs
            | none ↦ then_ok (add_alias g a i allocs) (λ g' rest. add_replaces i aliases g' rest)
          ])
      by_node (some _) next = next g allocs h lt
      by_node none next =
          then_ok-AliasPost g (add_alias g a i allocs) (λ g' rest. add_replaces i aliases g' rest)
            lt (add_alias-AliasPost g a allocs h lt) next
