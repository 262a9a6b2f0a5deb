-- ===== src/Graph/Groups.antt =====
-- The groups of aliases of src/graph/graph.c keep the invariant of the graph.
use lib_apg.Base.{
  ℕ, ◌+◌, ◌<◌, ◌≡◌, refl, sym, ◌∙◌, inl, inr, Bool, true, false, [], ◌∷◌, ◌++◌, Option, none, some,
  get_elem?, set, length, arith, All, Bool-cases, All-append, get_elem?-set_cases,
  get_elem?-append_cases, length-append, length-set, subst, Allocs, grow,
}
use mathlib.Core.Option.{some-injective}
use lib_apg.CString.{CStr, str_eq}
use lib_apg.StrMap.{StrMap, str_map_get}
use lib_apg.StrMap.Insert.{SetPost}
use lib_apg.Graph.{DepError, ok, nomem, DepGraph, AliasGroup, push_provider, map_group}
use lib_apg.Graph.Valid.{IsValid}

-- What registering aliases does, whether it succeeds or not.
pub record AliasPost (g : DepGraph) (r : DepError × DepGraph × Allocs) : Type 0 where
  pub valid : IsValid r.1
  pub same_nodes : r.1.nodes ≡ g.nodes
  pub same_map : r.1.node_map ≡ g.node_map

pub AliasPost-refl :
    (g : DepGraph) (e : DepError) (allocs : Allocs) → IsValid g → AliasPost g (e, g, allocs)
AliasPost-refl g e allocs h = record { valid = h; same_nodes = refl; same_map = refl }

pub AliasPost-trans :
    (g g' : DepGraph) (r : DepError × DepGraph × Allocs)
    → g'.nodes ≡ g.nodes
    → g'.node_map ≡ g.node_map
    → AliasPost g' r
    → AliasPost g r
AliasPost-trans g g' r e f p = record {
  valid = p.valid;
  same_nodes = p.same_nodes ∙ e;
  same_map = p.same_map ∙ f;
}

module _ (i : ℕ) where
  pub push_provider-AliasPost :
      (g : DepGraph) (k : ℕ) (allocs : Allocs)
      → IsValid g
      → i < length g.nodes
      → AliasPost g (push_provider g k i allocs)
  unfolding push_provider
  push_provider-AliasPost g k allocs h lt = by_group (get_elem? g.alias_groups k) refl
    where
      grown : AliasGroup → ℕ → DepGraph
      grown group cap = record g {
        alias_groups =
            set g.alias_groups k
              (record group { providers = group.providers ++ (i ∷ []); cap = cap });
      }

      by_room :
          (group : AliasGroup) (room : Option ℕ) (rest : Allocs)
          → get_elem? g.alias_groups k ≡ some group
          → AliasPost g (elim room as (λ _. DepError × DepGraph × Allocs) [
            | none ↦ (nomem, g, rest)
            | some cap ↦ (ok, grown group cap, rest)
          ])
      by_room group none rest e = AliasPost-refl g nomem rest h
      by_room group (some cap) rest e = record {
        valid = record {
          node_map_valid = h.node_map_valid;
          alias_map_valid = h.alias_map_valid;
          found = h.found;
          named = h.named;
          alias_lt = λ alias j q. omega (
            arith,
            h.alias_lt alias j q,
            length-set g.alias_groups k
                (record group { providers = group.providers ++ (i ∷ []); cap = cap }),
          );
          providers_lt = λ j gr q. elim (get_elem?-set_cases g.alias_groups k j _ gr q) [
            | inl (_, same) ↦
                subst (λ (t : AliasGroup). All (λ n. n < length g.nodes) t.providers) (sym same)
                  (All-append _ group.providers (i ∷ []) (h.providers_lt k group e) (lt, tt))
            | inr old ↦ h.providers_lt j gr old
          ];
        };
        same_nodes = refl;
        same_map = refl;
      }

      by_group :
          (o : Option AliasGroup)
          → get_elem? g.alias_groups k ≡ o
          → AliasPost g (elim o as (λ _. DepError × DepGraph × Allocs) [
            | none ↦ (nomem, g, allocs)
            | some group ↦
                let (room, rest) = grow (length group.providers) group.cap 2 allocs in
                elim room as (λ _. DepError × DepGraph × Allocs) [
                  | none ↦ (nomem, g, rest)
                  | some cap ↦ (ok, grown group cap, rest)
                ]
          ])
      by_group none e = AliasPost-refl g nomem allocs h
      by_group (some group) e =
          let r = grow (length group.providers) group.cap 2 allocs in by_room group r.0 r.1 e

  pub map_group-AliasPost :
      (g : DepGraph) (alias : CStr) (r : Bool × StrMap × Allocs)
      → IsValid g
      → i < length g.nodes
      → SetPost alias (length g.alias_groups) g.alias_map r
      → AliasPost g (map_group g alias i r)
  unfolding map_group
  map_group-AliasPost g alias (false, alias_map, allocs) h lt p = record {
    valid = record {
      node_map_valid = h.node_map_valid;
      alias_map_valid = p.valid;
      found = h.found;
      named = h.named;
      alias_lt = λ a j q. h.alias_lt a j (sym (p.kept refl a) ∙ q);
      providers_lt = h.providers_lt;
    };
    same_nodes = refl;
    same_map = refl;
  }
  map_group-AliasPost g alias (true, alias_map, allocs) h lt p =
      AliasPost-trans g g' (push_provider g' (length g.alias_groups) i allocs) refl refl
        (push_provider-AliasPost g' (length g.alias_groups) allocs valid lt)
    where
      new : AliasGroup
      new = record { alias = alias; providers = []; cap = 0 }

      g' : DepGraph
      g' = record g { alias_groups = g.alias_groups ++ (new ∷ []); alias_map = alias_map }

      size : length (g.alias_groups ++ (new ∷ [])) ≡ length g.alias_groups + 1
      size = length-append g.alias_groups (new ∷ [])

      alias_lt' :
          (a : CStr) (j : ℕ)
          → str_map_get alias_map a ≡ some j
          → j < length (g.alias_groups ++ (new ∷ []))
      alias_lt' a j q = elim (Bool-cases (str_eq alias a)) [
        | inl e ↦
            let is : some (length g.alias_groups) ≡ some j = rw e at (sym (p.done refl a) ∙ q) in
            omega (arith, size, some-injective _ _ is)
        | inr e ↦
            let was : str_map_get g.alias_map a ≡ some j = rw e at (sym (p.done refl a) ∙ q) in
            omega (arith, size, h.alias_lt a j was)
      ]

      valid : IsValid g'
      valid = record {
        node_map_valid = h.node_map_valid;
        alias_map_valid = p.valid;
        found = h.found;
        named = h.named;
        alias_lt = alias_lt';
        providers_lt = λ j gr q. elim (get_elem?-append_cases g.alias_groups new j gr q) [
          | inl old ↦ h.providers_lt j gr old
          | inr (_, same) ↦
              subst (λ (t : AliasGroup). All (λ n. n < length g.nodes) t.providers) (sym same) tt
        ];
      }
