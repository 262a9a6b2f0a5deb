-- ===== src/Resolve/Search.antt =====
-- The search of src/graph/resolve.c keeps its invariant and ends within its fuel.
use lib_apg.Base.{
  ℕ, zero, suc, ◌<◌, ◌≡◌, refl, sym, ◌∙◌, inl, inr, Bool, not, true, false, List, [], ◌∷◌, Option,
  none, some, length, arith, subst,
}
use mathlib.Core.List.{Memᴰ}
use lib_apg.Package.{DepConstraint}
use lib_apg.Graph.{
  DepError, ok, nomem, cycle, missing, conflict, version, DepGraph, dep_graph_lookup,
}
use lib_apg.Graph.Valid.{IsValid, lookup-lt}
use lib_apg.Resolve.{
  Mark, unvisited, visiting, visited, Dfs, mark_at, mark, deps_of, is_rejected, then_next,
  visit_deps, visit_node, dfs, unavailable, unsatisfied, complain, want, pkg_name_of, version_of,
}
use lib_apg.Resolve.Paths.{
  Reaches, here, step, Below, Below-Reaches, unvisited_count, unvisited_count-visiting,
  is_rejected_lem, mark-cases,
}
use lib_apg.Resolve.Post.{
  IsSound, Progress, Progress-refl, Progress-trans, DfsPost, DepsPost, Post-map, mark-IsSound,
  leave, leave-Progress,
}

not-true : (b : Bool) → not b ≡ true → b ≡ false
not-true b h = ground arith

not-false : (b : Bool) → not b ≡ false → b ≡ true
not-false b h = ground arith

module _ (g : DepGraph) (valid : IsValid g) (root : ℕ) where
  -- What a call of `dfs` needs.
  pub record Pre (c : Dfs) (k : ℕ) : Type 0 where
    pub sound : IsSound g root c
    pub bound : k < length g.nodes
    pub reach : Reaches g root k
    pub above : (j : ℕ) → mark_at c j ≡ visiting → Below g j k

  abbrev RecOk : ℕ → (ℕ → Dfs → Option DepError × Dfs) → Type 0
  RecOk fuel rec =
      (k : ℕ) (c : Dfs) → Pre c k → unvisited_count c.state < fuel → DfsPost g root c k (rec k c)

  -- The dependencies `ds` of node i are left to visit.
  visit_deps-Post :
      (rec : ℕ → Dfs → Option DepError × Dfs) (fuel i : ℕ) (ds : List DepConstraint) (c : Dfs)
      → RecOk fuel rec
      → ((d : DepConstraint) → Memᴰ d ds → Memᴰ d (deps_of g i))
      → IsSound g root c
      → Reaches g root i
      → ((j : ℕ) → mark_at c j ≡ visiting → Reaches g j i)
      → unvisited_count c.state < fuel
      → DepsPost g root c ds (visit_deps g rec i ds c)
  unfolding visit_deps
  visit_deps-Post rec fuel i [] c rec_ok sub sound reach above lt =
      (Progress-refl g root c sound, tt)
  visit_deps-Post rec fuel i (d ∷ ds) c rec_ok sub sound reach above lt =
      by_lookup
        (λ c' p.
          visit_deps-Post rec fuel i ds c' rec_ok (λ x m. sub x (Memᴰ.tail m)) p.sound reach
            (λ j v. above j (p.no_new j v)) (omega (arith, p.fewer, lt)))
        (dep_graph_lookup g d.name) refl
    where
      Rest : Type 0
      Rest = (c' : Dfs) → Progress g root c c' → DepsPost g root c' ds (visit_deps g rec i ds c')

      dep : Memᴰ d (deps_of g i)
      dep = sub d (Memᴰ.head refl)

      after_call :
          Rest
          → (k : ℕ) (r : Option DepError × Dfs) → dep_graph_lookup g d.name ≡ some k
          → is_rejected g d k ≡ false
          → DfsPost g root c k r
          → DepsPost g root c (d ∷ ds) (then_next g r (λ c'. visit_deps g rec i ds c'))
      after_call ih k (none, c') e q h = h
      after_call ih k (some ok, c') e q h =
          Post-map g root _ _ (visit_deps g rec i ds c')
            (λ c'' p. (
              Progress-trans g root h.0 p.0,
              ((k, e, not-false _ (sym (is_rejected_lem g d k) ∙ q), p.0.kept k h.1), p.1),
            ))
            (ih c' h.0)
      after_call ih k (some nomem, c') e q h = h
      after_call ih k (some cycle, c') e q h = h
      after_call ih k (some missing, c') e q h = h
      after_call ih k (some conflict, c') e q h = h
      after_call ih k (some version, c') e q h = h

      by_rejected :
          Rest
          → (k : ℕ) (b : Bool) → dep_graph_lookup g d.name ≡ some k
          → is_rejected g d k ≡ b
          → DepsPost g root c (d ∷ ds) (elim b as (λ _. Option DepError × Dfs) [
            | true ↦ (
              some version,
              complain
                  (unsatisfied (pkg_name_of g i) (want d) (pkg_name_of g k) (version_of g k))
                  c,
            )
            | false ↦ then_next g (rec k c) (λ c'. visit_deps g rec i ds c')
          ])
      by_rejected ih k true e q =
          (i, d, k, reach, dep, e, not-true _ (sym (is_rejected_lem g d k) ∙ q))
      by_rejected ih k false e q = after_call ih k (rec k c) e q (
          rec_ok k c
            (record {
              sound = sound;
              bound = lookup-lt g valid d.name k e;
              reach = step reach (d, dep, e);
              above = λ j v. (i, above j v, (d, dep, e));
            })
            lt)

      by_lookup :
          Rest
          → (o : Option ℕ) → dep_graph_lookup g d.name ≡ o
          → DepsPost g root c (d ∷ ds) (elim o as (λ _. Option DepError × Dfs) [
            | none ↦ (some missing, complain (unavailable (pkg_name_of g i) (want d)) c)
            | some k ↦ elim (is_rejected g d k) as (λ _. Option DepError × Dfs) [
              | true ↦ (
                some version,
                complain
                    (unsatisfied (pkg_name_of g i) (want d) (pkg_name_of g k) (version_of g k))
                    c,
              )
              | false ↦ then_next g (rec k c) (λ c'. visit_deps g rec i ds c')
            ]
          ])
      by_lookup ih none e = (i, d, reach, dep, e)
      by_lookup ih (some k) e = by_rejected ih k (is_rejected g d k) e refl

  visit_node-Post :
      (rec : ℕ → Dfs → Option DepError × Dfs) (fuel i : ℕ) (c : Dfs)
      → RecOk fuel rec
      → Pre c i
      → unvisited_count c.state < suc fuel
      → DfsPost g root c i (visit_node g rec i c)
  unfolding visit_node
  visit_node-Post rec fuel i c rec_ok pre lt = by_mark (mark_at c i) refl
    where
      ended :
          (r : Option DepError × Dfs)
          → mark_at c i ≡ unvisited
          → DepsPost g root (mark i visiting c) (deps_of g i) r
          → DfsPost g root c i (then_next g r (λ c'. (some ok, leave g root i c')))
      ended (none, c') e h = h
      ended (some ok, c') e h =
          (leave-Progress g root c c' i pre.sound pre.bound e pre.reach h.0 h.1, Memᴰ.head refl)
      ended (some nomem, c') e h = h
      ended (some cycle, c') e h = h
      ended (some missing, c') e h = h
      ended (some conflict, c') e h = h
      ended (some version, c') e h = h

      above :
          mark_at c i ≡ unvisited
          → (j : ℕ) → mark_at (mark i visiting c) j ≡ visiting
          → Reaches g j i
      above e j v =
          elim (mark-cases c.state i visiting j (omega (arith, pre.bound, pre.sound.size))) [
            | inl (same, f) ↦ subst (λ k. Reaches g k i) (sym same) here
            | inr (other, f) ↦ Below-Reaches g (pre.above j (sym f ∙ v))
          ]

      by_mark :
          (x : Mark)
          → mark_at c i ≡ x
          → DfsPost g root c i (elim x as (λ _. Option DepError × Dfs) [
            | visited ↦ (some ok, c)
            | visiting ↦ (some cycle, c)
            | unvisited ↦
                then_next g
                  (visit_deps g rec i (deps_of g i) (mark i visiting c))
                  (λ c'. (some ok, leave g root i c'))
          ])
      by_mark visited e = (Progress-refl g root c pre.sound, pre.sound.visited_order i pre.bound e)
      by_mark visiting e = (i, pre.reach, pre.above i e)
      by_mark unvisited e = ended (visit_deps g rec i (deps_of g i) (mark i visiting c)) e (
          visit_deps-Post rec fuel i (deps_of g i) (mark i visiting c) rec_ok (λ d m. m)
            (mark-IsSound g root c i pre.sound pre.bound e) pre.reach (above e)
            (omega (arith, unvisited_count-visiting c.state i e, lt)))

  pub dfs-Post :
      (fuel i : ℕ) (c : Dfs)
      → Pre c i
      → unvisited_count c.state < fuel
      → DfsPost g root c i (dfs g fuel i c)
  unfolding dfs
  dfs-Post zero i c pre lt = absurd (omega (arith, lt))
  dfs-Post (suc fuel) i c pre lt =
      visit_node-Post (λ k c'. dfs g fuel k c') fuel i c (λ k c' p q. dfs-Post fuel k c' p q) pre lt
