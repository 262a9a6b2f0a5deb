-- ===== src/Resolve/Union.antt =====
-- What `dep_graph_resolve_parallel` of src/graph/resolve.c returns.
use lib_apg.Base.{
  ℕ, ◌≡◌, refl, ap, sym, ◌∙◌, ◌⊎◌, inl, inr, ◌↔◌, ◌&&◌, List, [], ◌∷◌, Option, none, some, if_rule,
  subst, Allocs, granted, later, map,
}
use mathlib.Core.List.{Memᴰ}
use lib_apg.CString.{CStr}
use lib_apg.StrMap.{StrMap, str_map_init, str_map_get}
use lib_apg.StrMap.Insert.{IsValid as MapIsValid}
use lib_apg.StrMap.Laws.{str_map_init_lem}
use lib_apg.Graph.{DepGraph}
use lib_apg.Resolve.{Resolved, ordered, refused, stuck}
use lib_apg.Resolve.Runs.{
  ResolveTask, all_orders, Merge, merge_orders, merged_result, merge_seen, merge_all, run_tasks,
  dep_graph_resolve_parallel,
}
use lib_apg.Resolve.Merge.{IsOnce, InSome, MergePost, merge_orders-MergePost}

-- Every task yielded an order, and the names are those of the orders, each once.
pub record Union (results : List Resolved) (names : List CStr) : Type 0 where
  pub orders : List (List CStr)
  pub all_ordered : results ≡ map ordered orders
  pub once : IsOnce names
  pub same_names : (name : CStr) → Memᴰ name names ↔ InSome orders name

abbrev Joined : List Resolved → Resolved → Type 0
Joined results (ordered names) = Union results names
Joined results (refused e) = Unit
Joined results stuck = Unit

-- What `all_orders` yields for the results.
abbrev Split : List Resolved → (List (List CStr)) × Option Resolved → Type 0
Split results (orders, none) = results ≡ map ordered orders
Split results (orders, some (ordered names)) = ⊥
Split results (orders, some (refused e)) = Unit
Split results (orders, some stuck) = Unit

all_orders-Split : (results : List Resolved) → Split results (all_orders results)
unfolding all_orders
all_orders-Split [] = refl
all_orders-Split (ordered names ∷ rs) = more (all_orders rs) (all_orders-Split rs)
  where
    more :
        (p : (List (List CStr)) × Option Resolved)
        → Split rs p
        → Split (ordered names ∷ rs) (names ∷ p.0, p.1)
    more (orders, none) h = ap (◌∷◌ (ordered names)) h
    more (orders, some (ordered ns)) h = h
    more (orders, some (refused e)) h = h
    more (orders, some stuck) h = h
all_orders-Split (refused e ∷ rs) = tt
all_orders-Split (stuck ∷ rs) = tt

module _ (results : List Resolved) (orders : List (List CStr))
    (all : results ≡ map ordered orders) where
  merged_result-Joined :
      (seen : StrMap) (r : Option Merge × Allocs)
      → MergePost (record { seen = seen; merged = [] }) (InSome orders) r
      → Joined results (merged_result r)
  merged_result-Joined seen (none, allocs) p = tt
  merged_result-Joined seen (some t, allocs) p = record {
    orders = orders;
    all_ordered = all;
    once = p.merge.once;
    same_names = λ j. (λ m. from j (p.only j m), λ s. p.new j s);
  }
    where
      from : (j : CStr) → Memᴰ j [] ⊎ InSome orders j → InSome orders j
      from j (inl m) = elim m [ ]
      from j (inr s) = s

  merge_seen-Joined :
      (r : Option StrMap × Allocs)
      → ((m : StrMap) → r.0 ≡ some m → MapIsValid m × ((key : CStr) → str_map_get m key ≡ none))
      → Joined results (merge_seen orders r)
  unfolding merge_seen
  merge_seen-Joined (none, allocs) f = tt
  merge_seen-Joined (some seen, allocs) f =
      let (valid, empty) = f seen refl in
      let t : Merge = record { seen = seen; merged = [] } in
      merged_result-Joined seen (merge_orders orders t allocs) (
        merge_orders-MergePost orders t allocs (record {
          seen_valid = valid;
          listed = λ j v e. absurd (differ v (sym (empty j) ∙ e));
          unlisted = λ j e m. no_member j m;
          once = tt;
        }))
    where
      differ : (v : ℕ) → ¬ (◌≡◌ {A = Option ℕ} none (some v))
      differ v e = cc

      no_member : (j : CStr) → ¬ Memᴰ j []
      no_member j m = elim m [ ]

merge_all-Joined :
    (results : List Resolved) (p : (List (List CStr)) × Option Resolved) (allocs : Allocs)
    → Split results p
    → Joined results (merge_all p allocs)
unfolding merge_all
merge_all-Joined results (orders, none) allocs h =
    if_rule (Joined results) (granted allocs)
      (λ _.
        merge_seen-Joined results orders h (str_map_init (later allocs))
          (λ m e. str_map_init_lem (later allocs) m e))
      (λ _. tt)
merge_all-Joined results (orders, some (ordered names)) allocs h = absurd h
merge_all-Joined results (orders, some (refused e)) allocs h = tt
merge_all-Joined results (orders, some stuck) allocs h = tt

-- If the parallel resolution of two packages or more succeeds, each of them was resolved on its
-- own, and the result has exactly the names of their orders, each once.
pub dep_graph_resolve_parallel-ordered :
    (g : DepGraph) (t u : ResolveTask) (ts : List ResolveTask) (allocs : Allocs) (names : List CStr)
    → dep_graph_resolve_parallel g (t ∷ u ∷ ts) allocs ≡ ordered names
    → Union (run_tasks g (t ∷ u ∷ ts)) names
unfolding dep_graph_resolve_parallel
dep_graph_resolve_parallel-ordered g t u ts allocs names e =
    subst (Joined (run_tasks g (t ∷ u ∷ ts))) e (
      if_rule (Joined (run_tasks g (t ∷ u ∷ ts))) (granted allocs && granted (later allocs))
        (λ _.
          merge_all-Joined (run_tasks g (t ∷ u ∷ ts)) (all_orders (run_tasks g (t ∷ u ∷ ts)))
            (later (later allocs)) (all_orders-Split (run_tasks g (t ∷ u ∷ ts))))
        (λ _. tt))
