-- ===== src/Resolve/Complete.antt =====
-- What a topological order excludes: the search of src/graph/resolve.c overlooks nothing.
use lib_apg.Base.{
  All-Memᴰ, ℕ, ◌≡◌, refl, sym, ◌∙◌, ◌⊎◌, inl, inr, true, false, List, [], ◌∷◌, none, some, All,
  subst, Allocs,
}
use mathlib.Core.List.{Memᴰ}
use mathlib.Core.Option.{some-injective}
use lib_apg.CString.{CStr}
use lib_apg.Package.{DepConstraint}
use lib_apg.Graph.{DepGraph, dep_graph_lookup}
use lib_apg.Graph.Valid.{IsValid}
use lib_apg.Resolve.{deps_of, ordered, dep_graph_resolve}
use lib_apg.Resolve.Paths.{
  Depends, Reaches, here, step, Below, HasCycle, HasMissing, HasMismatch, Met, IsTopological, fits,
}
use lib_apg.Resolve.Order.{dep_graph_resolve-ordered}

module _ (g : DepGraph) where
  Met-more :
      (i : ℕ) (is : List ℕ) (ds : List DepConstraint) → All (Met g is) ds → All (Met g (i ∷ is)) ds
  Met-more i is [] h = tt
  Met-more i is (d ∷ ds) h =
      let (k, e, q, m) = h.0 in ((k, e, q, Memᴰ.tail m), Met-more i is ds h.1)

  -- The dependencies of every node of the order are met in it.
  IsTopological-Met :
      (is : List ℕ) (i : ℕ) → IsTopological g is → Memᴰ i is → All (Met g is) (deps_of g i)
  IsTopological-Met [] i t m = elim m [ ]
  IsTopological-Met (x ∷ is) i t (Memᴰ.head e) =
      subst (λ k. All (Met g (x ∷ is)) (deps_of g k)) (sym e) (Met-more x is (deps_of g x) t.0)
  IsTopological-Met (x ∷ is) i t (Memᴰ.tail m) =
      Met-more x is (deps_of g i) (IsTopological-Met is i t.2 m)

  Met-Depends : (is : List ℕ) (i k : ℕ) → All (Met g is) (deps_of g i) → Depends g i k → Memᴰ k is
  Met-Depends is i k all (d, m, e) =
      let (k', e', _, m') = All-Memᴰ (Met g is) d (deps_of g i) all m in
      subst (λ n. Memᴰ n is) (some-injective _ _ (sym e' ∙ e)) m'

  Reaches-in : (is : List ℕ) (i k : ℕ) → IsTopological g is → Memᴰ i is → Reaches g i k → Memᴰ k is
  Reaches-in is i k t m here = m
  Reaches-in is i k t m (step {j} r d) =
      Met-Depends is j k (IsTopological-Met is j t (Reaches-in is i j t m r)) d

  -- What the first node of the order reaches is itself, or comes later.
  Reaches-first :
      (x k : ℕ) (is : List ℕ) → IsTopological g (x ∷ is) → Reaches g x k → (k ≡ x) ⊎ Memᴰ k is
  Reaches-first x k is t here = inl refl
  Reaches-first x k is t (step {j} r d) = inr (elim (Reaches-first x j is t r) [
    | inl e ↦ Met-Depends is x k t.0 (subst (λ n. Depends g n k) e d)
    | inr m ↦ Met-Depends is j k (IsTopological-Met is j t.2 m) d
  ])

  no_Below : (is : List ℕ) (i : ℕ) → IsTopological g is → Memᴰ i is → ¬ Below g i i
  no_Below [] i t m b = elim m [ ]
  no_Below (x ∷ is) i t (Memᴰ.tail m) b = no_Below is i t.2 m b
  no_Below (x ∷ is) i t (Memᴰ.head e) b = t.1 (own (subst (λ n. Below g n n) e b))
    where
      own : Below g x x → Memᴰ x is
      own (j, r, d) = elim (Reaches-first x j is t r) [
        | inl same ↦ Met-Depends is x x t.0 (subst (λ n. Depends g n x) same d)
        | inr m ↦ Met-Depends is j x (IsTopological-Met is j t.2 m) d
      ]

  -- A package that is found and resolved in a valid graph reaches no node that depends on itself, no dependency that is
  -- missing and none that is rejected.
  pub dep_graph_resolve_complete :
      (valid : IsValid g) (pkg_name : CStr) (allocs : Allocs) (names : List CStr) (root : ℕ)
      → dep_graph_resolve g pkg_name allocs ≡ ordered names
      → dep_graph_lookup g pkg_name ≡ some root
      → (¬ HasCycle g root) × (¬ HasMissing g root) × (¬ HasMismatch g root)
  dep_graph_resolve_complete valid pkg_name allocs names root e found =
      let (root', o) = dep_graph_resolve-ordered g valid pkg_name allocs names e in
      let same : root' ≡ root = some-injective _ _ (sym o.found ∙ found) in
      by_order o.indices o.topological (subst (λ n. Memᴰ n o.indices) same o.holds_root)
    where
      by_order :
          (is : List ℕ)
          → IsTopological g is
          → Memᴰ root is
          → (¬ HasCycle g root) × (¬ HasMissing g root) × (¬ HasMismatch g root)
      by_order is t m = (
        λ (i, r, b). no_Below is i t (Reaches-in is root i t m r) b,
        λ (i, d, r, md, q). let (k, lookup, _, _) = met i d r md in differ k (sym q ∙ lookup),
        λ (i, d, k, r, md, q, bad).
            let (k', lookup, good, _) = met i d r md in
            let is_k : k' ≡ k = some-injective _ _ (sym lookup ∙ q) in
            clash (sym bad ∙ subst (λ n. fits g d n ≡ true) is_k good),
      )
        where
          met : (i : ℕ) (d : DepConstraint) → Reaches g root i → Memᴰ d (deps_of g i) → Met g is d
          met i d r md =
              All-Memᴰ (Met g is) d (deps_of g i)
                (IsTopological-Met is i t (Reaches-in is root i t m r)) md

          differ : (k : ℕ) → ¬ (none ≡ some k)
          differ k q = cc

          clash : ¬ (false ≡ true)
          clash q = cc
