-- ===== src/Resolve/Paths.antt =====
-- The dependencies between the nodes of a graph, and what the search of src/graph/resolve.c should
-- find: a topological order, a cycle, a missing package or a rejected version.
use lib_apg.Base.{
  Bool, not, ℕ, zero, suc, ◌≤◌, ◌<◌, ◌≡◌, refl, sym, ◌≢◌, ◌⊎◌, inl, inr, true, false, List, [], ◌∷◌,
  none, some, length, set, get_or, get_or-set_self, get_or-set_ne, arith, All, replicate,
}
use mathlib.Core.List.{Memᴰ}
use native.Mathlib.Decide.{ℕ_discrete}
use lib_apg.Package.{DepConstraint}
use lib_apg.Version.{ver_satisfies}
use lib_apg.Version.Satisfies.{not_any_not_satisfied}
use lib_apg.Graph.{DepGraph, dep_graph_lookup}
use lib_apg.Resolve.{Mark, unvisited, visiting, visited, deps_of, version_of, is_rejected}

module _ (g : DepGraph) where
  -- The version of node k satisfies dependency d.
  abbrev pub fits : DepConstraint → ℕ → Bool
  fits d k = ver_satisfies (version_of g k) d.op d.version

  -- Node k answers a dependency of node i.
  abbrev pub Depends : ℕ → ℕ → Type 0
  Depends i k = (d : DepConstraint) × Memᴰ d (deps_of g i) × (dep_graph_lookup g d.name ≡ some k)

  pub data Reaches (i : ℕ) : ℕ → Type 0 where
    here : Reaches i i
    step : {j k : ℕ} → Reaches i j → Depends j k → Reaches i k

  -- A path of at least one dependency.
  abbrev pub Below : ℕ → ℕ → Type 0
  Below i k = (j : ℕ) × Reaches i j × Depends j k

  pub Below-Reaches : {i k : ℕ} → Below i k → Reaches i k
  Below-Reaches (j, r, d) = step r d

  abbrev pub HasCycle : ℕ → Type 0
  HasCycle root = (i : ℕ) × Reaches root i × Below i i

  abbrev pub HasMissing : ℕ → Type 0
  HasMissing root =
      (i : ℕ) × (d : DepConstraint) × Reaches root i
      × Memᴰ d (deps_of g i)
      × (dep_graph_lookup g d.name ≡ none)

  abbrev pub HasMismatch : ℕ → Type 0
  HasMismatch root =
      (i : ℕ) × (d : DepConstraint) × (k : ℕ) × Reaches root i
      × Memᴰ d (deps_of g i)
      × (dep_graph_lookup g d.name ≡ some k)
      × (fits d k ≡ false)

  -- The dependency is answered, with a version that it accepts, by one of the nodes.
  abbrev pub Met : List ℕ → DepConstraint → Type 0
  Met is d = (k : ℕ) × (dep_graph_lookup g d.name ≡ some k) × (fits d k ≡ true) × Memᴰ k is

  -- Each node once, after the nodes that answer its dependencies; the last node comes first.
  abbrev pub IsTopological : List ℕ → Type 0
  IsTopological [] = Unit
  IsTopological (i ∷ is) = All (Met is) (deps_of g i) × (¬ Memᴰ i is) × IsTopological is

module _ (g : DepGraph) (d : DepConstraint) (k : ℕ) where
  pub is_rejected_lem : is_rejected g d k ≡ not (fits g d k)
  unfolding is_rejected
  is_rejected_lem = not_any_not_satisfied d.op (version_of g k) d.version

-- How many nodes are not visited yet.
abbrev pub unvisited_count : List Mark → ℕ
unvisited_count [] = 0
unvisited_count (unvisited ∷ s) = suc (unvisited_count s)
unvisited_count (_ ∷ s) = unvisited_count s

pub unvisited_count-replicate : (n : ℕ) → unvisited_count (replicate n unvisited) ≡ n
unvisited_count-replicate zero = refl
unvisited_count-replicate (suc n) = omega (arith, unvisited_count-replicate n)

pub unvisited_count-set :
    (s : List Mark) (i : ℕ) (x : Mark)
    → x ≢ unvisited
    → unvisited_count (set s i x) ≤ unvisited_count s
unvisited_count-set [] i x ne = omega arith
unvisited_count-set (_ ∷ s) zero unvisited ne = absurd (ne refl)
unvisited_count-set (unvisited ∷ s) zero visiting ne = omega arith
unvisited_count-set (unvisited ∷ s) zero visited ne = omega arith
unvisited_count-set (visiting ∷ s) zero visiting ne = omega arith
unvisited_count-set (visiting ∷ s) zero visited ne = omega arith
unvisited_count-set (visited ∷ s) zero visiting ne = omega arith
unvisited_count-set (visited ∷ s) zero visited ne = omega arith
unvisited_count-set (unvisited ∷ s) (suc i) x ne = omega (arith, unvisited_count-set s i x ne)
unvisited_count-set (visiting ∷ s) (suc i) x ne = unvisited_count-set s i x ne
unvisited_count-set (visited ∷ s) (suc i) x ne = unvisited_count-set s i x ne

pub unvisited_count-visiting :
    (s : List Mark) (i : ℕ)
    → get_or s i visited ≡ unvisited
    → unvisited_count (set s i visiting) < unvisited_count s
unvisited_count-visiting [] i e = cc
unvisited_count-visiting (unvisited ∷ s) zero e = omega arith
unvisited_count-visiting (visiting ∷ s) zero e = cc
unvisited_count-visiting (visited ∷ s) zero e = cc
unvisited_count-visiting (unvisited ∷ s) (suc i) e = omega (arith, unvisited_count-visiting s i e)
unvisited_count-visiting (visiting ∷ s) (suc i) e = unvisited_count-visiting s i e
unvisited_count-visiting (visited ∷ s) (suc i) e = unvisited_count-visiting s i e

-- A mark after one was set.
pub mark-cases :
    (s : List Mark) (i : ℕ) (x : Mark) (j : ℕ)
    → i < length s
    → ((j ≡ i) × (get_or (set s i x) j visited ≡ x))
      ⊎ ((j ≢ i) × (get_or (set s i x) j visited ≡ get_or s j visited))
mark-cases s i x j lt = elim (ℕ_discrete i j) [
  | yes e ↦ inl (sym e, rw (← e) (get_or-set_self s i x visited lt))
  | no ne ↦ inr ((λ e. ne (sym e)), get_or-set_ne s i j x visited ne)
]
