-- ===== src/Resolve/Post.antt =====
-- The invariant of the search of src/graph/resolve.c, and what a call of `dfs` leaves behind.
use lib_apg.Base.{
  ℕ, ◌≤◌, ◌<◌, ◌≡◌, refl, sym, ◌∙◌, ◌≢◌, inl, inr, List, ◌∷◌, Option, none, some, length, set,
  arith, All, length-set,
}
use mathlib.Core.List.{Memᴰ}
use lib_apg.Package.{DepConstraint}
use lib_apg.Graph.{DepError, ok, nomem, cycle, missing, conflict, version, DepGraph}
use lib_apg.Resolve.{unvisited, visiting, visited, Dfs, mark_at, mark, deps_of}
use lib_apg.Resolve.Paths.{
  Reaches, HasCycle, HasMissing, HasMismatch, Met, IsTopological, unvisited_count,
  unvisited_count-set, mark-cases,
}

module _ (g : DepGraph) (root : ℕ) where
  -- The order is topological and holds the visited nodes, all of which the root reaches.
  pub record IsSound (c : Dfs) : Type 0 where
    pub size : length c.state ≡ length g.nodes
    pub topological : IsTopological g c.order
    pub order_visited : (j : ℕ) → Memᴰ j c.order → mark_at c j ≡ visited
    pub visited_order : (j : ℕ) → j < length g.nodes → mark_at c j ≡ visited → Memᴰ j c.order
    pub reached : (j : ℕ) → Memᴰ j c.order → Reaches g root j

  -- What a successful call changes: it visits more nodes, and leaves no more of them being visited.
  pub record Progress (c c' : Dfs) : Type 0 where
    pub sound : IsSound c'
    pub no_new : (j : ℕ) → mark_at c' j ≡ visiting → mark_at c j ≡ visiting
    pub still : (j : ℕ) → mark_at c j ≡ visiting → mark_at c' j ≡ visiting
    pub kept : (j : ℕ) → Memᴰ j c.order → Memᴰ j c'.order
    pub fewer : unvisited_count c'.state ≤ unvisited_count c.state

  pub Progress-refl : (c : Dfs) → IsSound c → Progress c c
  Progress-refl c h = record {
    sound = h;
    no_new = λ j e. e;
    still = λ j e. e;
    kept = λ j p. p;
    fewer = omega arith;
  }

  pub Progress-trans : {c c' c'' : Dfs} → Progress c c' → Progress c' c'' → Progress c c''
  Progress-trans p q = record {
    sound = q.sound;
    no_new = λ j e. p.no_new j (q.no_new j e);
    still = λ j e. q.still j (p.still j e);
    kept = λ j m. q.kept j (p.kept j m);
    fewer = omega (arith, p.fewer, q.fewer);
  }

  -- The result of a search whose success means `Good`.
  abbrev pub Post : (Dfs → Type 0) → Option DepError × Dfs → Type 0
  Post Good (none, c) = ⊥
  Post Good (some ok, c) = Good c
  Post Good (some nomem, c) = ⊥
  Post Good (some cycle, c) = HasCycle g root
  Post Good (some missing, c) = HasMissing g root
  Post Good (some conflict, c) = ⊥
  Post Good (some version, c) = HasMismatch g root

  abbrev pub DfsPost : Dfs → ℕ → Option DepError × Dfs → Type 0
  DfsPost c i = Post (λ c'. Progress c c' × Memᴰ i c'.order)

  abbrev pub DepsPost : Dfs → List DepConstraint → Option DepError × Dfs → Type 0
  DepsPost c ds = Post (λ c'. Progress c c' × All (Met g c'.order) ds)

  pub Post-map :
      (Good Better : Dfs → Type 0) (r : Option DepError × Dfs)
      → ((c : Dfs) → Good c → Better c)
      → Post Good r
      → Post Better r
  Post-map Good Better (none, c) f h = h
  Post-map Good Better (some ok, c) f h = f c h
  Post-map Good Better (some nomem, c) f h = h
  Post-map Good Better (some cycle, c) f h = h
  Post-map Good Better (some missing, c) f h = h
  Post-map Good Better (some conflict, c) f h = h
  Post-map Good Better (some version, c) f h = h

  -- The node is in the graph, not visited, and marked as being visited.
  module _ (c : Dfs) (i : ℕ) (h : IsSound c) (lt : i < length g.nodes)
      (e : mark_at c i ≡ unvisited) where
    pub mark-IsSound : IsSound (mark i visiting c)
    mark-IsSound = record {
      size = length-set c.state i visiting ∙ h.size;
      topological = h.topological;
      order_visited = λ j m. elim (mark-cases c.state i visiting j (omega (arith, lt, h.size))) [
        | inl (same, f) ↦ let v = h.order_visited j m in cc
        | inr (other, f) ↦ f ∙ h.order_visited j m
      ];
      visited_order = λ j ltj v.
          elim (mark-cases c.state i visiting j (omega (arith, lt, h.size))) [
            | inl (same, f) ↦ cc
            | inr (other, f) ↦ h.visited_order j ltj (sym f ∙ v)
          ];
      reached = h.reached;
    }

  -- The node leaves with its dependencies met.
  abbrev pub leave : ℕ → Dfs → Dfs
  leave i c = record c { state = set c.state i visited; order = i ∷ c.order }

  module _ (c : Dfs) (i : ℕ) (h : IsSound c) (lt : i < length g.nodes) (e : mark_at c i ≡ visiting)
      (reach : Reaches g root i) (met : All (Met g c.order) (deps_of g i)) where
    leave-IsSound : IsSound (leave i c)
    leave-IsSound = record {
      size = length-set c.state i visited ∙ h.size;
      topological = (met, (λ m. absent m), h.topological);
      order_visited = λ j m. elim (mark-cases c.state i visited j (omega (arith, lt, h.size))) [
        | inl (same, f) ↦ f
        | inr (other, f) ↦ f ∙ h.order_visited j (earlier j other m)
      ];
      visited_order = λ j ltj v. elim (mark-cases c.state i visited j (omega (arith, lt, h.size))) [
        | inl (same, f) ↦ Memᴰ.head same
        | inr (other, f) ↦ Memᴰ.tail (h.visited_order j ltj (sym f ∙ v))
      ];
      reached = λ j m. new j m;
    }
      where
        absent : ¬ Memᴰ i c.order
        absent m = let v = h.order_visited i m in cc

        earlier : (j : ℕ) → j ≢ i → Memᴰ j (i ∷ c.order) → Memᴰ j c.order
        earlier j ne (Memᴰ.head p) = absurd (ne p)
        earlier j ne (Memᴰ.tail m) = m

        new : (j : ℕ) → Memᴰ j (i ∷ c.order) → Reaches g root j
        new j (Memᴰ.head p) = rw p reach
        new j (Memᴰ.tail m) = h.reached j m

  -- From the entry of a node to its end.
  pub leave-Progress :
      (c c' : Dfs) (i : ℕ)
      → IsSound c
      → i < length g.nodes
      → mark_at c i ≡ unvisited
      → Reaches g root i
      → Progress (mark i visiting c) c'
      → All (Met g c'.order) (deps_of g i)
      → Progress c (leave i c')
  leave-Progress c c' i h lt e reach p met = record {
    sound = leave-IsSound c' i p.sound lt at_i reach met;
    no_new = λ j v. elim (mark-cases c'.state i visited j size') [
      | inl (same, f) ↦ cc
      | inr (other, f) ↦ elim (mark-cases c.state i visiting j size) [
        | inl (same, q) ↦ absurd (other same)
        | inr (_, q) ↦ sym q ∙ p.no_new j (sym f ∙ v)
      ]
    ];
    still = λ j v. elim (mark-cases c'.state i visited j size') [
      | inl (same, f) ↦ cc
      | inr (other, f) ↦ elim (mark-cases c.state i visiting j size) [
        | inl (same, q) ↦ absurd (other same)
        | inr (_, q) ↦ f ∙ p.still j (q ∙ v)
      ]
    ];
    kept = λ j m. Memᴰ.tail (p.kept j m);
    fewer = omega (
      arith,
      unvisited_count-set c'.state i visited (λ q. cc),
      p.fewer,
      unvisited_count-set c.state i visiting (λ q. cc),
    );
  }
    where
      size' : i < length c'.state
      size' = omega (arith, lt, p.sound.size)

      size : i < length c.state
      size = omega (arith, lt, h.size)

      at_i : mark_at c' i ≡ visiting
      at_i = elim (mark-cases c.state i visiting i size) [
        | inl (_, q) ↦ p.still i q
        | inr (ne, _) ↦ absurd (ne refl)
      ]
