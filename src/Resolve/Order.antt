-- ===== src/Resolve/Order.antt =====
-- `dep_graph_resolve` of src/graph/resolve.c.
use lib_apg.Base.{
  ℕ, zero, suc, get_or, ◌<◌, ◌≡◌, refl, ◌≢◌, ◌⊎◌, inl, inr, List, [], Option, none, some, length,
  arith, replicate, length-replicate, if◌then◌else◌, if_rule, subst, Allocs, granted, later, ◌&&◌,
}
use mathlib.Core.List.{Memᴰ}
use lib_apg.CString.{CStr}
use lib_apg.Graph.{
  DepError, ok, nomem, cycle, missing, conflict, version, DepGraph, dep_graph_lookup,
}
use lib_apg.Graph.Valid.{IsValid, lookup-lt}
use lib_apg.Resolve.{
  Resolved, ordered, refused, stuck, names_of, finish, dep_graph_resolve, unvisited, visiting,
  visited, Dfs, dfs, start,
}
use lib_apg.Resolve.Paths.{
  Reaches, here, HasCycle, HasMissing, HasMismatch, IsTopological, unvisited_count-replicate,
}
use lib_apg.Resolve.Post.{DfsPost}
use lib_apg.Resolve.Search.{Pre, dfs-Post}

start-unvisited : (n j : ℕ) → j < n → get_or (replicate n unvisited) j visited ≡ unvisited
start-unvisited zero j lt = elim lt [ ]
start-unvisited (suc n) zero lt = refl
start-unvisited (suc n) (suc j) lt = start-unvisited n j (omega arith)

start-visiting : (n j : ℕ) → get_or (replicate n unvisited) j visited ≢ visiting
start-visiting zero j e = cc
start-visiting (suc n) zero e = cc
start-visiting (suc n) (suc j) e = start-visiting n j e

module _ (g : DepGraph) where
  -- The names of a topological order of what node `root` reaches, which holds `root`.
  pub record OrderedFrom (pkg_name : CStr) (root : ℕ) (names : List CStr) : Type 0 where
    pub found : dep_graph_lookup g pkg_name ≡ some root
    pub indices : List ℕ
    pub topological : IsTopological g indices
    pub holds_root : Memᴰ root indices
    pub reached : (j : ℕ) → Memᴰ j indices → Reaches g root j
    pub names_eq : names ≡ names_of g indices

  module _ (valid : IsValid g) where
    start-Pre : (root : ℕ) → root < length g.nodes → Pre g valid root (start g) root
    start-Pre root lt = record {
      sound = record {
        size = length-replicate (length g.nodes) unvisited;
        topological = tt;
        order_visited = λ j m. absurd (no_member j m);
        visited_order = λ j ltj v. absurd (all_unvisited j ltj v);
        reached = λ j m. absurd (no_member j m);
      };
      bound = lt;
      reach = here;
      above = λ j v. absurd (start-visiting (length g.nodes) j v);
    }
      where
        no_member : (j : ℕ) → ¬ Memᴰ j []
        no_member j m = elim m [ ]

        all_unvisited :
            (j : ℕ)
            → j < length g.nodes
            → get_or (replicate (length g.nodes) unvisited) j visited ≢ visited
        all_unvisited j ltj v = let u = start-unvisited (length g.nodes) j ltj in cc

    module _ (pkg_name : CStr) where
      abbrev Meaning : Resolved → Type 0
      Meaning (ordered names) = (root : ℕ) × OrderedFrom pkg_name root names
      Meaning (refused ok) = ⊥
      Meaning (refused nomem) = Unit
      Meaning (refused cycle) =
          (root : ℕ) × (dep_graph_lookup g pkg_name ≡ some root) × HasCycle g root
      Meaning (refused missing) =
          (dep_graph_lookup g pkg_name ≡ none)
          ⊎ ((root : ℕ) × (dep_graph_lookup g pkg_name ≡ some root) × HasMissing g root)
      Meaning (refused conflict) = ⊥
      Meaning (refused version) =
          (root : ℕ) × (dep_graph_lookup g pkg_name ≡ some root) × HasMismatch g root
      Meaning stuck = ⊥

      finish-Meaning :
          (root : ℕ) (allocs : Allocs) (r : Option DepError × Dfs)
          → dep_graph_lookup g pkg_name ≡ some root
          → DfsPost g root (start g) root r
          → Meaning (finish g allocs r)
      unfolding finish
      finish-Meaning root allocs (none, c) e h = h
      finish-Meaning root allocs (some ok, c) e h =
          if_rule Meaning (granted allocs)
            (λ _. (
              root,
              record {
                found = e;
                indices = c.order;
                topological = h.0.sound.topological;
                holds_root = h.1;
                reached = h.0.sound.reached;
                names_eq = refl;
              },
            ))
            (λ _. tt)
      finish-Meaning root allocs (some nomem, c) e h = tt
      finish-Meaning root allocs (some cycle, c) e h = (root, e, h)
      finish-Meaning root allocs (some missing, c) e h = inr (root, e, h)
      finish-Meaning root allocs (some conflict, c) e h = h
      finish-Meaning root allocs (some version, c) e h = (root, e, h)

      resolve-Meaning : (allocs : Allocs) → Meaning (dep_graph_resolve g pkg_name allocs)
      unfolding dep_graph_resolve
      resolve-Meaning allocs = by_lookup (dep_graph_lookup g pkg_name) refl
        where
          search : ℕ → Option DepError × Dfs
          search root = dfs g (suc (length g.nodes)) root (start g)

          searched :
              (root : ℕ)
              → dep_graph_lookup g pkg_name ≡ some root
              → DfsPost g root (start g) root (search root)
          searched root e =
              dfs-Post g valid root (suc (length g.nodes)) root (start g)
                (start-Pre root (lookup-lt g valid pkg_name root e))
                (omega (arith, unvisited_count-replicate (length g.nodes)))

          by_lookup :
              (o : Option ℕ)
              → dep_graph_lookup g pkg_name ≡ o
              → Meaning (elim o as (λ _. Resolved) [
                | none ↦ refused missing
                | some root ↦
                    if granted allocs && granted (later allocs)
                    then finish g (later (later allocs)) (search root)
                    else refused nomem
              ])
          by_lookup none e = inl e
          by_lookup (some root) e =
              if_rule Meaning (granted allocs && granted (later allocs))
                (λ _. finish-Meaning root (later (later allocs)) (search root) e (searched root e))
                (λ _. tt)

      -- A successful resolution in a valid graph is an installation order: the names are those of nodes that the
      -- package reaches, its own among them, each once and after nodes that answer all its
      -- dependencies with versions that they accept.
      pub dep_graph_resolve-ordered :
          (allocs : Allocs) (names : List CStr)
          → dep_graph_resolve g pkg_name allocs ≡ ordered names
          → (root : ℕ) × OrderedFrom pkg_name root names
      dep_graph_resolve-ordered allocs names e = subst Meaning e (resolve-Meaning allocs)

      -- A cycle that is reported in a valid graph is one: the package reaches a node that depends, in one step or more, on
      -- itself.
      pub dep_graph_resolve-cycle :
          (allocs : Allocs)
          → dep_graph_resolve g pkg_name allocs ≡ refused cycle
          → (root : ℕ) × (dep_graph_lookup g pkg_name ≡ some root) × HasCycle g root
      dep_graph_resolve-cycle allocs e = subst Meaning e (resolve-Meaning allocs)

      -- If a package is reported missing in a valid graph, it is the package itself, or a dependency of a node that
      -- it reaches.
      pub dep_graph_resolve-missing :
          (allocs : Allocs)
          → dep_graph_resolve g pkg_name allocs ≡ refused missing
          → (dep_graph_lookup g pkg_name ≡ none)
            ⊎ ((root : ℕ) × (dep_graph_lookup g pkg_name ≡ some root) × HasMissing g root)
      dep_graph_resolve-missing allocs e = subst Meaning e (resolve-Meaning allocs)

      -- If a version is reported as rejected in a valid graph, a node that the package reaches has a dependency that
      -- rejects the version of the node that answers it.
      pub dep_graph_resolve-version :
          (allocs : Allocs)
          → dep_graph_resolve g pkg_name allocs ≡ refused version
          → (root : ℕ) × (dep_graph_lookup g pkg_name ≡ some root) × HasMismatch g root
      dep_graph_resolve-version allocs e = subst Meaning e (resolve-Meaning allocs)

      -- In a valid graph the resolver does not run out of fuel: its recursion has a fuel of one more than the
      -- number of nodes.
      pub dep_graph_resolve_terminates :
          (allocs : Allocs) → dep_graph_resolve g pkg_name allocs ≢ stuck
      dep_graph_resolve_terminates allocs e = subst Meaning e (resolve-Meaning allocs)

      -- With enough memory, a package that is found in a valid graph is resolved if nothing that it reaches depends
      -- on itself, on a package that is missing, or on a version that it rejects.
      pub dep_graph_resolve_succeeds :
          (root : ℕ)
          → dep_graph_lookup g pkg_name ≡ some root
          → ¬ HasCycle g root
          → ¬ HasMissing g root
          → ¬ HasMismatch g root
          → (names : List CStr) × (dep_graph_resolve g pkg_name [] ≡ ordered names)
      unfolding dep_graph_resolve finish
      dep_graph_resolve_succeeds root e no_cycle no_missing no_mismatch =
          rw (e, dep_graph_resolve)
            (by_result (dfs g (suc (length g.nodes)) root (start g)) (
              dfs-Post g valid root (suc (length g.nodes)) root (start g)
                (start-Pre root (lookup-lt g valid pkg_name root e))
                (omega (arith, unvisited_count-replicate (length g.nodes)))))
        where
          by_result :
              (r : Option DepError × Dfs)
              → DfsPost g root (start g) root r
              → (names : List CStr) × (finish g [] r ≡ ordered names)
          by_result (none, c) h = absurd h
          by_result (some ok, c) h = (names_of g c.order, refl)
          by_result (some nomem, c) h = absurd h
          by_result (some cycle, c) h = absurd (no_cycle h)
          by_result (some missing, c) h = absurd (no_missing h)
          by_result (some conflict, c) h = absurd h
          by_result (some version, c) h = absurd (no_mismatch h)
