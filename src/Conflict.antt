-- ===== src/Conflict.antt =====
-- Conflicts of a package with installed ones: src/graph/conflict.c.
pub mod Breaks
use lib_apg.Base.{
  ℕ, Bool, true, false, ◌||◌, List, [], ◌∷◌, Option, none, some, get_elem?, if◌then◌else◌, Allocs,
  granted,
}
use lib_apg.CString.{CStr, str_eq}
use lib_apg.Package.{Package}
use lib_apg.Graph.{DepError, nomem, missing, DepGraph, dep_graph_lookup}

unfoldable pub str_list_contains : List CStr → CStr → Bool
str_list_contains [] str = false
str_list_contains (x ∷ xs) str = str_eq x str || str_list_contains xs str

-- The two loops over `provides`: is one of the names in the list?
unfoldable pub contains_any : List CStr → List CStr → Bool
unfolding str_list_contains
contains_any list [] = false
contains_any list (name ∷ names) = str_list_contains list name || contains_any list names

-- `str_list_contains(list, pkg->name)`; the packages of a graph have names.
abbrev pub contains_name : List CStr → Option CStr → Bool
contains_name list none = false
contains_name list (some name) = str_list_contains list name

-- The checks of a new package against the metadata of an installed one.
unfoldable pub clashes : Package → Package → Bool
unfolding contains_any
clashes pkg inst =
    contains_name inst.conflicts pkg.name
    || (contains_any inst.conflicts pkg.provides || contains_any pkg.conflicts inst.provides)

-- The metadata at an index of the graph.
abbrev pub pkg_at : DepGraph → ℕ → Option Package
pkg_at g i = elim (get_elem? g.nodes i) [ none ↦ none | some n ↦ some n.pkg ]

abbrev pub looked_up : DepGraph → CStr → Option Package
looked_up g name = elim (dep_graph_lookup g name) [ none ↦ none | some i ↦ pkg_at g i ]

abbrev pub clashes_found : Package → Option Package → Bool
clashes_found pkg none = false
clashes_found pkg (some inst) = clashes pkg inst

-- `conflict` at the end of the body of the loop.
unfoldable pub is_broken : DepGraph → Package → CStr → Bool
unfolding clashes
is_broken g pkg inst_name =
    str_list_contains pkg.conflicts inst_name || clashes_found pkg (looked_up g inst_name)

-- The loop over `installed`.
unfoldable pub collect : DepGraph → Package → List CStr → List CStr
unfolding is_broken
collect g pkg [] = []
collect g pkg (name ∷ names) =
    let rest = collect g pkg names in if is_broken g pkg name then name ∷ rest else rest

pub data FoundBreaks : Type 0 where
  breaks : List CStr → FoundBreaks
  refused : DepError → FoundBreaks

unfoldable pub find_breaks_of : DepGraph → Option Package → List CStr → Allocs → FoundBreaks
unfolding collect
find_breaks_of g none installed allocs = refused missing
find_breaks_of g (some pkg) installed allocs =
    if granted allocs then breaks (collect g pkg installed) else refused nomem

-- `realloc` to a smaller size changes no entry, and is no failure if it returns NULL.
unfoldable pub dep_graph_find_breaks : DepGraph → CStr → List CStr → Allocs → FoundBreaks
unfolding find_breaks_of
dep_graph_find_breaks g pkg_name installed allocs =
    find_breaks_of g (looked_up g pkg_name) installed allocs
