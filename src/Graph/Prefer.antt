-- ===== src/Graph/Prefer.antt =====
-- `dep_graph_prefer` of src/graph/graph.c.
use lib_apg.Base.{
  ℕ, ◌&&◌, List, [], ◌∷◌, ◌++◌, Option, none, some, length, if◌then◌else◌, Allocs, granted, later,
  grow,
}
use lib_apg.CString.{CStr, str_eq}
use lib_apg.Graph.{DepError, ok, nomem, DepGraph, Pref}

-- The loop of `dep_graph_prefer`: an old preference for the alias is overwritten.
unfoldable pub replace_pref : List Pref → CStr → CStr → Option (List Pref)
replace_pref [] alias pkg_name = none
replace_pref (p ∷ ps) alias pkg_name =
    if str_eq p.alias alias
    then some (record p { pkg_name = pkg_name } ∷ ps)
    else elim (replace_pref ps alias pkg_name) [ none ↦ none | some ps' ↦ some (p ∷ ps') ]

unfoldable pub new_pref : DepGraph → CStr → CStr → Option ℕ × Allocs → DepError × DepGraph × Allocs
new_pref g alias pkg_name (none, allocs) = (nomem, g, allocs)
new_pref g alias pkg_name (some cap, allocs) =
    let g' = record g { pref_cap = cap } in
    if granted allocs && granted (later allocs)
    then (
      ok,
      record g' { prefs = g.prefs ++ (record { alias = alias; pkg_name = pkg_name } ∷ []) },
      later (later allocs),
    )
    else (nomem, g', later (later allocs))

unfoldable pub dep_graph_prefer : DepGraph → CStr → CStr → Allocs → DepError × DepGraph × Allocs
unfolding replace_pref new_pref
dep_graph_prefer g alias pkg_name allocs = elim (replace_pref g.prefs alias pkg_name) [
  | some ps ↦
      if granted allocs
      then (ok, record g { prefs = ps }, later allocs)
      else (nomem, g, later allocs)
  | none ↦ new_pref g alias pkg_name (grow (length g.prefs) g.pref_cap 16 allocs)
]
