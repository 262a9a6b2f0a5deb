-- ===== src/Transaction/Queue.antt =====
-- The operations of src/transaction/transaction.c that queue packages and preferences.
use lib_apg.Base.{
  ℕ, ◌*◌, Bool, true, false, ◌&&◌, List, [], ◌∷◌, ◌++◌, Option, none, some, length, ◌==◌,
  if◌then◌else◌, Allocs, granted, later, grow,
}
use lib_apg.CString.{CStr, str_eq}
use lib_apg.Transaction.{TransError, trans_ok, err_nomem, PackageFile, ProviderPref, Trans}

-- Room for one more element; the capacity is never 0. `none` is a failing realloc.
unfoldable pub double : ℕ → ℕ → Allocs → Option ℕ × Allocs
double count cap allocs =
    if count == cap
    then if granted allocs then (some (cap * 2), later allocs) else (none, later allocs)
    else (some cap, allocs)

-- `pkg->meta->name` is NULL.
abbrev pub is_unnamed : PackageFile → Bool
is_unnamed pkg = elim pkg.meta.name [ none ↦ true | some _ ↦ false ]

unfoldable pub push_install : Trans → PackageFile → Option ℕ × Allocs → TransError × Trans × Allocs
push_install t pkg (none, allocs) = (err_nomem, t, allocs)
push_install t pkg (some cap, allocs) =
    (trans_ok, record t { install_pkgs = t.install_pkgs ++ (pkg ∷ []); install_cap = cap }, allocs)

unfoldable pub trans_add_install : Trans → PackageFile → Allocs → TransError × Trans × Allocs
unfolding push_install double
trans_add_install t pkg allocs =
    if is_unnamed pkg
    then (err_nomem, t, allocs)
    else push_install t pkg (double (length t.install_pkgs) t.install_cap allocs)

unfoldable pub push_candidate :
    Trans → PackageFile → Option ℕ × Allocs → TransError × Trans × Allocs
push_candidate t pkg (none, allocs) = (err_nomem, t, allocs)
push_candidate t pkg (some cap, allocs) = (
  trans_ok,
  record t { candidate_pkgs = t.candidate_pkgs ++ (pkg ∷ []); candidate_cap = cap },
  allocs,
)

unfoldable pub trans_add_candidate : Trans → PackageFile → Allocs → TransError × Trans × Allocs
unfolding push_candidate double
trans_add_candidate t pkg allocs =
    if is_unnamed pkg
    then (err_nomem, t, allocs)
    else push_candidate t pkg (double (length t.candidate_pkgs) t.candidate_cap allocs)

unfoldable pub push_upgrade : Trans → PackageFile → Option ℕ × Allocs → TransError × Trans × Allocs
push_upgrade t pkg (none, allocs) = (err_nomem, t, allocs)
push_upgrade t pkg (some cap, allocs) =
    (trans_ok, record t { upgrade_pkgs = t.upgrade_pkgs ++ (pkg ∷ []); upgrade_cap = cap }, allocs)

unfoldable pub trans_add_upgrade : Trans → PackageFile → Allocs → TransError × Trans × Allocs
unfolding push_upgrade double
trans_add_upgrade t pkg allocs =
    if is_unnamed pkg
    then (err_nomem, t, allocs)
    else push_upgrade t pkg (double (length t.upgrade_pkgs) t.upgrade_cap allocs)

-- The array keeps its new size also if the name cannot be copied.
unfoldable pub push_remove : Trans → CStr → Option ℕ × Allocs → TransError × Trans × Allocs
push_remove t name (none, allocs) = (err_nomem, t, allocs)
push_remove t name (some cap, allocs) =
    let t' = record t { remove_cap = cap } in
    if granted allocs
    then (trans_ok, record t' { remove_names = t.remove_names ++ (name ∷ []) }, later allocs)
    else (err_nomem, t', later allocs)

unfoldable pub trans_add_remove : Trans → CStr → Allocs → TransError × Trans × Allocs
unfolding push_remove double
trans_add_remove t name allocs =
    push_remove t name (double (length t.remove_names) t.remove_cap allocs)

-- The loop of `trans_prefer_provider`: an old preference for the alias is overwritten.
unfoldable pub replace_provider : List ProviderPref → CStr → CStr → Option (List ProviderPref)
replace_provider [] alias pkg_name = none
replace_provider (p ∷ ps) alias pkg_name =
    let rest = replace_provider ps alias pkg_name in
    if str_eq p.alias alias
    then some (record p { pkg_name = pkg_name } ∷ ps)
    else elim rest [ none ↦ none | some ps' ↦ some (p ∷ ps') ]

unfoldable pub new_provider : Trans → CStr → CStr → Option ℕ × Allocs → Trans × Allocs
new_provider t alias pkg_name (none, allocs) = (t, allocs)
new_provider t alias pkg_name (some cap, allocs) =
    let t' = record t { provider_pref_cap = cap } in
    (
      if granted allocs && granted (later allocs)
          then record t' {
            provider_prefs =
                t.provider_prefs ++ (record { alias = alias; pkg_name = pkg_name } ∷ []);
          }
          else t',
      later (later allocs),
    )

unfoldable pub trans_prefer_provider : Trans → CStr → CStr → Allocs → Trans × Allocs
unfolding replace_provider new_provider
trans_prefer_provider t alias pkg_name allocs =
    elim (replace_provider t.provider_prefs alias pkg_name) [
      | some ps ↦ (if granted allocs then record t { provider_prefs = ps } else t, later allocs)
      | none ↦
          new_provider t alias pkg_name
            (grow (length t.provider_prefs) t.provider_pref_cap 4 allocs)
    ]
