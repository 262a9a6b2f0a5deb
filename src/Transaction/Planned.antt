-- ===== src/Transaction/Planned.antt =====
-- The second half of `trans_prepare` of src/transaction/prepare.c: the
-- owners of files, and the result.
use lib_apg.Base.{
  ℕ, true, not, ◌&&◌, List, [], ◌∷◌, ◌++◌, Option, none, some, length, map, ltb, if◌then◌else◌,
  Allocs, granted, later, grow,
}
use lib_apg.CString.{CStr, str_eq}
use lib_apg.Graph.{DepGraph, dep_graph_new}
use lib_apg.Transaction.{
  TransError, trans_ok, err_nomem, err_conflict, err_has_dependents, err_file_conflict, err_held,
  PackageFile, Trans,
}
use lib_apg.Transaction.Changes.{plan_upgrades, plan_removals}
use lib_apg.Transaction.Push.{then_trans}
use lib_apg.Transaction.Prepare.{
  Sources, Memory, name_or_empty, fill_graph, plan_installs, find_conflicts,
}

-- The entry stays also if a string cannot be copied.
unfoldable pub push_file_conflict :
    Trans → CStr → CStr → CStr → Option ℕ × Allocs → TransError × Trans × Allocs
push_file_conflict t path name owner (none, allocs) = (err_nomem, t, allocs)
push_file_conflict t path name owner (some cap, allocs) = (
  if granted allocs && granted (later allocs) then trans_ok else err_nomem,
  record t {
    file_conflicts =
        t.file_conflicts
        ++ (record {
          path = if granted allocs then path else [];
          requested_by = if granted (later allocs) then name else [];
          owned_by = owner;
        }
            ∷ []);
    file_conflict_cap = cap;
  },
  later (later allocs),
)

-- A file that another package owns.
unfoldable pub check_path :
    Sources → CStr → Option CStr → Trans → Allocs → TransError × Trans × Allocs
unfolding push_file_conflict
check_path db name none t allocs = (trans_ok, t, allocs)
check_path db name (some path) t allocs = elim (db.db_owner path) [
  | none ↦ (trans_ok, t, allocs)
  | some owner ↦
      if str_eq owner name
      then (trans_ok, t, allocs)
      else push_file_conflict t path name owner
          (grow (length t.file_conflicts) t.file_conflict_cap 4 allocs)
]

unfoldable pub check_paths :
    Sources → CStr → List (Option CStr) → Trans → Allocs → TransError × Trans × Allocs
unfolding check_path
check_paths db name [] t allocs = (trans_ok, t, allocs)
check_paths db name (path ∷ paths) t allocs =
    then_trans (check_path db name path t allocs) (λ t' rest. check_paths db name paths t' rest)

-- The files that are known, and else those that the archive has. The code also keeps those in the package; here
-- only the list is passed on, since nothing in the preparation reads them again.
unfoldable pub files_of : Sources → PackageFile → List (Option CStr)
files_of db p = elim p.package_files [ [] ↦ db.collect_files p | f ∷ fs ↦ f ∷ fs ]

unfoldable pub check_files :
    Sources → List PackageFile → Trans → Allocs → TransError × Trans × Allocs
unfolding check_paths files_of
check_files db [] t allocs = (trans_ok, t, allocs)
check_files db (p ∷ ps) t allocs =
    then_trans (check_paths db (name_or_empty p) (files_of db p) t allocs)
      (λ t' rest. check_files db ps t' rest)

-- The end: what was found decides the result.
unfoldable pub conclude_prepare : Trans → Allocs → TransError × Trans × Allocs
conclude_prepare t allocs =
    if ltb 0 (length t.held_pkgs)
    then (err_held, t, allocs)
    else if ltb 0 (length t.file_conflicts)
    then (err_file_conflict, t, allocs)
    else if ltb 0 (length t.blocked_removes)
    then (err_has_dependents, t, allocs)
    else if ltb 0 (length t.conflicts)
    then (err_conflict, t, allocs)
    else (trans_ok, record t { prepared = true }, allocs)

-- The installations and their conflicts, if any are queued.
unfoldable pub prepare_installs :
    List CStr → DepGraph → Memory → Trans → Allocs → TransError × Trans × Allocs
unfolding plan_installs find_conflicts
prepare_installs installed g memory t allocs =
    if ltb 0 (length t.install_pkgs)
    then then_trans (plan_installs installed g memory t allocs) (λ t' rest.
      if granted rest && granted (later rest)
      then find_conflicts g installed t'.install_pkgs memory.breaking t' (later (later rest))
      else (err_nomem, t', later (later rest)))
    else (trans_ok, t, allocs)

unfoldable pub prepare_with :
    Sources → Memory → Trans → List CStr → Option DepGraph × Allocs → TransError × Trans × Allocs
unfolding fill_graph prepare_installs plan_upgrades plan_removals check_files conclude_prepare
prepare_with db memory t installed (none, allocs) = (err_nomem, t, allocs)
prepare_with db memory t installed (some g, allocs) =
    let (full, rest) = fill_graph db t g allocs in
    then_trans (prepare_installs installed full memory t rest) (λ t1 rest1.
      then_trans (plan_upgrades db t1.upgrade_pkgs t1 rest1) (λ t2 rest2.
        then_trans (plan_removals db t2 rest2) (λ t3 rest3.
          then_trans (check_files db t3.install_pkgs t3 rest3)
            (λ t4 rest4. conclude_prepare t4 rest4))))

-- `installed_names`, which is not allocated without installed packages.
unfoldable pub trans_prepare : Sources → Memory → Trans → TransError × Trans × Allocs
unfolding prepare_with dep_graph_new
trans_prepare db memory t =
    if t.prepared
    then (trans_ok, t, memory.start)
    else if ltb 0 (length db.db_list) && not (granted memory.start)
    then (err_nomem, t, later memory.start)
    else prepare_with db memory t (map name_or_empty db.db_list)
        (dep_graph_new (if ltb 0 (length db.db_list) then later memory.start else memory.start))
