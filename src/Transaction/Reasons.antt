-- ===== src/Transaction/Reasons.antt =====
-- Every phase of `trans_prepare` of src/transaction/prepare.c but the removals adds justified steps only.
use lib_apg.Base.{
  ◌≡◌, refl, sym, ◌∙◌, Bool, true, false, ◌&&◌, ◌||◌, List, [], ◌∷◌, Option, none, some, length,
  map, All, subst, Allocs, granted, later, grow, if_rule, if◌then◌else◌, ltb,
}
use lib_apg.CString.{CStr, str_eq, str_eq_refl}
use lib_apg.Graph.{DepError, DepGraph}
use lib_apg.Resolve.{Resolved, ordered, refused, stuck}
use lib_apg.Resolve.Runs.{dep_graph_resolve_parallel}
use lib_apg.Conflict.{FoundBreaks, breaks, dep_graph_find_breaks}
use lib_apg.Transaction.{install, upgrade, TransError, PackageFile, Trans}
use lib_apg.Transaction.Push.{
  in_strarray, then_trans, held_push, plan_has, plan_push, is_explicit, conflict_push,
}
use lib_apg.Transaction.Prepare.{
  Sources, Memory, name_or_empty, plan_queued, step_pkg, plan_order, plan_resolved, resolve_tasks,
  plan_installs, push_breaks, push_found, find_conflicts,
}
use lib_apg.Transaction.Changes.{is_held, is_by_hand, plan_upgrades}
use lib_apg.Transaction.Planned.{
  push_file_conflict, check_path, check_paths, files_of, check_files, prepare_installs,
}
use lib_apg.Transaction.Justified.{
  Reached, then_trans-Reached, held_push-Reached, plan_push-Reached, conflict_push-Reached,
  push_file_conflict-Reached,
}

or-false : (a b : Bool) → (a || b) ≡ false → a ≡ false
or-false true b e = cc
or-false false b e = refl

or-false_right : (a b : Bool) → (a || b) ≡ false → b ≡ false
or-false_right true b e = cc
or-false_right false b e = e

not_in_strarray :
    (ps : List PackageFile) (name : CStr)
    → in_strarray (map name_or_empty ps) name ≡ false
    → All (λ p. ¬ (name_or_empty p ≡ name)) ps
unfolding in_strarray
not_in_strarray [] name e = tt
not_in_strarray (p ∷ ps) name e = (
  λ same. differ (
      sym (or-false (str_eq (name_or_empty p) name) (in_strarray (map name_or_empty ps) name) e)
      ∙ subst (λ n. str_eq (name_or_empty p) n ≡ true) same (str_eq_refl (name_or_empty p))),
  not_in_strarray ps name
      (or-false_right (str_eq (name_or_empty p) name) (in_strarray (map name_or_empty ps) name) e),
)
  where
    differ : ¬ (false ≡ true)
    differ q = cc

module _ (db : Sources) (t0 : Trans) where
  abbrev installed : List CStr
  installed = map name_or_empty db.db_list

  plan_queued-Reached :
      (ps : List PackageFile) (t : Trans) (allocs : Allocs)
      → Reached db t0 t
      → Reached db t0 (plan_queued installed ps t allocs).1
  unfolding plan_queued
  plan_queued-Reached [] t allocs h = h
  plan_queued-Reached (p ∷ ps) t allocs h =
      by_known (in_strarray installed (name_or_empty p) || plan_has t (name_or_empty p)) refl
        (plan_queued-Reached ps t allocs h) (λ t' rest h'. plan_queued-Reached ps t' rest h')
    where
      by_known :
          (b : Bool)
          → (in_strarray installed (name_or_empty p) || plan_has t (name_or_empty p)) ≡ b
          → Reached db t0 (plan_queued installed ps t allocs).1
          → ((t' : Trans) (rest : Allocs)
              → Reached db t0 t'
              → Reached db t0 (plan_queued installed ps t' rest).1)
          → Reached db t0
              (elim b as (λ _. TransError × Trans × Allocs) [
                | true ↦ plan_queued installed ps t allocs
                | false ↦
                    then_trans
                      (plan_push t install (name_or_empty p) p.meta.version true (some p) allocs)
                      (λ t' rest. plan_queued installed ps t' rest)
              ]).1
      by_known true e skipped rec = skipped
      by_known false e skipped rec =
          then_trans-Reached db t0
            (plan_push t install (name_or_empty p) p.meta.version true (some p) allocs)
            (λ t' rest. plan_queued installed ps t' rest)
            (plan_push-Reached db t0 t h install (name_or_empty p) p.meta.version true (some p)
              allocs
              (not_in_strarray db.db_list (name_or_empty p) (
                or-false (in_strarray installed (name_or_empty p)) (plan_has t (name_or_empty p))
                  e)))
            rec

  plan_order-Reached :
      (order : List CStr) (t : Trans) (allocs : Allocs)
      → Reached db t0 t
      → Reached db t0 (plan_order installed order t allocs).1
  unfolding plan_order
  plan_order-Reached [] t allocs h = h
  plan_order-Reached (name ∷ order) t allocs h =
      by_known (in_strarray installed name || plan_has t name) refl
        (plan_order-Reached order t allocs h) (λ t' rest h'. plan_order-Reached order t' rest h')
    where
      by_pkg :
          (o : Option PackageFile)
          → in_strarray installed name ≡ false
          → Reached db t0 (plan_order installed order t allocs).1
          → ((t' : Trans) (rest : Allocs)
              → Reached db t0 t'
              → Reached db t0 (plan_order installed order t' rest).1)
          → Reached db t0
              (elim o as (λ _. TransError × Trans × Allocs) [
                | none ↦ plan_order installed order t allocs
                | some p ↦
                    then_trans
                      (plan_push t install name p.meta.version (is_explicit t name) (some p) allocs)
                      (λ t' rest. plan_order installed order t' rest)
              ]).1
      by_pkg none e skipped rec = skipped
      by_pkg (some p) e skipped rec =
          then_trans-Reached db t0
            (plan_push t install name p.meta.version (is_explicit t name) (some p) allocs)
            (λ t' rest. plan_order installed order t' rest)
            (plan_push-Reached db t0 t h install name p.meta.version (is_explicit t name) (some p)
              allocs (not_in_strarray db.db_list name e))
            rec

      by_known :
          (b : Bool)
          → (in_strarray installed name || plan_has t name) ≡ b
          → Reached db t0 (plan_order installed order t allocs).1
          → ((t' : Trans) (rest : Allocs)
              → Reached db t0 t'
              → Reached db t0 (plan_order installed order t' rest).1)
          → Reached db t0
              (elim b as (λ _. TransError × Trans × Allocs) [
                | true ↦ plan_order installed order t allocs
                | false ↦ elim (step_pkg t name) as (λ _. TransError × Trans × Allocs) [
                  | none ↦ plan_order installed order t allocs
                  | some p ↦
                      then_trans
                        (plan_push t install name p.meta.version
                          (is_explicit t name)
                          (some p)
                          allocs)
                        (λ t' rest. plan_order installed order t' rest)
                ]
              ]).1
      by_known true e skipped rec = skipped
      by_known false e skipped rec =
          by_pkg (step_pkg t name) (or-false (in_strarray installed name) (plan_has t name) e)
            skipped rec

  plan_resolved-Reached :
      (r : Resolved) (t : Trans) (allocs : Allocs)
      → Reached db t0 t
      → Reached db t0 (plan_resolved installed r t allocs).1
  unfolding plan_resolved
  plan_resolved-Reached (ordered order) t allocs h = plan_order-Reached order t allocs h
  plan_resolved-Reached (refused DepError.cycle) t allocs h = h
  plan_resolved-Reached (refused DepError.missing) t allocs h = h
  plan_resolved-Reached (refused DepError.version) t allocs h = h
  plan_resolved-Reached (refused DepError.nomem) t allocs h = h
  plan_resolved-Reached (refused DepError.conflict) t allocs h = h
  plan_resolved-Reached (refused DepError.ok) t allocs h = h
  plan_resolved-Reached stuck t allocs h = h

  pub plan_installs-Reached :
      (g : DepGraph) (memory : Memory) (t : Trans) (allocs : Allocs)
      → Reached db t0 t
      → Reached db t0 (plan_installs installed g memory t allocs).1
  unfolding plan_installs
  plan_installs-Reached g memory t allocs h =
      if_rule (λ (q : TransError × Trans × Allocs). Reached db t0 q.1) t.skip_dependency_check
        (λ _. plan_queued-Reached t.install_pkgs t allocs h)
        (λ _.
          if_rule (λ (q : TransError × Trans × Allocs). Reached db t0 q.1) (granted allocs)
            (λ _.
              plan_resolved-Reached
                (dep_graph_resolve_parallel g
                  (resolve_tasks (map name_or_empty t.install_pkgs) memory.resolving)
                  memory.merging)
                t memory.rest h)
            (λ _. h))

  push_breaks-Reached :
      (name : CStr) (bs : List CStr) (t : Trans) (allocs : Allocs)
      → Reached db t0 t
      → Reached db t0 (push_breaks name bs t allocs).1
  unfolding push_breaks
  push_breaks-Reached name [] t allocs h = h
  push_breaks-Reached name (b ∷ bs) t allocs h =
      then_trans-Reached db t0 (conflict_push t name b allocs)
        (λ t' rest. push_breaks name bs t' rest) (conflict_push-Reached db t0 t h name b allocs)
        (λ t' rest h'. push_breaks-Reached name bs t' rest h')

  push_found-Reached :
      (name : CStr) (f : FoundBreaks) (t : Trans) (allocs : Allocs)
      → Reached db t0 t
      → Reached db t0 (push_found name f t allocs).1
  unfolding push_found
  push_found-Reached name (breaks bs) t allocs h = push_breaks-Reached name bs t allocs h
  push_found-Reached name (FoundBreaks.refused e) t allocs h = h

  find_conflicts-Reached :
      (g : DepGraph) (ps : List PackageFile) (ms : List Allocs) (t : Trans) (allocs : Allocs)
      → Reached db t0 t
      → Reached db t0 (find_conflicts g installed ps ms t allocs).1
  unfolding find_conflicts
  find_conflicts-Reached g [] ms t allocs h = h
  find_conflicts-Reached g (p ∷ ps) [] t allocs h =
      then_trans-Reached db t0
        (push_found (name_or_empty p) (dep_graph_find_breaks g (name_or_empty p) installed []) t
          allocs)
        (λ t' rest. find_conflicts g installed ps [] t' rest)
        (push_found-Reached (name_or_empty p)
          (dep_graph_find_breaks g (name_or_empty p) installed []) t allocs h)
        (λ t' rest h'. find_conflicts-Reached g ps [] t' rest h')
  find_conflicts-Reached g (p ∷ ps) (m ∷ ms) t allocs h =
      then_trans-Reached db t0
        (push_found (name_or_empty p) (dep_graph_find_breaks g (name_or_empty p) installed m) t
          allocs)
        (λ t' rest. find_conflicts g installed ps ms t' rest)
        (push_found-Reached (name_or_empty p)
          (dep_graph_find_breaks g (name_or_empty p) installed m) t allocs h)
        (λ t' rest h'. find_conflicts-Reached g ps ms t' rest h')

  pub prepare_installs-Reached :
      (g : DepGraph) (memory : Memory) (t : Trans) (allocs : Allocs)
      → Reached db t0 t
      → Reached db t0 (prepare_installs installed g memory t allocs).1
  unfolding prepare_installs
  prepare_installs-Reached g memory t allocs h =
      if_rule (λ (q : TransError × Trans × Allocs). Reached db t0 q.1)
        (ltb 0 (length t.install_pkgs))
        (λ _.
          then_trans-Reached db t0 (plan_installs installed g memory t allocs)
            (λ t' rest.
              if granted rest && granted (later rest)
              then find_conflicts g installed t'.install_pkgs memory.breaking t'
                  (later (later rest))
              else (TransError.err_nomem, t', later (later rest)))
            (plan_installs-Reached g memory t allocs h)
            (λ t' rest h'.
              if_rule (λ (q : TransError × Trans × Allocs). Reached db t0 q.1)
                (granted rest && granted (later rest))
                (λ _.
                  find_conflicts-Reached g t'.install_pkgs memory.breaking t' (later (later rest))
                    h')
                (λ _. h')))
        (λ _. h)

  pub plan_upgrades-Reached :
      (ps : List PackageFile) (t : Trans) (allocs : Allocs)
      → Reached db t0 t
      → Reached db t0 (plan_upgrades db ps t allocs).1
  unfolding plan_upgrades
  plan_upgrades-Reached [] t allocs h = h
  plan_upgrades-Reached (p ∷ ps) t allocs h =
      let old = db.db_get (name_or_empty p) in
      then_trans-Reached db t0
        (if is_held old
          then held_push t (name_or_empty p) upgrade allocs
          else plan_push t upgrade (name_or_empty p) p.meta.version (is_by_hand old) (some p)
              allocs)
        (λ t' rest. plan_upgrades db ps t' rest)
        (if_rule (λ (q : TransError × Trans × Allocs). Reached db t0 q.1) (is_held old)
          (λ _. held_push-Reached db t0 t h (name_or_empty p) upgrade allocs)
          (λ e.
            plan_push-Reached db t0 t h upgrade (name_or_empty p) p.meta.version (is_by_hand old)
              (some p) allocs e))
        (λ t' rest h'. plan_upgrades-Reached ps t' rest h')

  check_path-Reached :
      (name : CStr) (path : Option CStr) (t : Trans) (allocs : Allocs)
      → Reached db t0 t
      → Reached db t0 (check_path db name path t allocs).1
  unfolding check_path
  check_path-Reached name none t allocs h = h
  check_path-Reached name (some path) t allocs h = by_owner (db.db_owner path)
    where
      by_owner :
          (o : Option CStr)
          → Reached db t0
              (elim o as (λ _. TransError × Trans × Allocs) [
                | none ↦ (TransError.trans_ok, t, allocs)
                | some owner ↦
                    if str_eq owner name
                    then (TransError.trans_ok, t, allocs)
                    else push_file_conflict t path name owner
                        (grow (length t.file_conflicts) t.file_conflict_cap 4 allocs)
              ]).1
      by_owner none = h
      by_owner (some owner) =
          if_rule (λ (q : TransError × Trans × Allocs). Reached db t0 q.1) (str_eq owner name)
            (λ _. h)
            (λ _.
              push_file_conflict-Reached db t0 t h path name owner
                (grow (length t.file_conflicts) t.file_conflict_cap 4 allocs))

  check_paths-Reached :
      (name : CStr) (paths : List (Option CStr)) (t : Trans) (allocs : Allocs)
      → Reached db t0 t
      → Reached db t0 (check_paths db name paths t allocs).1
  unfolding check_paths
  check_paths-Reached name [] t allocs h = h
  check_paths-Reached name (path ∷ paths) t allocs h =
      then_trans-Reached db t0 (check_path db name path t allocs)
        (λ t' rest. check_paths db name paths t' rest) (check_path-Reached name path t allocs h)
        (λ t' rest h'. check_paths-Reached name paths t' rest h')

  pub check_files-Reached :
      (ps : List PackageFile) (t : Trans) (allocs : Allocs)
      → Reached db t0 t
      → Reached db t0 (check_files db ps t allocs).1
  unfolding check_files
  check_files-Reached [] t allocs h = h
  check_files-Reached (p ∷ ps) t allocs h =
      then_trans-Reached db t0 (check_paths db (name_or_empty p) (files_of db p) t allocs)
        (λ t' rest. check_files db ps t' rest)
        (check_paths-Reached (name_or_empty p) (files_of db p) t allocs h)
        (λ t' rest h'. check_files-Reached ps t' rest h')
