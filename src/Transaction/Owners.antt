-- ===== src/Transaction/Owners.antt =====
-- What empty reports say of the upgrades and of the files of src/transaction/prepare.c.
use lib_apg.Base.{
  ◌≡◌, sym, ◌∙◌, false, List, [], ◌∷◌, Option, none, some, length, All, Allocs, grow, if_rule,
  if◌then◌else◌,
}
use mathlib.Core.Option.{some-injective}
use lib_apg.CString.{CStr, str_eq, str_eq_sound}
use lib_apg.Transaction.{upgrade, TransError, trans_ok, PackageFile, Trans}
use lib_apg.Transaction.Push.{held_push, plan_push}
use lib_apg.Transaction.Prepare.{Sources, name_or_empty}
use lib_apg.Transaction.Changes.{is_held, is_by_hand, plan_upgrades}
use lib_apg.Transaction.Planned.{push_file_conflict, check_path, check_paths, files_of, check_files}
use lib_apg.Transaction.Clear.{
  IsFree, Post, Post-map, then_trans-Post, AnyState, held_push-Post, push_file_conflict-Post,
  plan_push-Post,
}

module _ (db : Sources) where
  pub plan_upgrades-Post :
      (ps : List PackageFile) (t : Trans) (allocs : Allocs)
      → Post
          (All (λ p. is_held (db.db_get (name_or_empty p)) ≡ false) ps)
          t
          (plan_upgrades db ps t allocs)
  unfolding plan_upgrades
  plan_upgrades-Post [] t allocs = λ ok clear. record { before = clear; fact = tt }
  plan_upgrades-Post (p ∷ ps) t allocs =
      then_trans-Post AnyState t _ _ tt
        (if_rule (Post (is_held (db.db_get (name_or_empty p)) ≡ false) t)
          (is_held (db.db_get (name_or_empty p)))
          (λ _.
            Post-map t (held_push t (name_or_empty p) upgrade allocs) (λ e. absurd e)
              (held_push-Post t (name_or_empty p) upgrade allocs))
          (λ free.
            Post-map t
              (plan_push t upgrade (name_or_empty p) p.meta.version
                (is_by_hand (db.db_get (name_or_empty p))) (some p) allocs)
              (λ _. free)
              (plan_push-Post t upgrade (name_or_empty p) p.meta.version
                (is_by_hand (db.db_get (name_or_empty p))) (some p) allocs)))
        (λ t' rest _. plan_upgrades-Post ps t' rest)

  check_path-Post :
      (name : CStr) (path : Option CStr) (t : Trans) (allocs : Allocs)
      → Post (IsFree db name path) t (check_path db name path t allocs)
  unfolding check_path
  check_path-Post name none t allocs = λ ok clear. record { before = clear; fact = tt }
  check_path-Post name (some path) t allocs = by_owner (db.db_owner path)
    where
      by_owner :
          (o : Option CStr)
          → Post
              ((owner : CStr) → o ≡ some owner → owner ≡ name)
              t
              (elim o as (λ _. TransError × Trans × Allocs) [
                | none ↦ (trans_ok, t, allocs)
                | some owner ↦
                    if str_eq owner name
                    then (trans_ok, t, allocs)
                    else push_file_conflict t path name owner
                        (grow (length t.file_conflicts) t.file_conflict_cap 4 allocs)
              ])
      by_owner none = λ ok clear. record { before = clear; fact = λ owner e. cc }
      by_owner (some o) =
          if_rule (Post ((owner : CStr) → some o ≡ some owner → owner ≡ name) t) (str_eq o name)
            (λ same ok clear. record {
              before = clear;
              fact = λ owner e. sym (some-injective o owner e) ∙ str_eq_sound o name same;
            })
            (λ _.
              Post-map t
                (push_file_conflict t path name o
                  (grow (length t.file_conflicts) t.file_conflict_cap 4 allocs))
                (λ no_one. absurd no_one)
                (push_file_conflict-Post t path name o
                  (grow (length t.file_conflicts) t.file_conflict_cap 4 allocs)))

  check_paths-Post :
      (name : CStr) (paths : List (Option CStr)) (t : Trans) (allocs : Allocs)
      → Post (All (IsFree db name) paths) t (check_paths db name paths t allocs)
  unfolding check_paths
  check_paths-Post name [] t allocs = λ ok clear. record { before = clear; fact = tt }
  check_paths-Post name (path ∷ paths) t allocs =
      then_trans-Post AnyState t _ _ tt (check_path-Post name path t allocs)
        (λ t' rest _. check_paths-Post name paths t' rest)

  pub check_files-Post :
      (ps : List PackageFile) (t : Trans) (allocs : Allocs)
      → Post
          (All (λ p. All (IsFree db (name_or_empty p)) (files_of db p)) ps)
          t
          (check_files db ps t allocs)
  unfolding check_files
  check_files-Post [] t allocs = λ ok clear. record { before = clear; fact = tt }
  check_files-Post (p ∷ ps) t allocs =
      then_trans-Post AnyState t _ _ tt
        (check_paths-Post (name_or_empty p) (files_of db p) t allocs)
        (λ t' rest _. check_files-Post ps t' rest)
