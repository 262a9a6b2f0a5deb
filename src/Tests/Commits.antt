-- ===== src/Tests/Commits.antt =====
-- Runs of `trans_commit` of src/transaction/commit.c on a system that is its database.
use lib_apg.Base.{◌≡◌, refl, true, false, not, [], ◌∷◌, Option, none, some, if◌then◌else◌}
use lib_apg.CString.{CStr, str_eq}
use lib_apg.Transaction.{
  TransOp, trans_ok, err_already_committed, err_install_failed, PackageFile, TransStep, Trans,
  new_trans, trans_set_dry_run,
}
use lib_apg.Transaction.Prepare.{name_or_empty}
use lib_apg.Transaction.Commit.{World, rollback_committed}
use lib_apg.Transaction.Commit.Run.{trans_commit}
use lib_apg.Transaction.Commit.DryRun.{IsOfChange, trans_commit-IsDryRun}
use lib_apg.Transaction.Commit.Once.{trans_commit_once}
use lib_apg.Tests.Transactions.{lib_name, app_name, lib_package, app_package}

abbrev Store : Type 0
Store = CStr → Option PackageFile

abbrev put : CStr → Option PackageFile → Store → Store
put m pkg w = λ n. if str_eq m n then pkg else w n

abbrev saved_as : CStr → Option PackageFile → Option (CStr × PackageFile)
saved_as m none = none
saved_as m (some pkg) = some (m, pkg)

-- Only the application has files that cannot be installed.
abbrev system : World Store Unit (CStr × PackageFile) Unit
system = record {
  keyring_load = λ w dir. some tt;
  keyring_verify = λ w kr path sig. false;
  install_package_in_root = λ w pkg. (not (str_eq (name_or_empty pkg) app_name), pkg, w);
  db_get = λ w name. w name;
  db_owner = λ w path. none;
  db_add = λ w pkg. (true, put (name_or_empty pkg) (some pkg) w);
  db_remove = λ w name. (true, put name none w);
  journal_write = λ w op name version ok explicit. w;
  unlink = λ w path. w;
  upgrade_backup_create = λ w name. (true, saved_as name (w name), w);
  upgrade_backup_restore = λ w backup pkg. put backup.0 (some backup.1) w;
  upgrade_backup_discard = λ w backup. w;
  save_confs = λ w pkg. none;
  restore_confs = λ w saved. w;
  scripts_store_path = λ w name. none;
  run_script = λ w dir name. (true, w);
  scripts_persist_remove = λ w name. w;
}

abbrev empty : Store
empty = λ n. none

abbrev step : TransOp → CStr → TransStep
step op name = record { op = op; pkg_name = name; pkg_version = none; explicit = true }

abbrev installing : Trans
installing = record new_trans {
  plan = step TransOp.install lib_name ∷ [];
  plan_pkgs = some lib_package ∷ [];
  prepared = true;
}

abbrev failing : Trans
failing = record new_trans {
  plan = step TransOp.install lib_name ∷ step TransOp.install app_name ∷ [];
  plan_pkgs = some lib_package ∷ some app_package ∷ [];
  prepared = true;
}

installing_run : (trans_commit system installing empty []).2 lib_name ≡ some lib_package
unfolding trans_commit rollback_committed str_eq
installing_run = refl

-- The library is committed first, and goes again when the application cannot be installed.
failing_run :
    ((trans_commit system failing empty []).0 ≡ err_install_failed)
    × ((trans_commit system failing empty []).2 lib_name ≡ none)
unfolding trans_commit rollback_committed str_eq
failing_run = (refl, refl)

abbrev upgrading : Trans
upgrading = record failing {
  plan = step TransOp.upgrade lib_name ∷ step TransOp.install app_name ∷ [];
}

abbrev old_store : Store
old_store = put lib_name (some lib_package) empty

trans_commit-IsDryRun_example :
    ((trans_commit system (trans_set_dry_run failing true) empty []).1
      ≡ trans_set_dry_run failing true)
    × ((trans_commit system (trans_set_dry_run failing true) empty []).2 ≡ empty)
    × ¬ IsOfChange (trans_commit system (trans_set_dry_run failing true) empty []).0
trans_commit-IsDryRun_example = trans_commit-IsDryRun system failing empty []

installed_ok : (trans_commit system installing empty []).0 ≡ trans_ok
unfolding trans_commit rollback_committed str_eq
installed_ok = refl

trans_commit_once_example :
    trans_commit system (trans_commit system installing empty []).1 empty []
    ≡ (err_already_committed, (trans_commit system installing empty []).1, empty, [])
trans_commit_once_example = trans_commit_once system installing empty empty [] [] refl installed_ok
