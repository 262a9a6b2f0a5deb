-- ===== src/Transaction/Commit/Steps.antt =====
-- The branches of `trans_commit` of src/transaction/commit.c that install and upgrade.
use lib_apg.Base.{ℕ, Bool, true, false, not, ◌&&◌, ◌∷◌, Option, none, some, set, if◌then◌else◌}
use lib_apg.Transaction.{
  TransError, trans_ok, err_install_failed, err_unsigned, err_db, PackageFile, TransStep, Trans,
}
use lib_apg.Transaction.Commit.{
  JournalOp, installed, World, CommitState, rollback_committed, remove_dropped_files, is_signed,
}

module _ {W K B C : Type 0} (os : World W K B C) (t : Trans) (kr : Option K) where
  -- The entry in the journal for a step that failed or succeeded.
  abbrev pub journal_step : JournalOp → TransStep → Bool → W → W
  journal_step op s ok w = os.journal_write w op s.pkg_name s.pkg_version ok s.explicit

  -- `rollback_with_error`, whose text is left out.
  abbrev pub rolled_back_to : CommitState W B → W → CommitState W B
  rolled_back_to p w = record p {
    world = rollback_committed os t.plan p.pkgs p.backups p.committed w;
  }

  abbrev pub refuse : TransError → TransStep → CommitState W B → W → TransError × CommitState W B
  refuse e s p w = (e, rolled_back_to p (journal_step installed s false w))

  -- `db_add`, after which the step counts as committed whether it succeeds or not.
  unfoldable pub record_package :
      ℕ → TransStep → PackageFile → CommitState W B → TransError × CommitState W B
  record_package i s pkg p =
      let p' = record p {
        pkgs = set p.pkgs i (some (record pkg { installed_by_hand = s.explicit }));
        committed = i ∷ p.committed;
      } in
      let (ok, w) = os.db_add p.world (record pkg { installed_by_hand = s.explicit }) in
      if ok
      then (trans_ok, record p' { world = journal_step installed s true w })
      else refuse err_db s p' w

  unfoldable pub installed_result :
      ℕ → TransStep → CommitState W B → Bool × PackageFile × W → TransError × CommitState W B
  unfolding record_package
  installed_result i s p (true, pkg, w) = record_package i s pkg (record p { world = w })
  installed_result i s p (false, pkg, w) =
      refuse err_install_failed s (record p { pkgs = set p.pkgs i (some pkg) }) w

  unfoldable pub commit_install :
      ℕ → TransStep → PackageFile → CommitState W B → TransError × CommitState W B
  unfolding installed_result is_signed
  commit_install i s pkg p =
      if t.require_signature && not (is_signed os kr pkg p.world)
      then (
        err_unsigned,
        rolled_back_to p (if t.dry_run then p.world else journal_step installed s false p.world),
      )
      else if t.dry_run
      then (trans_ok, p)
      else installed_result i s p (os.install_package_in_root p.world pkg)

  abbrev pub confs_restored : Option C → W → W
  confs_restored none w = w
  confs_restored (some saved) w = os.restore_confs w saved

  -- After the installation of an upgrade, which counts as committed also if it failed.
  unfoldable pub upgraded_result :
      ℕ
      → TransStep
      → Option C
      → CommitState W B
      → Bool × PackageFile × W
      → TransError × CommitState W B
  unfolding record_package remove_dropped_files
  upgraded_result i s saved p (true, pkg, w) =
      record_package i s pkg
        (record p { world = remove_dropped_files os pkg (confs_restored saved w) })
  upgraded_result i s saved p (false, pkg, w) =
      refuse err_install_failed s
        (record p { pkgs = set p.pkgs i (some pkg); committed = i ∷ p.committed }) w

  unfoldable pub backed_up :
      ℕ
      → TransStep
      → PackageFile
      → CommitState W B
      → Bool × Option B × W
      → TransError × CommitState W B
  unfolding upgraded_result
  backed_up i s pkg p (false, backup, w) =
      refuse err_install_failed s (record p { backups = set p.backups i backup }) w
  backed_up i s pkg p (true, backup, w) =
      upgraded_result i s (os.save_confs w pkg)
        (record p { world = w; backups = set p.backups i backup })
        (os.install_package_in_root w pkg)

  unfoldable pub commit_upgrade :
      ℕ → TransStep → PackageFile → CommitState W B → TransError × CommitState W B
  unfolding backed_up is_signed
  commit_upgrade i s pkg p =
      if t.require_signature && not (is_signed os kr pkg p.world)
      then (
        err_unsigned,
        rolled_back_to p (if t.dry_run then p.world else journal_step installed s false p.world),
      )
      else if t.dry_run
      then (trans_ok, p)
      else backed_up i s pkg p (os.upgrade_backup_create p.world s.pkg_name)
