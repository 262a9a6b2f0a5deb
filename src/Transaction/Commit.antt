-- ===== src/Transaction/Commit.antt =====
-- What `trans_commit` of src/transaction/commit.c asks of the system, and its rollback.
pub mod Steps
pub mod Run
pub mod DryRun
pub mod Once
pub mod Laws
pub mod Rollback
pub mod Restored
pub mod Upgraded
pub mod Stepped
pub mod Failed
use lib_apg.Base.{
  ℕ, zero, suc, ◌+◌, Bool, true, false, not, ◌&&◌, ◌||◌, List, [], ◌∷◌, ◌++◌, Option, none, some,
  length, get_or, set, replicate, leb, if◌then◌else◌, Allocs, granted, later,
}
use lib_apg.CString.{CStr, str_eq}
use lib_apg.Transaction.{
  TransOp, install, remove, upgrade, TransError, trans_ok, err_nomem, err_not_prepared,
  err_already_committed, err_install_failed, err_unsigned, err_db, err_remove_failed, PackageFile,
  TransStep, Trans,
}
use lib_apg.Transaction.Prepare.{name_or_empty}

-- journal_op_t, as far as a commit writes it.
pub data JournalOp : Type 0 where
  installed removed rolled_back : JournalOp

-- What `trans_commit` asks of the file system, the database, the journal, the scripts and the
-- keys below one root path. `W` is the state of all of them, `K` a keyring, `B` a backup that
-- holds an installed version, and `C` the saved configuration files of a package. The calls on the
-- database write no journal of their own, since `suppress_journal` is set. A file is named by its path below
-- the root; a path that cannot be built is left alone. A keyring and the database are only read by the
-- calls that return no state.
pub record World (W K B C : Type 0) : Type 0 where
  pub keyring_load : W → Option CStr → Option K
  pub keyring_verify : W → K → CStr → CStr → Bool
  pub install_package_in_root : W → PackageFile → Bool × PackageFile × W
  pub db_get : W → CStr → Option PackageFile
  pub db_owner : W → CStr → Option CStr
  pub db_add : W → PackageFile → Bool × W
  pub db_remove : W → CStr → Bool × W
  pub journal_write : W → JournalOp → CStr → Option CStr → Bool → Bool → W
  pub unlink : W → CStr → W
  pub upgrade_backup_create : W → CStr → Bool × Option B × W
  pub upgrade_backup_restore : W → B → Option PackageFile → W
  pub upgrade_backup_discard : W → B → W
  pub save_confs : W → PackageFile → Option C
  pub restore_confs : W → C → W
  pub scripts_store_path : W → CStr → Option CStr
  pub run_script : W → CStr → CStr → Bool × W
  pub scripts_persist_remove : W → CStr → W

-- What the loop over the plan carries: the state, the packages of the plan, whose files an
-- installation fills in, the indices of the committed steps, the last one first, and the backups.
pub record CommitState (W B : Type 0) : Type 0 where
  pub world : W
  pub pkgs : List (Option PackageFile)
  pub committed : List ℕ
  pub backups : List (Option B)

unfoldable pub list_contains : List (Option CStr) → CStr → Bool
list_contains [] item = false
list_contains (none ∷ list) item = list_contains list item
list_contains (some x ∷ list) item = str_eq x item || list_contains list item

module _ {W K B C : Type 0} (os : World W K B C) where
  -- The loops that unlink files; a NULL item is passed over.
  unfoldable pub unlink_all : List (Option CStr) → W → W
  unlink_all [] w = w
  unlink_all (none ∷ files) w = unlink_all files w
  unlink_all (some path ∷ files) w = unlink_all files (os.unlink w path)

  unfoldable pub unlink_files_of : Option PackageFile → W → W
  unfolding unlink_all
  unlink_files_of none w = w
  unlink_files_of (some pkg) w = unlink_all pkg.package_files w

  abbrev pub step_at : List TransStep → ℕ → TransStep
  step_at plan i =
      get_or plan i (record { op = remove; pkg_name = []; pkg_version = none; explicit = false })

  -- One committed step: the old version comes back, or the new one goes.
  unfoldable pub rollback_one : TransStep → Option PackageFile → Option B → W → W
  unfolding unlink_files_of
  rollback_one s pkg (some backup) w =
      os.journal_write (os.upgrade_backup_restore w backup pkg) rolled_back s.pkg_name s.pkg_version
        true false
  rollback_one s pkg none w =
      os.journal_write (os.db_remove (unlink_files_of pkg w) s.pkg_name).1 rolled_back s.pkg_name
        s.pkg_version true false

  -- The loop over `committed_idx`, from its end.
  unfoldable pub rollback_committed :
      List TransStep → List (Option PackageFile) → List (Option B) → List ℕ → W → W
  unfolding rollback_one
  rollback_committed plan pkgs backups [] w = w
  rollback_committed plan pkgs backups (i ∷ is) w =
      rollback_committed plan pkgs backups is
        (rollback_one (step_at plan i) (get_or pkgs i none) (get_or backups i none) w)

  -- A file of the old version that the new one has not, that is no configuration file, and that the
  -- package still owns.
  unfoldable pub is_dropped : PackageFile → PackageFile → CStr → W → Bool
  unfolding list_contains
  is_dropped pkg previous path w =
      (not (list_contains pkg.package_files path) && not (list_contains previous.conf path))
      && (elim (os.db_owner w path) [
        | none ↦ false
        | some owner ↦ str_eq owner (name_or_empty pkg)
      ])

  unfoldable pub remove_dropped : PackageFile → PackageFile → List (Option CStr) → W → W
  unfolding is_dropped
  remove_dropped pkg previous [] w = w
  remove_dropped pkg previous (none ∷ files) w = remove_dropped pkg previous files w
  remove_dropped pkg previous (some path ∷ files) w =
      remove_dropped pkg previous files
        (if is_dropped pkg previous path w then os.unlink w path else w)

  unfoldable pub remove_dropped_files : PackageFile → W → W
  unfolding remove_dropped
  remove_dropped_files pkg w = elim (os.db_get w (name_or_empty pkg)) [
    | none ↦ w
    | some previous ↦ remove_dropped pkg previous previous.package_files w
  ]

  -- The package has a signature by one of the keys. A path of PATH_MAX bytes or more does not fit.
  unfoldable pub is_signed : Option K → PackageFile → W → Bool
  is_signed none pkg w = false
  is_signed (some kr) pkg w = elim pkg.pkg_path [
    | none ↦ false
    | some path ↦
        not (leb 4096 (length path + 4))
        && os.keyring_verify w kr path (path ++ (b'.' ∷ b's' ∷ b'i' ∷ b'g' ∷ []))
  ]
