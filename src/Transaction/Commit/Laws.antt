-- ===== src/Transaction/Commit/Laws.antt =====
-- What src/transaction/commit.c relies on in the database, and the steps of a commit that keep it.
use lib_apg.Base.{◌≡◌, refl, ◌∙◌, Bool, List, [], ◌∷◌, Option, none, some, if_rule}
use lib_apg.CString.{CStr}
use lib_apg.Transaction.{PackageFile}
use lib_apg.Transaction.Prepare.{name_or_empty}
use lib_apg.Transaction.Commit.{
  World, JournalOp, unlink_all, unlink_files_of, is_dropped, remove_dropped, remove_dropped_files,
}

module _ {W K B C : Type 0} (os : World W K B C) where
  -- Every name has the same package.
  abbrev pub SameDb : W → W → Type 0
  SameDb w w' = (n : CStr) → os.db_get w n ≡ os.db_get w' n

  abbrev pub SameBut : CStr → W → W → Type 0
  SameBut m w w' = (n : CStr) → ¬ (n ≡ m) → os.db_get w n ≡ os.db_get w' n

  -- A removal succeeds, and a backup can be restored, in which case the name has the package that it had
  -- when the backup was made.
  pub record IsDatabase : Type 0 where
    pub journal_same :
        (w : W) (op : JournalOp) (name : CStr) (version : Option CStr) (ok explicit : Bool)
        → SameDb (os.journal_write w op name version ok explicit) w
    pub unlink_same : (w : W) (path : CStr) → SameDb (os.unlink w path) w
    pub install_same : (w : W) (pkg : PackageFile) → SameDb (os.install_package_in_root w pkg).2 w
    pub install_name :
        (w : W) (pkg : PackageFile)
        → name_or_empty (os.install_package_in_root w pkg).1 ≡ name_or_empty pkg
    pub confs_same : (w : W) (saved : C) → SameDb (os.restore_confs w saved) w
    pub create_same : (w : W) (m : CStr) → SameDb (os.upgrade_backup_create w m).2 w
    pub discard_same : (w : W) (b : B) → SameDb (os.upgrade_backup_discard w b) w
    pub add_but : (w : W) (pkg : PackageFile) → SameBut (name_or_empty pkg) (os.db_add w pkg).1 w
    pub remove_but : (w : W) (m : CStr) → SameBut m (os.db_remove w m).1 w
    pub remove_self : (w : W) (m : CStr) → os.db_get (os.db_remove w m).1 m ≡ none
    pub create_none :
        (w : W) (m : CStr) → (os.upgrade_backup_create w m).1 ≡ none → os.db_get w m ≡ none
    pub restore_self :
        (w w' : W) (m : CStr) (b : B) (pkg : Option PackageFile)
        → (os.upgrade_backup_create w m).1 ≡ some b
        → os.db_get (os.upgrade_backup_restore w' b pkg) m ≡ os.db_get w m
    pub restore_but :
        (w w' : W) (m : CStr) (b : B) (pkg : Option PackageFile)
        → (os.upgrade_backup_create w m).1 ≡ some b
        → SameBut m (os.upgrade_backup_restore w' b pkg) w'

  module _ (laws : IsDatabase) where
    unlink_all_same : (files : List (Option CStr)) (w : W) → SameDb (unlink_all os files w) w
    unfolding unlink_all
    unlink_all_same [] w n = refl
    unlink_all_same (none ∷ files) w n = unlink_all_same files w n
    unlink_all_same (some path ∷ files) w n =
        unlink_all_same files (os.unlink w path) n ∙ laws.unlink_same w path n

    pub unlink_files_same : (pkg : Option PackageFile) (w : W) → SameDb (unlink_files_of os pkg w) w
    unfolding unlink_files_of
    unlink_files_same none w n = refl
    unlink_files_same (some pkg) w n = unlink_all_same pkg.package_files w n

    remove_dropped_same :
        (pkg previous : PackageFile) (files : List (Option CStr)) (w : W)
        → SameDb (remove_dropped os pkg previous files w) w
    unfolding remove_dropped
    remove_dropped_same pkg previous [] w n = refl
    remove_dropped_same pkg previous (none ∷ files) w n = remove_dropped_same pkg previous files w n
    remove_dropped_same pkg previous (some path ∷ files) w n =
        remove_dropped_same pkg previous files _ n
        ∙ if_rule (λ w'. os.db_get w' n ≡ os.db_get w n) (is_dropped os pkg previous path w)
            (λ _. laws.unlink_same w path n) (λ _. refl)

    dropped_from :
        (pkg : PackageFile) (previous : Option PackageFile) (w : W)
        → SameDb (elim previous [ none ↦ w | some p ↦ remove_dropped os pkg p p.package_files w ]) w
    dropped_from pkg none w n = refl
    dropped_from pkg (some p) w n = remove_dropped_same pkg p p.package_files w n

    pub remove_dropped_files_same :
        (pkg : PackageFile) (w : W) → SameDb (remove_dropped_files os pkg w) w
    unfolding remove_dropped_files
    remove_dropped_files_same pkg w = dropped_from pkg (os.db_get w (name_or_empty pkg)) w
