-- ===== src/Transaction/Commit/Upgraded.antt =====
-- The branches of `trans_commit` of src/transaction/commit.c that install and upgrade.
use lib_apg.Base.{
  arith, ℕ, ◌≡◌, refl, sym, subst, ◌∙◌, Bool, true, false, ◌∷◌, Option, none, some, length, set,
  get_or-set_ne, get_or-set_self, length-set, ◌<◌,
}
use lib_apg.Transaction.{err_install_failed, PackageFile, TransStep, Trans}
use lib_apg.Transaction.Prepare.{name_or_empty}
use lib_apg.Transaction.Commit.{World, CommitState}
use lib_apg.Transaction.Commit.Steps.{installed_result, confs_restored, upgraded_result, backed_up}
use lib_apg.Transaction.Commit.Laws.{SameDb, IsDatabase, remove_dropped_files_same}
use lib_apg.Transaction.Commit.Rollback.{
  step_name, GivesBack, IsRevertible-same, IsRevertible-commit, IsRevertible-set,
}
use lib_apg.Transaction.Commit.Restored.{
  IsCurrent, StepPost, IsStarted, IsStarted-same, refuse-StepPost, record_package-StepPost,
}

module _ {W K B C : Type 0} (os : World W K B C) (laws : IsDatabase os) (t : Trans) (kr : Option K)
    (w0 : W) where
  pub installed_result-StepPost :
      (i : ℕ) (s : TransStep) (p : CommitState W B) (r : Bool × PackageFile × W)
      → name_or_empty r.1 ≡ step_name os laws t.plan w0 i
      → SameDb os r.2 p.world
      → IsStarted os laws t kr w0 i p
      → StepPost os laws t kr w0 i (installed_result os t kr i s p r)
  unfolding installed_result
  installed_result-StepPost i s p (true, pkg, w) named same q =
      record_package-StepPost os laws t kr w0 i s pkg (record p { world = w }) named
        (IsStarted-same os laws t kr w0 i p w same q)
  installed_result-StepPost i s p (false, pkg, w) named same q =
      refuse-StepPost os laws t kr w0 i err_install_failed s
        (record p { pkgs = set p.pkgs i (some pkg) }) w refl
        (IsStarted-same os laws t kr w0 i p w same q).revertible

  confs_restored_same : (saved : Option C) (w : W) → SameDb os (confs_restored os t kr saved w) w
  confs_restored_same none w n = refl
  confs_restored_same (some saved) w n = laws.confs_same w saved n

  upgraded_result-StepPost :
      (i : ℕ) (s : TransStep) (saved : Option C) (p : CommitState W B) (r : Bool × PackageFile × W)
      → name_or_empty r.1 ≡ step_name os laws t.plan w0 i
      → SameDb os r.2 p.world
      → IsStarted os laws t kr w0 i p
      → StepPost os laws t kr w0 i (upgraded_result os t kr i s saved p r)
  unfolding upgraded_result
  upgraded_result-StepPost i s saved p (true, pkg, w) named same q =
      record_package-StepPost os laws t kr w0 i s pkg _ named (
        IsStarted-same os laws t kr w0 i p _
          (λ n. remove_dropped_files_same os laws pkg _ n ∙ confs_restored_same saved w n ∙ same n)
          q)
  upgraded_result-StepPost i s saved p (false, pkg, w) named same q =
      refuse-StepPost os laws t kr w0 i err_install_failed s
        (record p { pkgs = set p.pkgs i (some pkg); committed = i ∷ p.committed }) w refl
        (IsRevertible-commit os laws t.plan w0 p.backups i p.committed p.world w q.back
          (λ n differ. same n) q.revertible)

  pub backed_up-StepPost :
      (i : ℕ) (s : TransStep) (pkg : PackageFile) (p : CommitState W B) (r : Bool × Option B × W)
      → i < length t.plan
      → name_or_empty pkg ≡ step_name os laws t.plan w0 i
      → GivesBack os laws t.plan w0 r.1 (step_name os laws t.plan w0 i)
      → SameDb os r.2 p.world
      → IsCurrent os laws t kr w0 i p
      → StepPost os laws t kr w0 i (backed_up os t kr i s pkg p r)
  unfolding backed_up
  backed_up-StepPost i s pkg p (false, backup, w) less named back same q =
      refuse-StepPost os laws t kr w0 i err_install_failed s
        (record p { backups = set p.backups i backup }) w refl
        (IsRevertible-same os laws t.plan w0 (set p.backups i backup) p.committed p.world w same (
          IsRevertible-set os laws t.plan w0 p.backups i backup p.committed p.world q.below
            q.revertible))
  backed_up-StepPost i s pkg p (true, backup, w) less named back same q =
      upgraded_result-StepPost i s (os.save_confs w pkg)
        (record p { world = w; backups = set p.backups i backup })
        (os.install_package_in_root w pkg) (laws.install_name w pkg ∙ named)
        (laws.install_same w pkg)
        (record {
          sized = length-set p.backups i backup ∙ q.sized;
          sized_pkgs = q.sized_pkgs;
          below = q.below;
          revertible =
              IsRevertible-same os laws t.plan w0 (set p.backups i backup) p.committed p.world w
                same
                (IsRevertible-set os laws t.plan w0 p.backups i backup p.committed p.world q.below
                  q.revertible);
          back =
              subst (λ b. GivesBack os laws t.plan w0 b (step_name os laws t.plan w0 i))
                (sym
                  (get_or-set_self p.backups i backup none (subst (λ l. i < l) (sym q.sized) less)))
                back;
          named = q.named;
          unsaved = λ j later.
              get_or-set_ne p.backups i j backup none (λ e. omega arith)
              ∙ q.unsaved j (omega arith);
        })
