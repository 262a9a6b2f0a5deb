-- ===== src/Transaction/Commit/Stepped.antt =====
-- The steps of `trans_commit` of src/transaction/commit.c keep what its rollback needs.
use lib_apg.Base.{
  arith, ℕ, ◌≡◌, refl, sym, subst, ◌∙◌, false, not, ◌&&◌, List, [], ◌∷◌, Option, none, some, length,
  All, ◌<◌, if_rule, if◌then◌else◌,
}
use lib_apg.Transaction.{
  TransOp, install, remove, upgrade, trans_ok, err_unsigned, PackageFile, TransStep, Trans,
}
use lib_apg.Transaction.Commit.{World, CommitState, installed, step_at, is_signed}
use lib_apg.Transaction.Commit.Steps.{journal_step, rolled_back_to, commit_install, commit_upgrade}
use lib_apg.Transaction.Commit.Run.{commit_step}
use lib_apg.Transaction.Commit.Laws.{IsDatabase}
use lib_apg.Transaction.Commit.Rollback.{step_name, GivesBack, IsRevertible, IsRevertible-same}
use lib_apg.Transaction.Commit.Restored.{
  IsNamed, IsAllowed, IsPlan, IsCurrent, StepPost, IsStarted, below_suc, rolled_back-StepPost,
}
use lib_apg.Transaction.Commit.Upgraded.{installed_result-StepPost, backed_up-StepPost}

module _ {W K B C : Type 0} (os : World W K B C) (laws : IsDatabase os) (t : Trans) (kr : Option K)
    (w0 : W) (plan : IsPlan os t w0) where
  fresh :
      (i : ℕ) (is : List ℕ)
      → i < length t.plan
      → All (λ j. j < i) is
      → All (λ j. ¬ (step_name os laws t.plan w0 i ≡ step_name os laws t.plan w0 j)) is
  fresh i [] less below = tt
  fresh i (j ∷ is) less below = (plan.1 j i below.0 less, fresh i is less below.1)

  unchanged :
      (i : ℕ) (p : CommitState W B)
      → i < length t.plan
      → IsCurrent os laws t kr w0 i p
      → os.db_get p.world (step_name os laws t.plan w0 i)
        ≡ os.db_get w0 (step_name os laws t.plan w0 i)
  unchanged i p less q = q.revertible.1 _ (fresh i p.committed less q.below)

  created-GivesBack :
      (i : ℕ) (p : CommitState W B) (backup : Option B)
      → i < length t.plan
      → IsCurrent os laws t kr w0 i p
      → (os.upgrade_backup_create p.world (step_name os laws t.plan w0 i)).1 ≡ backup
      → GivesBack os laws t.plan w0 backup (step_name os laws t.plan w0 i)
  created-GivesBack i p none less q e = sym (unchanged i p less q) ∙ laws.create_none _ _ e
  created-GivesBack i p (some b) less q e = λ w pkg. (
    laws.restore_self p.world w _ b pkg e ∙ unchanged i p less q,
    laws.restore_but p.world w _ b pkg e,
  )

  passed :
      (i : ℕ) (p : CommitState W B)
      → IsCurrent os laws t kr w0 i p
      → StepPost os laws t kr w0 i (trans_ok, p)
  passed i p q = (
    λ _. record {
      sized = q.sized;
      sized_pkgs = q.sized_pkgs;
      below = below_suc os laws t kr w0 i p.committed q.below;
      revertible = q.revertible;
      named = q.named;
      unsaved = λ j later. q.unsaved j (omega arith);
    },
    λ bad. cc,
  )

  unsigned :
      (i : ℕ) (s : TransStep) (p : CommitState W B)
      → IsCurrent os laws t kr w0 i p
      → StepPost os laws t kr w0 i (
        err_unsigned,
        rolled_back_to os t kr p
            (if t.dry_run then p.world else journal_step os t kr installed s false p.world),
      )
  unsigned i s p q = rolled_back-StepPost os laws t kr w0 i err_unsigned p _ refl (
      if_rule (IsRevertible os laws t.plan w0 p.backups p.committed) t.dry_run (λ _. q.revertible)
        (λ _.
          IsRevertible-same os laws t.plan w0 p.backups p.committed p.world _
            (λ n. laws.journal_same _ _ _ _ _ _ n) q.revertible))

  starting :
      (i : ℕ) (p : CommitState W B)
      → IsCurrent os laws t kr w0 i p
      → os.db_get w0 (step_name os laws t.plan w0 i) ≡ none
      → IsStarted os laws t kr w0 i p
  starting i p q absent = record {
    sized = q.sized;
    sized_pkgs = q.sized_pkgs;
    below = q.below;
    revertible = q.revertible;
    back =
        subst (λ b. GivesBack os laws t.plan w0 b (step_name os laws t.plan w0 i))
          (sym (q.unsaved i (omega arith))) absent;
    named = q.named;
    unsaved = λ j later. q.unsaved j (omega arith);
  }

  pub commit_step-StepPost :
      (op : TransOp) (i : ℕ) (pkg : Option PackageFile) (p : CommitState W B)
      → i < length t.plan
      → IsAllowed os t w0 op (step_name os laws t.plan w0 i)
      → IsNamed pkg (step_name os laws t.plan w0 i)
      → IsCurrent os laws t kr w0 i p
      → StepPost os laws t kr w0 i (commit_step os t kr op i (step_at os t.plan i) pkg p)
  unfolding commit_step commit_install commit_upgrade
  commit_step-StepPost remove i pkg p less allowed named q = elim allowed [ ]
  commit_step-StepPost op i none p less allowed named q = elim named [ ]
  commit_step-StepPost install i (some pkg) p less allowed named q =
      if_rule (StepPost os laws t kr w0 i)
        (t.require_signature && not (is_signed os kr pkg p.world))
        (λ _. unsigned i (step_at os t.plan i) p q)
        (λ _.
          if_rule (StepPost os laws t kr w0 i) t.dry_run (λ _. passed i p q)
            (λ _.
              installed_result-StepPost os laws t kr w0 i (step_at os t.plan i) p
                (os.install_package_in_root p.world pkg) (laws.install_name p.world pkg ∙ named)
                (laws.install_same p.world pkg) (starting i p q allowed)))
  commit_step-StepPost upgrade i (some pkg) p less allowed named q =
      if_rule (StepPost os laws t kr w0 i)
        (t.require_signature && not (is_signed os kr pkg p.world))
        (λ _. unsigned i (step_at os t.plan i) p q)
        (λ _.
          if_rule (StepPost os laws t kr w0 i) t.dry_run (λ _. passed i p q)
            (λ _.
              backed_up-StepPost os laws t kr w0 i (step_at os t.plan i) pkg p
                (os.upgrade_backup_create p.world (step_name os laws t.plan w0 i)) less named
                (created-GivesBack i p _ less q refl)
                (laws.create_same p.world (step_name os laws t.plan w0 i)) q))
