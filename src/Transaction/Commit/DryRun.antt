-- ===== src/Transaction/Commit/DryRun.antt =====
-- A dry run of `trans_commit` of src/transaction/commit.c.
use lib_apg.Base.{
  ℕ, zero, suc, ◌≡◌, refl, sym, subst, true, not, ◌&&◌, List, [], ◌∷◌, Option, none, some, length,
  replicate, get_or, if_rule, Allocs,
}
use lib_apg.CString.{CStr}
use lib_apg.Transaction.{
  TransOp, install, remove, upgrade, TransError, err_install_failed, err_db, err_remove_failed,
  PackageFile, TransStep, Trans, trans_set_dry_run,
}
use lib_apg.Transaction.Commit.{World, CommitState, rollback_committed, is_signed}
use lib_apg.Transaction.Commit.Steps.{commit_install, commit_upgrade}
use lib_apg.Transaction.Commit.Run.{
  commit_arrays, pre_removed, db_removed, removed_result, commit_remove, commit_no_package,
  commit_step, commit_steps, is_ok, discard_all, release_commit, commit_plan, commit_signed,
  with_keyring, trans_commit,
}

-- An error of a step that changes the system.
abbrev pub IsOfChange : TransError → Type 0
IsOfChange err_install_failed = Unit
IsOfChange err_db = Unit
IsOfChange err_remove_failed = Unit
IsOfChange e = ⊥

module _ {W K B C : Type 0} (os : World W K B C) where
  pub discard_all-replicate : (n : ℕ) (w : W) → discard_all os (replicate n none) w ≡ w
  unfolding discard_all
  discard_all-replicate zero w = refl
  discard_all-replicate (suc n) w = discard_all-replicate n w

  -- What a dry run leaves as it was.
  abbrev Unspent : Trans → W → TransError × Trans × W × Allocs → Type 0
  Unspent t w r = (r.1 ≡ trans_set_dry_run t true) × (r.2 ≡ w) × ¬ IsOfChange r.0

  module _ (t : Trans) (kr : Option K) where
    abbrev pub idle : W → List (Option PackageFile) → List (Option B) → CommitState W B
    idle w pkgs backups = record { world = w; pkgs = pkgs; committed = []; backups = backups }

    -- The result of steps that change nothing.
    abbrev pub IsIdle : CommitState W B → TransError × CommitState W B → Type 0
    IsIdle p r = (r.1 ≡ p) × ¬ IsOfChange r.0

    abbrev pub dry : Trans
    dry = trans_set_dry_run t true

    removed_result-IsIdle :
        (s : TransStep) (w : W) (pkgs : List (Option PackageFile)) (backups : List (Option B))
        (installed : Option PackageFile) (dir : Option CStr)
        → IsIdle (idle w pkgs backups) (
            removed_result os dry kr s installed dir
              (idle w pkgs backups)
              (db_removed os dry kr s (pre_removed os dry kr dir w)))
    unfolding removed_result trans_set_dry_run
    removed_result-IsIdle s w pkgs backups installed none = (refl, λ e. e)
    removed_result-IsIdle s w pkgs backups installed (some dir) = (refl, λ e. e)

    -- Each branch of a dry run.
    commit_step-IsIdle :
        (op : TransOp) (i : ℕ) (s : TransStep) (pkg : Option PackageFile) (w : W)
        (pkgs : List (Option PackageFile)) (backups : List (Option B))
        → IsIdle (idle w pkgs backups) (commit_step os dry kr op i s pkg (idle w pkgs backups))
    unfolding commit_step commit_install commit_upgrade commit_remove commit_no_package
        rollback_committed trans_set_dry_run
    commit_step-IsIdle remove i s pkg w pkgs backups =
        removed_result-IsIdle s w pkgs backups (os.db_get w s.pkg_name)
          (os.scripts_store_path w s.pkg_name)
    commit_step-IsIdle install i s none w pkgs backups =
        if_rule (IsIdle (idle w pkgs backups)) (not t.require_signature) (λ _. (refl, λ e. e))
          (λ _. (refl, λ e. e))
    commit_step-IsIdle install i s (some pkg) w pkgs backups =
        if_rule (IsIdle (idle w pkgs backups)) (t.require_signature && not (is_signed os kr pkg w))
          (λ _. (refl, λ e. e)) (λ _. (refl, λ e. e))
    commit_step-IsIdle upgrade i s none w pkgs backups =
        if_rule (IsIdle (idle w pkgs backups)) (not t.require_signature) (λ _. (refl, λ e. e))
          (λ _. (refl, λ e. e))
    commit_step-IsIdle upgrade i s (some pkg) w pkgs backups =
        if_rule (IsIdle (idle w pkgs backups)) (t.require_signature && not (is_signed os kr pkg w))
          (λ _. (refl, λ e. e)) (λ _. (refl, λ e. e))

    commit_steps-IsIdle :
        (steps : List TransStep) (i : ℕ) (w : W) (pkgs : List (Option PackageFile))
        (backups : List (Option B))
        → IsIdle (idle w pkgs backups) (commit_steps os dry kr steps i (idle w pkgs backups))
    unfolding commit_steps
    commit_steps-IsIdle [] i w pkgs backups = (refl, λ e. e)
    commit_steps-IsIdle (s ∷ steps) i w pkgs backups =
        let step = commit_step-IsIdle s.op i s (get_or pkgs i none) w pkgs backups in
        let p = (commit_step os dry kr s.op i s (get_or pkgs i none) (idle w pkgs backups)).1 in
        if_rule (IsIdle (idle w pkgs backups))
          (is_ok (commit_step os dry kr s.op i s (get_or pkgs i none) (idle w pkgs backups)).0)
          (λ _.
            subst (λ q. IsIdle (idle w pkgs backups) (commit_steps os dry kr steps (suc i) q))
              (sym step.0) (commit_steps-IsIdle steps (suc i) w pkgs backups))
          (λ _. step)

    abbrev pub IsUntouched : W → TransError × Trans × W → Type 0
    IsUntouched w r = (r.1 ≡ dry) × (r.2 ≡ w) × ¬ IsOfChange r.0

    release_commit-IsUntouched :
        (w : W) (r : TransError × CommitState W B)
        → IsIdle (idle w t.plan_pkgs (replicate (length t.plan) none)) r
        → IsUntouched w (release_commit os dry r)
    unfolding release_commit trans_set_dry_run
    release_commit-IsUntouched w (e, p) (same, other) =
        subst (λ q. IsUntouched w (release_commit os dry (e, q))) (sym same)
          (refl, discard_all-replicate (length t.plan) w, other)

    pub commit_plan-IsUntouched : (w : W) → IsUntouched w (commit_plan os dry kr w)
    unfolding commit_plan trans_set_dry_run
    commit_plan-IsUntouched w =
        release_commit-IsUntouched w _
          (commit_steps-IsIdle t.plan 0 w t.plan_pkgs (replicate (length t.plan) none))

    commit_signed-IsUntouched :
        (w : W) (allocs : Allocs) → Unspent t w (commit_signed os dry kr w allocs)
    unfolding trans_set_dry_run
    commit_signed-IsUntouched w allocs =
        if_rule (Unspent t w) (commit_arrays os dry allocs).0 (λ _. commit_plan-IsUntouched w)
          (λ _. (refl, refl, λ e. e))

  with_keyring-IsUntouched :
      (t : Trans) (kr : Option K) (w : W) (allocs : Allocs)
      → Unspent t w (with_keyring os (trans_set_dry_run t true) kr w allocs)
  with_keyring-IsUntouched t none w allocs = (refl, refl, λ e. e)
  with_keyring-IsUntouched t (some kr) w allocs = commit_signed-IsUntouched t (some kr) w allocs

  -- A commit after `trans_set_dry_run(trans, true)` leaves the transaction and the system as they
  -- were, also when it fails, and never fails with an error of an installation, of the database or
  -- of a removal.
  pub trans_commit-IsDryRun :
      (t : Trans) (w : W) (allocs : Allocs)
      → let r = trans_commit os (trans_set_dry_run t true) w allocs in
        (r.1 ≡ trans_set_dry_run t true) × (r.2 ≡ w) × ¬ IsOfChange r.0
  unfolding trans_commit trans_set_dry_run
  trans_commit-IsDryRun t w allocs =
      if_rule (Unspent t w) (not t.prepared) (λ _. (refl, refl, λ e. e))
        (λ _.
          if_rule (Unspent t w) t.committed (λ _. (refl, refl, λ e. e))
            (λ _.
              if_rule (Unspent t w) t.require_signature
                (λ _. with_keyring-IsUntouched t (os.keyring_load w t.keyring_dir) w allocs)
                (λ _. commit_signed-IsUntouched t none w allocs)))
