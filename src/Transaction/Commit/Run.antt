-- ===== src/Transaction/Commit/Run.antt =====
-- `trans_commit` of src/transaction/commit.c: its branch that removes, the loop over the plan, and the checks before it.
use lib_apg.Base.{
  ℕ, suc, Bool, true, false, not, ◌&&◌, List, [], ◌∷◌, Option, none, some, length, get_or,
  replicate, if◌then◌else◌, Allocs, granted, later,
}
use lib_apg.CString.{CStr}
use lib_apg.Transaction.{
  TransOp, install, remove, upgrade, TransError, trans_ok, err_nomem, err_not_prepared,
  err_already_committed, err_unsigned, err_remove_failed, null_package, PackageFile, TransStep,
  Trans,
}
use lib_apg.Transaction.Commit.{World, CommitState, removed, unlink_files_of}
use lib_apg.Transaction.Commit.Steps.{rolled_back_to, journal_step, commit_install, commit_upgrade}

abbrev pub is_ok : TransError → Bool
is_ok trans_ok = true
is_ok e = false

module _ {W K B C : Type 0} (os : World W K B C) where
  module _ (t : Trans) (kr : Option K) where
    abbrev pub pre_removed : Option CStr → W → Bool × W
    pre_removed none w = (true, w)
    pre_removed (some dir) w =
        if t.dry_run
        then (true, w)
        else os.run_script w dir
            (b'p' ∷ b'r' ∷ b'e' ∷ b'-' ∷ b'r' ∷ b'e' ∷ b'm' ∷ b'o' ∷ b'v' ∷ b'e' ∷ [])

    abbrev pub db_removed : TransStep → Bool × W → Bool × W
    db_removed s (true, w) = if t.dry_run then (true, w) else os.db_remove w s.pkg_name
    db_removed s (false, w) = (false, w)

    -- The script that runs last, whose result is passed over, and the stored scripts.
    abbrev pub post_removed : TransStep → Option CStr → W → W
    post_removed s none w = w
    post_removed s (some dir) w =
        let (ok, w') =
          os.run_script w dir
            (b'p' ∷ b'o' ∷ b's' ∷ b't' ∷ b'-' ∷ b'r' ∷ b'e' ∷ b'm' ∷ b'o' ∷ b'v' ∷ b'e' ∷ []) in
        os.scripts_persist_remove w' s.pkg_name

    unfoldable pub removed_result :
        TransStep
        → Option PackageFile
        → Option CStr
        → CommitState W B
        → Bool × W
        → TransError × CommitState W B
    removed_result s installed dir p (true, w) = (
      trans_ok,
      record p {
        world =
            if t.dry_run
            then w
            else journal_step os t kr removed s true
                (post_removed s dir (unlink_files_of os installed w));
      },
    )
    removed_result s installed dir p (false, w) = (
      err_remove_failed,
      rolled_back_to os t kr p (if t.dry_run then w else journal_step os t kr removed s false w),
    )

    unfoldable pub commit_remove : TransStep → CommitState W B → TransError × CommitState W B
    unfolding removed_result
    commit_remove s p =
        let dir = os.scripts_store_path p.world s.pkg_name in
        removed_result s (os.db_get p.world s.pkg_name) dir p
          (db_removed s (pre_removed dir p.world))

    -- A step whose package is NULL: the code reads it without a test, but in a dry run only for its
    -- signature.
    unfoldable pub commit_no_package : CommitState W B → TransError × CommitState W B
    commit_no_package p =
        if t.dry_run && not t.require_signature then (trans_ok, p) else (null_package, p)

    unfoldable pub commit_step :
        TransOp
        → ℕ
        → TransStep
        → Option PackageFile
        → CommitState W B
        → TransError × CommitState W B
    unfolding commit_install commit_upgrade commit_remove commit_no_package
    commit_step remove i s pkg p = commit_remove s p
    commit_step install i s none p = commit_no_package p
    commit_step install i s (some pkg) p = commit_install os t kr i s pkg p
    commit_step upgrade i s none p = commit_no_package p
    commit_step upgrade i s (some pkg) p = commit_upgrade os t kr i s pkg p

    -- The loop over the plan.
    unfoldable pub commit_steps :
        List TransStep → ℕ → CommitState W B → TransError × CommitState W B
    unfolding commit_step
    commit_steps [] i p = (trans_ok, p)
    commit_steps (s ∷ steps) i p =
        let r = commit_step s.op i s (get_or p.pkgs i none) p in
        let rest = commit_steps steps (suc i) r.1 in if is_ok r.0 then rest else r

  unfoldable pub discard_all : List (Option B) → W → W
  discard_all [] w = w
  discard_all (none ∷ backups) w = discard_all backups w
  discard_all (some backup ∷ backups) w = discard_all backups (os.upgrade_backup_discard w backup)

  -- `release_commit`, and the end of the commit.
  unfoldable pub release_commit : Trans → TransError × CommitState W B → TransError × Trans × W
  unfolding discard_all
  release_commit t (e, p) = (
    e,
    record t {
      plan_pkgs = p.pkgs;
      committed = if not t.dry_run && is_ok e then true else t.committed;
    },
    discard_all p.backups p.world,
  )

  unfoldable pub commit_plan : Trans → Option K → W → TransError × Trans × W
  unfolding release_commit commit_steps
  commit_plan t kr w = release_commit t (
      commit_steps t kr t.plan 0 (record {
        world = w;
        pkgs = t.plan_pkgs;
        committed = [];
        backups = replicate (length t.plan) none;
      }))

  -- Two allocations, unless the plan is empty.
  abbrev pub commit_arrays : Trans → Allocs → Bool × Allocs
  commit_arrays t allocs = elim t.plan [
    | [] ↦ (true, allocs)
    | _ ∷ _ ↦ (granted allocs && granted (later allocs), later (later allocs))
  ]

  abbrev pub commit_signed : Trans → Option K → W → Allocs → TransError × Trans × W × Allocs
  commit_signed t kr w allocs =
      let (made, rest) = commit_arrays t allocs in
      if made
      then (let (e, t', w') = commit_plan t kr w in (e, t', w', rest))
      else (err_nomem, t, w, rest)

  abbrev pub with_keyring : Trans → Option K → W → Allocs → TransError × Trans × W × Allocs
  with_keyring t none w allocs = (err_unsigned, t, w, allocs)
  with_keyring t (some kr) w allocs = commit_signed t (some kr) w allocs

  unfoldable pub trans_commit : Trans → W → Allocs → TransError × Trans × W × Allocs
  unfolding commit_plan
  trans_commit t w allocs =
      if not t.prepared
      then (err_not_prepared, t, w, allocs)
      else if t.committed
      then (err_already_committed, t, w, allocs)
      else if t.require_signature
      then with_keyring t (os.keyring_load w t.keyring_dir) w allocs
      else commit_signed t none w allocs
