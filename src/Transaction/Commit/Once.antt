-- ===== src/Transaction/Commit/Once.antt =====
-- What `trans_commit` of src/transaction/commit.c does to its transaction.
use lib_apg.Base.{
  ◌≡◌, refl, sym, subst, Bool, true, false, not, ◌&&◌, [], Option, none, some, if◌then◌else◌,
  if_rule, replicate, length, Allocs,
}
use lib_apg.Transaction.{
  TransError, trans_ok, err_nomem, err_not_prepared, err_already_committed, err_unsigned, Trans,
}
use lib_apg.Transaction.Commit.{World, CommitState}
use lib_apg.Transaction.Commit.Run.{
  is_ok, commit_steps, release_commit, commit_plan, commit_arrays, commit_signed, with_keyring,
  trans_commit,
}

marked : (dry ok c : Bool) → ok ≡ true → dry ≡ false → (if not dry && ok then true else c) ≡ true
marked true ok c e live = cc
marked false true c e live = refl
marked false false c e live = cc

unmarked : (dry ok c : Bool) → ok ≡ false → (if not dry && ok then true else c) ≡ c
unmarked true ok c e = refl
unmarked false true c e = cc
unmarked false false c e = refl

refused_again :
    {W K B C : Type 0} (os : World W K B C) (t : Trans) (w : W) (allocs : Allocs)
    → (t.prepared ≡ true) × (t.committed ≡ true)
    → trans_commit os t w allocs ≡ (err_already_committed, t, w, allocs)
unfolding trans_commit
refused_again os t w allocs (ready, done) = simp (ready, done)

module _ {W K B C : Type 0} (os : World W K B C) (t : Trans) where
  -- The flags of a transaction after a commit with a result.
  abbrev pub IsMarked : TransError → Trans → Type 0
  IsMarked e t' =
      (t'.prepared ≡ t.prepared)
      × (t'.dry_run ≡ t.dry_run)
      × (is_ok e ≡ true → t.dry_run ≡ false → (t'.prepared ≡ true) × (t'.committed ≡ true))
      × (is_ok e ≡ false → t'.committed ≡ t.committed)

  release_commit-IsMarked :
      t.prepared ≡ true
      → (r : TransError × CommitState W B)
      → IsMarked (release_commit os t r).0 (release_commit os t r).1
  unfolding release_commit
  release_commit-IsMarked ready (e, p) = (
    refl,
    refl,
    λ ok live. (ready, marked t.dry_run (is_ok e) t.committed ok live),
    λ bad. unmarked t.dry_run (is_ok e) t.committed bad,
  )

  abbrev IsMarkedResult : TransError × Trans × W × Allocs → Type 0
  IsMarkedResult r = IsMarked r.0 r.1

  refused-IsMarked : (e : TransError) → is_ok e ≡ false → IsMarked e t
  refused-IsMarked e bad = (refl, refl, λ ok live. cc, λ _. refl)

  commit_plan-IsMarked :
      t.prepared ≡ true
      → (kr : Option K) (w : W) → IsMarked (commit_plan os t kr w).0 (commit_plan os t kr w).1
  unfolding commit_plan
  commit_plan-IsMarked ready kr w = release_commit-IsMarked ready (
      commit_steps os t kr t.plan 0 (record {
        world = w;
        pkgs = t.plan_pkgs;
        committed = [];
        backups = replicate (length t.plan) none;
      }))

  commit_signed-IsMarked :
      t.prepared ≡ true
      → (kr : Option K) (w : W) (allocs : Allocs) → IsMarkedResult (commit_signed os t kr w allocs)
  commit_signed-IsMarked ready kr w allocs =
      if_rule IsMarkedResult (commit_arrays os t allocs).0 (λ _. commit_plan-IsMarked ready kr w)
        (λ _. refused-IsMarked err_nomem refl)

  with_keyring-IsMarked :
      t.prepared ≡ true
      → (kr : Option K) (w : W) (allocs : Allocs) → IsMarkedResult (with_keyring os t kr w allocs)
  with_keyring-IsMarked ready none w allocs = refused-IsMarked err_unsigned refl
  with_keyring-IsMarked ready (some kr) w allocs = commit_signed-IsMarked ready (some kr) w allocs

  of_not : (b : Bool) → not b ≡ false → b ≡ true
  of_not true e = refl
  of_not false e = cc

  pub trans_commit-IsMarked :
      (w : W) (allocs : Allocs) → IsMarkedResult (trans_commit os t w allocs)
  unfolding trans_commit
  trans_commit-IsMarked w allocs =
      if_rule IsMarkedResult (not t.prepared) (λ _. refused-IsMarked err_not_prepared refl)
        (λ p.
          let ready = of_not t.prepared p in
          if_rule IsMarkedResult t.committed (λ _. refused-IsMarked err_already_committed refl)
            (λ _.
              if_rule IsMarkedResult t.require_signature
                (λ _. with_keyring-IsMarked ready (os.keyring_load w t.keyring_dir) w allocs)
                (λ _. commit_signed-IsMarked ready none w allocs)))

  -- A transaction that was committed is not committed again: after a commit that succeeded and was
  -- no dry run, another commit is refused, in any state of the system, and changes nothing.
  pub trans_commit_once :
      (w w' : W) (allocs allocs' : Allocs)
      → t.dry_run ≡ false
      → (trans_commit os t w allocs).0 ≡ trans_ok
      → trans_commit os (trans_commit os t w allocs).1 w' allocs'
        ≡ (err_already_committed, (trans_commit os t w allocs).1, w', allocs')
  trans_commit_once w w' allocs allocs' live ok =
      refused_again os (trans_commit os t w allocs).1 w' allocs'
        ((trans_commit-IsMarked w allocs).2 (cong_is_ok (trans_commit os t w allocs).0 ok) live)
    where
      cong_is_ok : (e : TransError) → e ≡ trans_ok → is_ok e ≡ true
      cong_is_ok e p = subst (λ x. is_ok x ≡ true) (sym p) refl
