-- ===== src/Transaction/Commit/Restored.antt =====
-- A commit that fails, of src/transaction/commit.c: its database is as before.
use lib_apg.Base.{
  arith, ℕ, suc, ◌≡◌, refl, sym, subst, ◌∙◌, Bool, true, false, List, [], ◌∷◌, Option, none, some,
  length, get_or, set, All, get_or-set_ne, get_or-set_self, length-set, ◌<◌, ◌≤◌, if_rule, ◌==◌,
  ==_iff,
}
use lib_apg.CString.{CStr}
use lib_apg.Transaction.{
  TransOp, install, remove, upgrade, TransError, err_db, PackageFile, TransStep, Trans,
}
use lib_apg.Transaction.Prepare.{name_or_empty}
use lib_apg.Transaction.Commit.{World, CommitState, step_at}
use lib_apg.Transaction.Commit.Steps.{rolled_back_to, refuse, record_package}
use lib_apg.Transaction.Commit.Run.{is_ok}
use lib_apg.Transaction.Commit.Laws.{SameDb, IsDatabase}
use lib_apg.Transaction.Commit.Rollback.{
  step_name, GivesBack, IsRevertible, rollback_committed-SameDb, IsRevertible-same,
  IsRevertible-commit,
}

-- The package of a step has the name of the step.
abbrev pub IsNamed : Option PackageFile → CStr → Type 0
IsNamed none m = ⊥
IsNamed (some pkg) m = name_or_empty pkg ≡ m

module _ {W K B C : Type 0} (os : World W K B C) (t : Trans) (w0 : W) where
  -- A step that the database before the commit allows: nothing is removed, and what is installed is
  -- not there.
  abbrev pub IsAllowed : TransOp → CStr → Type 0
  IsAllowed remove m = ⊥
  IsAllowed install m = os.db_get w0 m ≡ none
  IsAllowed upgrade m = Unit

  -- The plan, whose steps are about different packages, and its packages.
  abbrev pub IsPlan : Type 0
  IsPlan =
      ((i : ℕ)
        → i < length t.plan
        → IsAllowed (step_at os t.plan i).op (step_at os t.plan i).pkg_name)
      × ((i j : ℕ)
          → i < j
          → j < length t.plan
          → ¬ ((step_at os t.plan j).pkg_name ≡ (step_at os t.plan i).pkg_name))
      × (length t.plan_pkgs ≡ length t.plan)
      × ((i : ℕ)
          → i < length t.plan
          → IsNamed (get_or t.plan_pkgs i none) (step_at os t.plan i).pkg_name)

module _ {W K B C : Type 0} (os : World W K B C) (laws : IsDatabase os) (t : Trans) (kr : Option K)
    (w0 : W) where
  -- Before the step with the index i.
  pub record IsCurrent (i : ℕ) (p : CommitState W B) : Type 0 where
    pub sized : length p.backups ≡ length t.plan
    pub sized_pkgs : length p.pkgs ≡ length t.plan
    pub below : All (λ j. j < i) p.committed
    pub revertible : IsRevertible os laws t.plan w0 p.backups p.committed p.world
    pub named :
        (j : ℕ) → j < length t.plan → IsNamed (get_or p.pkgs j none) (step_name os laws t.plan w0 j)
    pub unsaved : (j : ℕ) → i ≤ j → get_or p.backups j none ≡ none

  abbrev pub StepPost : ℕ → TransError × CommitState W B → Type 0
  StepPost i r =
      (is_ok r.0 ≡ true → IsCurrent (suc i) r.1) × (is_ok r.0 ≡ false → SameDb os r.1.world w0)

  pub rolled_back-StepPost :
      (i : ℕ) (e : TransError) (p : CommitState W B) (w : W)
      → is_ok e ≡ false
      → IsRevertible os laws t.plan w0 p.backups p.committed w
      → StepPost i (e, rolled_back_to os t kr p w)
  rolled_back-StepPost i e p w bad revertible = (
    λ ok. cc,
    λ _. rollback_committed-SameDb os laws t.plan w0 p.pkgs p.backups p.committed w revertible,
  )

  pub refuse-StepPost :
      (i : ℕ) (e : TransError) (s : TransStep) (p : CommitState W B) (w : W)
      → is_ok e ≡ false
      → IsRevertible os laws t.plan w0 p.backups p.committed w
      → StepPost i (refuse os t kr e s p w)
  refuse-StepPost i e s p w bad revertible = rolled_back-StepPost i e p _ bad (
      IsRevertible-same os laws t.plan w0 p.backups p.committed w _
        (λ n. laws.journal_same _ _ _ _ _ _ n) revertible)

  -- Before the package of the step with the index i is recorded.
  pub record IsStarted (i : ℕ) (p : CommitState W B) : Type 0 where
    pub sized : length p.backups ≡ length t.plan
    pub sized_pkgs : length p.pkgs ≡ length t.plan
    pub below : All (λ j. j < i) p.committed
    pub revertible : IsRevertible os laws t.plan w0 p.backups p.committed p.world
    pub back : GivesBack os laws t.plan w0 (get_or p.backups i none) (step_name os laws t.plan w0 i)
    pub named :
        (j : ℕ) → j < length t.plan → IsNamed (get_or p.pkgs j none) (step_name os laws t.plan w0 j)
    pub unsaved : (j : ℕ) → suc i ≤ j → get_or p.backups j none ≡ none

  pub IsStarted-same :
      (i : ℕ) (p : CommitState W B) (w : W)
      → SameDb os w p.world
      → IsStarted i p
      → IsStarted i (record p { world = w })
  IsStarted-same i p w same q = record {
    sized = q.sized;
    sized_pkgs = q.sized_pkgs;
    below = q.below;
    revertible =
        IsRevertible-same os laws t.plan w0 p.backups p.committed p.world w same q.revertible;
    back = q.back;
    named = q.named;
    unsaved = q.unsaved;
  }

  pub below_suc : (i : ℕ) (is : List ℕ) → All (λ j. j < i) is → All (λ j. j < suc i) is
  below_suc i [] h = tt
  below_suc i (j ∷ is) (less, rest) = (omega arith, below_suc i is rest)

  named_set :
      (i : ℕ) (pkg : PackageFile) (pkgs : List (Option PackageFile))
      → length pkgs ≡ length t.plan
      → IsNamed (some pkg) (step_name os laws t.plan w0 i)
      → ((j : ℕ) → j < length t.plan → IsNamed (get_or pkgs j none) (step_name os laws t.plan w0 j))
      → (j : ℕ) → j < length t.plan
      → IsNamed (get_or (set pkgs i (some pkg)) j none) (step_name os laws t.plan w0 j)
  named_set i pkg pkgs size this named j less = by_index (i == j) refl
    where
      by_index :
          (b : Bool)
          → (i == j) ≡ b
          → IsNamed (get_or (set pkgs i (some pkg)) j none) (step_name os laws t.plan w0 j)
      by_index true test =
          subst
            (λ k. IsNamed (get_or (set pkgs i (some pkg)) k none) (step_name os laws t.plan w0 k))
            ((==_iff i j).0 test)
            (subst (λ x. IsNamed x (step_name os laws t.plan w0 i))
              (sym (
                get_or-set_self pkgs i (some pkg) none
                  (subst (λ k. k < length pkgs) (sym ((==_iff i j).0 test)) (omega arith))))
              this)
      by_index false test =
          subst (λ x. IsNamed x (step_name os laws t.plan w0 j))
            (sym (get_or-set_ne pkgs i j (some pkg) none (λ e. ground arith))) (named j less)

  added :
      (i : ℕ) (pkg : PackageFile) (p : CommitState W B)
      → name_or_empty pkg ≡ step_name os laws t.plan w0 i
      → IsStarted i p
      → IsRevertible os laws t.plan w0 p.backups (i ∷ p.committed) (os.db_add p.world pkg).1
  added i pkg p named q =
      IsRevertible-commit os laws t.plan w0 p.backups i p.committed p.world _ q.back
        (λ n differ. laws.add_but p.world pkg n (λ e. differ (e ∙ named))) q.revertible

  pub record_package-StepPost :
      (i : ℕ) (s : TransStep) (pkg : PackageFile) (p : CommitState W B)
      → name_or_empty pkg ≡ step_name os laws t.plan w0 i
      → IsStarted i p
      → StepPost i (record_package os t kr i s pkg p)
  unfolding record_package
  record_package-StepPost i s pkg p named q =
      if_rule (StepPost i) (os.db_add p.world (record pkg { installed_by_hand = s.explicit })).0
        (λ _. (
          λ _. record {
            sized = q.sized;
            sized_pkgs =
                length-set p.pkgs i (some (record pkg { installed_by_hand = s.explicit }))
                ∙ q.sized_pkgs;
            below = (omega arith, below_suc i p.committed q.below);
            revertible =
                IsRevertible-same os laws t.plan w0 p.backups (i ∷ p.committed) _ _
                  (λ n. laws.journal_same _ _ _ _ _ _ n)
                  (added i (record pkg { installed_by_hand = s.explicit }) p named q);
            named =
                named_set i (record pkg { installed_by_hand = s.explicit }) p.pkgs q.sized_pkgs
                  named q.named;
            unsaved = q.unsaved;
          },
          λ bad. cc,
        ))
        (λ _.
          refuse-StepPost i err_db s
            (record p {
              pkgs = set p.pkgs i (some (record pkg { installed_by_hand = s.explicit }));
              committed = i ∷ p.committed;
            })
            _ refl (added i (record pkg { installed_by_hand = s.explicit }) p named q))
