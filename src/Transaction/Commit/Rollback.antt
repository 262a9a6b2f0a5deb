-- ===== src/Transaction/Commit/Rollback.antt =====
-- `rollback_committed` of src/transaction/commit.c: what it gives back to the database.
use lib_apg.Base.{
  ◌⊎◌, inl, inr, arith, ℕ, ◌≡◌, refl, sym, subst, ◌∙◌, Bool, true, false, List, [], ◌∷◌, Option,
  none, some, get_or, set, All, get_or-set_ne, ◌<◌,
}
use lib_apg.CString.{CStr, str_eq, str_eq_sound, str_eq_refl}
use lib_apg.Transaction.{PackageFile, TransStep}
use lib_apg.Transaction.Commit.{World, step_at, rollback_one, rollback_committed}
use lib_apg.Transaction.Commit.Laws.{SameDb, SameBut, IsDatabase, unlink_files_same}

name_cases : (n m : CStr) → (n ≡ m) ⊎ ¬ (n ≡ m)
name_cases n m = by_test (str_eq n m) refl
  where
    by_test : (b : Bool) → str_eq n m ≡ b → (n ≡ m) ⊎ ¬ (n ≡ m)
    by_test true e = inl (str_eq_sound n m e)
    by_test false e =
        inr (λ same. differ (sym (subst (λ x. str_eq n x ≡ true) same (str_eq_refl n)) ∙ e))
      where
        differ : ¬ (true ≡ false)
        differ q = cc

module _ {W K B C : Type 0} (os : World W K B C) (laws : IsDatabase os) (plan : List TransStep)
    (w0 : W) where
  abbrev pub step_name : ℕ → CStr
  step_name i = (step_at os plan i).pkg_name

  -- The backup, or its absence, gives a name what it had.
  abbrev pub GivesBack : Option B → CStr → Type 0
  GivesBack none m = os.db_get w0 m ≡ none
  GivesBack (some b) m =
      (w : W) (pkg : Option PackageFile)
      → (os.db_get (os.upgrade_backup_restore w b pkg) m ≡ os.db_get w0 m)
        × SameBut os m (os.upgrade_backup_restore w b pkg) w

  -- A name that no committed step is about has what it had.
  abbrev pub IsClean : List ℕ → W → Type 0
  IsClean is w = (n : CStr) → All (λ i. ¬ (n ≡ step_name i)) is → os.db_get w n ≡ os.db_get w0 n

  abbrev pub IsRevertible : List (Option B) → List ℕ → W → Type 0
  IsRevertible backups is w =
      All (λ i. GivesBack (get_or backups i none) (step_name i)) is × IsClean is w

  rollback_one-GivesBack :
      (s : TransStep) (pkg : Option PackageFile) (backup : Option B) (w : W)
      → GivesBack backup s.pkg_name
      → (os.db_get (rollback_one os s pkg backup w) s.pkg_name ≡ os.db_get w0 s.pkg_name)
        × SameBut os s.pkg_name (rollback_one os s pkg backup w) w
  unfolding rollback_one
  rollback_one-GivesBack s pkg none w back = (
    laws.journal_same _ _ _ _ _ _ s.pkg_name ∙ laws.remove_self _ s.pkg_name ∙ sym back,
    λ n differ.
        laws.journal_same _ _ _ _ _ _ n
        ∙ laws.remove_but _ s.pkg_name n differ
        ∙ unlink_files_same os laws pkg w n,
  )
  rollback_one-GivesBack s pkg (some b) w back = (
    laws.journal_same _ _ _ _ _ _ s.pkg_name ∙ (back w pkg).0,
    λ n differ. laws.journal_same _ _ _ _ _ _ n ∙ (back w pkg).1 n differ,
  )

  pub rollback_committed-SameDb :
      (pkgs : List (Option PackageFile)) (backups : List (Option B)) (is : List ℕ) (w : W)
      → IsRevertible backups is w
      → SameDb os (rollback_committed os plan pkgs backups is w) w0
  unfolding rollback_committed
  rollback_committed-SameDb pkgs backups [] w (back, clean) = λ n. clean n tt
  rollback_committed-SameDb pkgs backups (i ∷ is) w (back, clean) =
      rollback_committed-SameDb pkgs backups is _ (
        back.1,
        λ n fresh. elim (name_cases n (step_name i)) [
          | inl e ↦
              subst
                (λ m.
                  os.db_get
                    (rollback_one os (step_at os plan i) (get_or pkgs i none)
                      (get_or backups i none) w)
                    m
                  ≡ os.db_get w0 m)
                (sym e) one.0
          | inr differ ↦ one.1 n differ ∙ clean n (differ, fresh)
        ],
      )
    where
      one :
          (os.db_get
              (rollback_one os (step_at os plan i) (get_or pkgs i none) (get_or backups i none) w)
              (step_name i)
            ≡ os.db_get w0 (step_name i))
          × SameBut os
              (step_name i)
              (rollback_one os (step_at os plan i) (get_or pkgs i none) (get_or backups i none) w)
              w
      one =
          rollback_one-GivesBack (step_at os plan i) (get_or pkgs i none) (get_or backups i none) w
            back.0

  -- More work on the names that are committed, and on one more.
  pub IsRevertible-same :
      (backups : List (Option B)) (is : List ℕ) (w w' : W)
      → SameDb os w' w
      → IsRevertible backups is w
      → IsRevertible backups is w'
  IsRevertible-same backups is w w' same (back, clean) = (back, λ n fresh. same n ∙ clean n fresh)

  pub IsRevertible-commit :
      (backups : List (Option B)) (i : ℕ) (is : List ℕ) (w w' : W)
      → GivesBack (get_or backups i none) (step_name i)
      → SameBut os (step_name i) w' w
      → IsRevertible backups is w
      → IsRevertible backups (i ∷ is) w'
  IsRevertible-commit backups i is w w' this same (back, clean) =
      ((this, back), λ n fresh. same n fresh.0 ∙ clean n fresh.1)

  -- A backup at an index that is not committed.
  pub IsRevertible-set :
      (backups : List (Option B)) (i : ℕ) (b : Option B) (is : List ℕ) (w : W)
      → All (λ j. j < i) is
      → IsRevertible backups is w
      → IsRevertible (set backups i b) is w
  IsRevertible-set backups i b is w below (back, clean) = (all_set is below back, clean)
    where
      all_set :
          (js : List ℕ)
          → All (λ j. j < i) js
          → All (λ j. GivesBack (get_or backups j none) (step_name j)) js
          → All (λ j. GivesBack (get_or (set backups i b) j none) (step_name j)) js
      all_set [] below back = tt
      all_set (j ∷ js) below back = (
        subst (λ x. GivesBack x (step_name j))
            (sym (get_or-set_ne backups i j b none (λ e. omega arith))) back.0,
        all_set js below.1 back.1,
      )
