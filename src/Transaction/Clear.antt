-- ===== src/Transaction/Clear.antt =====
-- What stands in the way of a transaction of src/transaction/prepare.c, and what an empty report
-- says of each helper.
use lib_apg.Base.{
  ℕ, ◌≡◌, sym, inl, inr, Bool, false, ◌&&◌, List, [], ◌∷◌, ◌++◌, Option, none, some, length, map,
  All, subst, Allocs, granted, later, grow, if_rule,
}
use mathlib.Core.List.{Memᴰ}
use lib_apg.CString.{CStr}
use lib_apg.Package.{Package}
use lib_apg.Graph.{DepGraph}
use lib_apg.Conflict.{looked_up}
use lib_apg.Conflict.Breaks.{Broken}
use lib_apg.Transaction.{TransOp, TransError, trans_ok, PackageFile, Trans}
use lib_apg.Transaction.Push.{
  then_trans, push_held, held_push, plan_room, push_step, plan_push, push_conflict, conflict_push,
}
use lib_apg.Transaction.Prepare.{Sources, name_or_empty}
use lib_apg.Transaction.Changes.{is_held, push_blocked}
use lib_apg.Transaction.Planned.{push_file_conflict}
use lib_apg.Transaction.Justified.{TransError-cases}

-- The four reports of a transaction are empty.
pub record IsClear (t : Trans) : Type 0 where
  pub no_held : t.held_pkgs ≡ []
  pub no_file_conflict : t.file_conflicts ≡ []
  pub no_blocked : t.blocked_removes ≡ []
  pub no_conflict : t.conflicts ≡ []

-- What an installation, an upgrade and a removal ask of the database, and of the graph.
module _ (db : Sources) where
  -- The file is owned by no package but the one with the name.
  abbrev pub IsFree : CStr → Option CStr → Type 0
  IsFree name none = Unit
  IsFree name (some path) = (owner : CStr) → db.db_owner path ≡ some owner → owner ≡ name

  abbrev pub IsHarmless : DepGraph → CStr → Type 0
  IsHarmless g name =
      (pkg : Package) × (looked_up g name ≡ some pkg)
      × ((n : CStr) → Memᴰ n (map name_or_empty db.db_list) → ¬ Broken g pkg n)

  abbrev pub IsRemovable : Trans → CStr → Type 0
  IsRemovable t name =
      (is_held (db.db_get name) ≡ false)
      × (t.skip_dependents_check ≡ false
          → All (λ d. Memᴰ d t.remove_names) (db.db_get_dependents name))

-- A phase that succeeds and leaves the reports empty began with empty reports, and has found a fact.
pub record Found (F : Type 0) (t : Trans) : Type 0 where
  pub before : IsClear t
  pub fact : F

abbrev pub Post : Type 0 → Trans → TransError × Trans × Allocs → Type 0
Post F t r = r.0 ≡ trans_ok → IsClear r.1 → Found F t

pub Post-map :
    {F G : Type 0} (t : Trans) (r : TransError × Trans × Allocs) → (F → G) → Post F t r → Post G t r
Post-map t r f p ok clear = record { before = (p ok clear).before; fact = f (p ok clear).fact }

pub then_trans-Post :
    {F G : Type 0} (I : Trans → Type 0) (t : Trans) (r : TransError × Trans × Allocs)
    (next : Trans → Allocs → TransError × Trans × Allocs)
    → I r.1
    → Post F t r
    → ((t' : Trans) (rest : Allocs) → I t' → Post G t' (next t' rest))
    → Post (F × G) t (then_trans r next)
then_trans-Post {F} {G} I t r next i p q = elim (TransError-cases r next) [
  | inl a ↦ subst (Post (F × G) t) (sym a.1) (λ ok clear.
      let late = q r.1 r.2 i ok clear in
      let early = p a.0 late.before in
      record { before = early.before; fact = (early.fact, late.fact) })
  | inr b ↦ subst (Post (F × G) t) (sym b.0) (λ ok clear. absurd (b.1 ok))
]

-- The same, after a phase that finds nothing out, and with nothing that is asked of the state.
pub then_trans_quiet :
    {G : Type 0} (t : Trans) (r : TransError × Trans × Allocs)
    (next : Trans → Allocs → TransError × Trans × Allocs)
    → Post Unit t r
    → ((t' : Trans) (rest : Allocs) → Post G t' (next t' rest))
    → Post G t (then_trans r next)
then_trans_quiet {G} t r next p q =
    Post-map t (then_trans r next) (λ (f : Unit × G). f.1)
      (then_trans-Post (λ _. Unit) t r next tt p (λ t' rest _. q t' rest))

append_nonempty : {A : Type 0} (xs : List A) (x : A) → ¬ (xs ++ (x ∷ []) ≡ [])
append_nonempty [] x e = cc
append_nonempty (y ∷ xs) x e = cc

abbrev same_reports : {t : Trans} → IsClear t → Found Unit t
same_reports clear = record { before = clear; fact = tt }

module _ (t : Trans) where
  push_held-Post :
      (name : CStr) (op : TransOp) (r : Option ℕ × Allocs) → Post ⊥ t (push_held t name op r)
  unfolding push_held
  push_held-Post name op (none, allocs) = λ ok clear. cc
  push_held-Post name op (some cap, allocs) =
      if_rule (Post ⊥ t) (granted allocs)
        (λ _ ok clear. absurd (append_nonempty t.held_pkgs _ clear.no_held)) (λ _ ok clear. cc)

  pub held_push-Post :
      (name : CStr) (op : TransOp) (allocs : Allocs) → Post ⊥ t (held_push t name op allocs)
  unfolding held_push
  held_push-Post name op allocs =
      push_held-Post name op (grow (length t.held_pkgs) t.held_cap 4 allocs)

  pub push_blocked-Post :
      (name : CStr) (deps : List CStr) (r : Option ℕ × Allocs)
      → Post ⊥ t (push_blocked t name deps r)
  unfolding push_blocked
  push_blocked-Post name deps (none, allocs) = λ ok clear. cc
  push_blocked-Post name deps (some cap, allocs) =
      λ ok clear. absurd (append_nonempty t.blocked_removes _ clear.no_blocked)

  pub push_file_conflict-Post :
      (path name owner : CStr) (r : Option ℕ × Allocs)
      → Post ⊥ t (push_file_conflict t path name owner r)
  unfolding push_file_conflict
  push_file_conflict-Post path name owner (none, allocs) = λ ok clear. cc
  push_file_conflict-Post path name owner (some cap, allocs) =
      λ ok clear. absurd (append_nonempty t.file_conflicts _ clear.no_file_conflict)

  push_conflict-Post :
      (name other : CStr) (r : Option ℕ × Allocs) → Post ⊥ t (push_conflict t name other r)
  unfolding push_conflict
  push_conflict-Post name other (none, allocs) = λ ok clear. cc
  push_conflict-Post name other (some cap, allocs) =
      if_rule (Post ⊥ t) (granted allocs && granted (later allocs))
        (λ _ ok clear. absurd (append_nonempty t.conflicts _ clear.no_conflict)) (λ _ ok clear. cc)

  pub conflict_push-Post :
      (name other : CStr) (allocs : Allocs) → Post ⊥ t (conflict_push t name other allocs)
  unfolding conflict_push
  conflict_push-Post name other allocs =
      push_conflict-Post name other (grow (length t.conflicts) t.conflict_cap 4 allocs)

  push_step-Post :
      (op : TransOp) (name : CStr) (version : Option CStr) (explicit_req : Bool)
      (pkg : Option PackageFile) (r : Option ℕ × Allocs)
      → Post Unit t (push_step t op name version explicit_req pkg r)
  unfolding push_step
  push_step-Post op name version explicit_req pkg (none, allocs) = λ ok clear. cc
  push_step-Post op name version explicit_req pkg (some cap, allocs) =
      if_rule (Post Unit t) (granted allocs)
        (λ _ ok clear. same_reports (record {
          no_held = clear.no_held;
          no_file_conflict = clear.no_file_conflict;
          no_blocked = clear.no_blocked;
          no_conflict = clear.no_conflict;
        }))
        (λ _ ok clear. cc)

  pub plan_push-Post :
      (op : TransOp) (name : CStr) (version : Option CStr) (explicit_req : Bool)
      (pkg : Option PackageFile) (allocs : Allocs)
      → Post Unit t (plan_push t op name version explicit_req pkg allocs)
  unfolding plan_push
  plan_push-Post op name version explicit_req pkg allocs =
      push_step-Post op name version explicit_req pkg (plan_room t allocs)

-- Nothing is asked of the state between two phases.
abbrev pub AnyState : Trans → Type 0
AnyState t = Unit
