-- ===== src/Transaction/Justified.antt =====
-- Why a step stands in the plan that `trans_prepare` of src/transaction/prepare.c makes: the
-- invariant of its helpers.
use lib_apg.Base.{
  ℕ, ◌≡◌, refl, sym, ◌⊎◌, inl, inr, Bool, false, ◌&&◌, List, Option, none, some, length, All, subst,
  Allocs, granted, later, grow, if_rule, Memᴰ-append_cases,
}
use mathlib.Core.List.{Memᴰ}
use lib_apg.CString.{CStr}
use lib_apg.Transaction.{
  TransOp, install, remove, upgrade, TransError, trans_ok, err_nomem, err_conflict, err_missing_dep,
  err_cycle, err_not_prepared, err_already_committed, err_install_failed, err_unsigned,
  err_has_dependents, err_file_conflict, err_held, err_db, err_remove_failed, out_of_fuel,
  null_package, PackageFile, TransStep, TransConflict, HeldPkg, Trans, copy_string,
}
use lib_apg.Transaction.Push.{
  then_trans, push_held, held_push, plan_room, push_step, plan_push, push_conflict, conflict_push,
}
use lib_apg.Transaction.Prepare.{Sources, name_or_empty}
use lib_apg.Transaction.Changes.{is_held, push_blocked}
use lib_apg.Transaction.Planned.{push_file_conflict}

pub TransError-cases :
    (r : TransError × Trans × Allocs) (next : Trans → Allocs → TransError × Trans × Allocs)
    → (r.0 ≡ trans_ok) × (then_trans r next ≡ next r.1 r.2)
      ⊎ (then_trans r next ≡ r) × ¬ (r.0 ≡ trans_ok)
TransError-cases (trans_ok, t, allocs) next = inl (refl, refl)
TransError-cases (err_nomem, t, allocs) next = inr (refl, λ e. cc)
TransError-cases (err_conflict, t, allocs) next = inr (refl, λ e. cc)
TransError-cases (err_missing_dep, t, allocs) next = inr (refl, λ e. cc)
TransError-cases (err_cycle, t, allocs) next = inr (refl, λ e. cc)
TransError-cases (err_not_prepared, t, allocs) next = inr (refl, λ e. cc)
TransError-cases (err_already_committed, t, allocs) next = inr (refl, λ e. cc)
TransError-cases (err_install_failed, t, allocs) next = inr (refl, λ e. cc)
TransError-cases (err_unsigned, t, allocs) next = inr (refl, λ e. cc)
TransError-cases (err_has_dependents, t, allocs) next = inr (refl, λ e. cc)
TransError-cases (err_file_conflict, t, allocs) next = inr (refl, λ e. cc)
TransError-cases (err_held, t, allocs) next = inr (refl, λ e. cc)
TransError-cases (err_db, t, allocs) next = inr (refl, λ e. cc)
TransError-cases (err_remove_failed, t, allocs) next = inr (refl, λ e. cc)
TransError-cases (out_of_fuel, t, allocs) next = inr (refl, λ e. cc)
TransError-cases (null_package, t, allocs) next = inr (refl, λ e. cc)

module _ (db : Sources) (t0 : Trans) where
  -- An installation is not of an installed package. What is upgraded or removed is not held, and
  -- what is removed was queued for it, together with all packages that depend on it unless the
  -- check of the dependents is off.
  abbrev pub Justified : TransOp → CStr → Type 0
  Justified install name = All (λ p. ¬ (name_or_empty p ≡ name)) db.db_list
  Justified upgrade name = is_held (db.db_get name) ≡ false
  Justified remove name =
      (is_held (db.db_get name) ≡ false)
      × Memᴰ name t0.remove_names
      × (t0.skip_dependents_check ≡ false
          → All (λ d. Memᴰ d t0.remove_names) (db.db_get_dependents name))

  -- A state that the preparation of t0 comes through.
  pub record Reached (t : Trans) : Type 0 where
    pub same_installs : t.install_pkgs ≡ t0.install_pkgs
    pub same_upgrades : t.upgrade_pkgs ≡ t0.upgrade_pkgs
    pub same_removes : t.remove_names ≡ t0.remove_names
    pub same_skip : t.skip_dependents_check ≡ t0.skip_dependents_check
    pub same_prepared : t.prepared ≡ t0.prepared
    pub justified : (s : TransStep) → Memᴰ s t.plan → Memᴰ s t0.plan ⊎ Justified s.op s.pkg_name

  pub Reached-start : Reached t0
  Reached-start = record {
    same_installs = refl;
    same_upgrades = refl;
    same_removes = refl;
    same_skip = refl;
    same_prepared = refl;
    justified = λ s m. inl m;
  }

  pub then_trans-Reached :
      (r : TransError × Trans × Allocs) (next : Trans → Allocs → TransError × Trans × Allocs)
      → Reached r.1
      → ((t : Trans) (rest : Allocs) → Reached t → Reached (next t rest).1)
      → Reached (then_trans r next).1
  then_trans-Reached r next h f = elim (TransError-cases r next) [
    | inl a ↦ subst (λ (q : TransError × Trans × Allocs). Reached q.1) (sym a.1) (f r.1 r.2 h)
    | inr b ↦ subst (λ (q : TransError × Trans × Allocs). Reached q.1) (sym b.0) h
  ]

  -- What is found out on the side does not change the plan.
  module _ (t : Trans) (h : Reached t) where
    push_held-Reached :
        (name : CStr) (op : TransOp) (r : Option ℕ × Allocs) → Reached (push_held t name op r).1
    unfolding push_held
    push_held-Reached name op (none, allocs) = h
    push_held-Reached name op (some cap, allocs) =
        if_rule (λ (q : TransError × Trans × Allocs). Reached q.1) (granted allocs) (λ _. aside)
          (λ _. aside)
      where
        aside : {held : List HeldPkg} → Reached (record t { held_cap = cap; held_pkgs = held })
        aside = record {
          same_installs = h.same_installs;
          same_upgrades = h.same_upgrades;
          same_removes = h.same_removes;
          same_skip = h.same_skip;
          same_prepared = h.same_prepared;
          justified = h.justified;
        }

    pub held_push-Reached :
        (name : CStr) (op : TransOp) (allocs : Allocs) → Reached (held_push t name op allocs).1
    unfolding held_push
    held_push-Reached name op allocs =
        push_held-Reached name op (grow (length t.held_pkgs) t.held_cap 4 allocs)

    push_step-Reached :
        (op : TransOp) (name : CStr) (version : Option CStr) (explicit_req : Bool)
        (pkg : Option PackageFile) (r : Option ℕ × Allocs)
        → Justified op name
        → Reached (push_step t op name version explicit_req pkg r).1
    unfolding push_step
    push_step-Reached op name version explicit_req pkg (none, allocs) why = h
    push_step-Reached op name version explicit_req pkg (some cap, allocs) why =
        if_rule (λ (q : TransError × Trans × Allocs). Reached q.1) (granted allocs)
          (λ _. record {
            same_installs = h.same_installs;
            same_upgrades = h.same_upgrades;
            same_removes = h.same_removes;
            same_skip = h.same_skip;
            same_prepared = h.same_prepared;
            justified = λ s m.
                elim (Memᴰ-append_cases s (step (copy_string version (later allocs)).0) t.plan m) [
                  | inl old ↦ h.justified s old
                  | inr e ↦ inr (subst (λ (q : TransStep). Justified q.op q.pkg_name) (sym e) why)
                ];
          })
          (λ _. record {
            same_installs = h.same_installs;
            same_upgrades = h.same_upgrades;
            same_removes = h.same_removes;
            same_skip = h.same_skip;
            same_prepared = h.same_prepared;
            justified = h.justified;
          })
      where
        step : Option CStr → TransStep
        step copy = record { op = op; pkg_name = name; pkg_version = copy; explicit = explicit_req }

    pub plan_push-Reached :
        (op : TransOp) (name : CStr) (version : Option CStr) (explicit_req : Bool)
        (pkg : Option PackageFile) (allocs : Allocs)
        → Justified op name
        → Reached (plan_push t op name version explicit_req pkg allocs).1
    unfolding plan_push
    plan_push-Reached op name version explicit_req pkg allocs why =
        push_step-Reached op name version explicit_req pkg (plan_room t allocs) why

    push_conflict-Reached :
        (name other : CStr) (r : Option ℕ × Allocs) → Reached (push_conflict t name other r).1
    unfolding push_conflict
    push_conflict-Reached name other (none, allocs) = h
    push_conflict-Reached name other (some cap, allocs) =
        if_rule (λ (q : TransError × Trans × Allocs). Reached q.1)
          (granted allocs && granted (later allocs)) (λ _. aside) (λ _. aside)
      where
        aside :
            {conflicts : List TransConflict}
            → Reached (record t { conflict_cap = cap; conflicts = conflicts })
        aside = record {
          same_installs = h.same_installs;
          same_upgrades = h.same_upgrades;
          same_removes = h.same_removes;
          same_skip = h.same_skip;
          same_prepared = h.same_prepared;
          justified = h.justified;
        }

    pub conflict_push-Reached :
        (name other : CStr) (allocs : Allocs) → Reached (conflict_push t name other allocs).1
    unfolding conflict_push
    conflict_push-Reached name other allocs =
        push_conflict-Reached name other (grow (length t.conflicts) t.conflict_cap 4 allocs)

    pub push_blocked-Reached :
        (name : CStr) (deps : List CStr) (r : Option ℕ × Allocs)
        → Reached (push_blocked t name deps r).1
    unfolding push_blocked
    push_blocked-Reached name deps (none, allocs) = h
    push_blocked-Reached name deps (some cap, allocs) = record {
      same_installs = h.same_installs;
      same_upgrades = h.same_upgrades;
      same_removes = h.same_removes;
      same_skip = h.same_skip;
      same_prepared = h.same_prepared;
      justified = h.justified;
    }

    pub push_file_conflict-Reached :
        (path name owner : CStr) (r : Option ℕ × Allocs)
        → Reached (push_file_conflict t path name owner r).1
    unfolding push_file_conflict
    push_file_conflict-Reached path name owner (none, allocs) = h
    push_file_conflict-Reached path name owner (some cap, allocs) = record {
      same_installs = h.same_installs;
      same_upgrades = h.same_upgrades;
      same_removes = h.same_removes;
      same_skip = h.same_skip;
      same_prepared = h.same_prepared;
      justified = h.justified;
    }
