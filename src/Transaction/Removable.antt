-- ===== src/Transaction/Removable.antt =====
-- What empty reports say of the removals of src/transaction/prepare.c.
use lib_apg.Base.{
  ℕ, zero, suc, ◌≡◌, refl, ◌∙◌, subst, Bool, true, false, ◌&&◌, List, [], ◌∷◌, Option, none, some,
  length, map, get_or, set, replicate, All, Allocs, granted, later, grow, if_rule, if◌then◌else◌,
}
use mathlib.Core.List.{Memᴰ}
use lib_apg.CString.{CStr}
use lib_apg.Transaction.{remove, TransError, trans_ok, err_nomem, out_of_fuel, PackageFile, Trans}
use lib_apg.Transaction.Push.{then_trans, plan_push, held_push}
use lib_apg.Transaction.Prepare.{Sources}
use lib_apg.Transaction.Removals.{pick_from, remove_loop, push_removals_in_order}
use lib_apg.Transaction.Changes.{
  Outcome, is_held, kept_dependents, check_remove, one_removal, then_removals, check_removals,
  plan_removals, push_blocked,
}
use lib_apg.Transaction.Justified.{Reached, held_push-Reached, push_blocked-Reached}
use lib_apg.Transaction.Prepared.{kept_dependents-none}
use lib_apg.Transaction.Clear.{
  IsRemovable, Post, Post-map, then_trans-Post, then_trans_quiet, AnyState, held_push-Post,
  push_blocked-Post, plan_push-Post,
}

remove_loop-Post :
    (pkgs : List (Option PackageFile)) (names : List CStr) (n : ℕ) (done : List Bool) (t : Trans)
    (allocs : Allocs)
    → Post Unit t (remove_loop pkgs names n done t allocs)
unfolding remove_loop
remove_loop-Post pkgs names zero done t allocs = λ ok clear. record { before = clear; fact = tt }
remove_loop-Post pkgs names (suc n) done t allocs =
    by_pick (pick_from pkgs (length pkgs) 0 done none)
      (λ k t' rest. remove_loop-Post pkgs names n (set done k true) t' rest)
  where
    by_pick :
        (o : Option ℕ)
        → ((k : ℕ) (t' : Trans) (rest : Allocs)
            → Post Unit t' (remove_loop pkgs names n (set done k true) t' rest))
        → Post Unit t (elim o as (λ _. TransError × Trans × Allocs) [
          | none ↦ (out_of_fuel, t, allocs)
          | some pick ↦
              then_trans
                (plan_push t remove (get_or names pick []) none true none allocs)
                (λ t' rest. remove_loop pkgs names n (set done pick true) t' rest)
        ])
    by_pick none rec = λ ok clear. cc
    by_pick (some k) rec =
        then_trans_quiet t (plan_push t remove (get_or names k []) none true none allocs)
          (λ t' rest. remove_loop pkgs names n (set done k true) t' rest)
          (plan_push-Post t remove (get_or names k []) none true none allocs) (rec k)

push_removals-Post :
    (db_get : CStr → Option PackageFile) (names : List CStr) (t : Trans) (allocs : Allocs)
    → Post Unit t (push_removals_in_order db_get names t allocs)
unfolding push_removals_in_order
push_removals-Post db_get [] t allocs = λ ok clear. record { before = clear; fact = tt }
push_removals-Post db_get (name ∷ names) t allocs =
    if_rule (Post Unit t) (granted allocs && granted (later allocs))
      (λ _.
        remove_loop-Post (map db_get (name ∷ names)) (name ∷ names) (length (name ∷ names))
          (replicate (length (name ∷ names)) false) t (later (later allocs)))
      (λ _ ok clear. cc)

module _ (db : Sources) (t0 : Trans) where
  -- The state of a loop over the names to remove.
  abbrev PostOf : Type 0 → Trans → List CStr × Outcome → Type 0
  PostOf F t r = Post F t r.1

  check_remove-Post :
      (removals : List CStr) (name : CStr) (deps : List CStr) (t : Trans) (allocs : Allocs)
      → Post (deps ≡ []) t (check_remove removals name deps t allocs).1
  unfolding check_remove
  check_remove-Post removals name [] t allocs = λ ok clear. record { before = clear; fact = refl }
  check_remove-Post removals name (d ∷ deps) t allocs =
      Post-map t
        (push_blocked t name (d ∷ deps)
          (grow (length t.blocked_removes) t.blocked_remove_cap 4 allocs))
        (λ none_left. absurd none_left)
        (push_blocked-Post t name (d ∷ deps)
          (grow (length t.blocked_removes) t.blocked_remove_cap 4 allocs))

  check_remove-Reached :
      (removals : List CStr) (name : CStr) (deps : List CStr) (t : Trans) (allocs : Allocs)
      → Reached db t0 t
      → Reached db t0 (check_remove removals name deps t allocs).1.1
  unfolding check_remove
  check_remove-Reached removals name [] t allocs h = h
  check_remove-Reached removals name (d ∷ deps) t allocs h =
      push_blocked-Reached db t0 t h name (d ∷ deps)
        (grow (length t.blocked_removes) t.blocked_remove_cap 4 allocs)

  one_removal-Reached :
      (removals : List CStr) (name : CStr) (t : Trans) (allocs : Allocs)
      → Reached db t0 t
      → Reached db t0 (one_removal db removals name t allocs).1.1
  unfolding one_removal
  one_removal-Reached removals name t allocs h =
      if_rule (λ (r : List CStr × Outcome). Reached db t0 r.1.1) (is_held (db.db_get name))
        (λ _. held_push-Reached db t0 t h name remove allocs)
        (λ _. check_remove-Reached removals name _ t allocs h)

  one_removal-Post :
      (removals : List CStr) (name : CStr) (t : Trans) (allocs : Allocs)
      → Reached db t0 t
      → Post (IsRemovable db t0 name) t (one_removal db removals name t allocs).1
  unfolding one_removal
  one_removal-Post removals name t allocs h =
      if_rule (PostOf (IsRemovable db t0 name) t) (is_held (db.db_get name))
        (λ _.
          Post-map t (held_push t name remove allocs) (λ no_one. absurd no_one)
            (held_push-Post t name remove allocs))
        (λ free.
          Post-map t (check_remove removals name left t allocs).1
            (λ none_left. (
              free,
              λ checked.
                  subst (λ ns. All (λ d. Memᴰ d ns) (db.db_get_dependents name)) h.same_removes
                    (kept_dependents-none t.remove_names (db.db_get_dependents name)
                      (if_false t.skip_dependents_check _ (h.same_skip ∙ checked) none_left)),
            ))
            (check_remove-Post removals name left t allocs))
    where
      left : List CStr
      left =
          if t.skip_dependents_check
          then []
          else kept_dependents t.remove_names (db.db_get_dependents name)

      if_false : (b : Bool) (xs : List CStr) → b ≡ false → (if b then [] else xs) ≡ [] → xs ≡ []
      if_false true xs e q = cc
      if_false false xs e q = q

  then_removals-Post :
      {F G : Type 0} (t : Trans) (r : List CStr × Outcome)
      (next : List CStr → Trans → Allocs → List CStr × Outcome)
      → Reached db t0 r.1.1
      → Post F t r.1
      → ((removals : List CStr) (t' : Trans) (rest : Allocs)
          → Reached db t0 t'
          → Post G t' (next removals t' rest).1)
      → Post (F × G) t (then_removals r next).1
  then_removals-Post t (removals, (trans_ok, t', rest)) next h p q = λ ok clear.
      let late = q removals t' rest h ok clear in
      let early = p refl late.before in
      record { before = early.before; fact = (early.fact, late.fact) }
  then_removals-Post t (removals, (e, t', rest)) next h p q = λ ok clear. cc

  check_removals-Post :
      (names removals : List CStr) (t : Trans) (allocs : Allocs)
      → Reached db t0 t
      → Post (All (IsRemovable db t0) names) t (check_removals db names removals t allocs).1
  unfolding check_removals
  check_removals-Post [] removals t allocs h = λ ok clear. record { before = clear; fact = tt }
  check_removals-Post (name ∷ names) removals t allocs h =
      then_removals-Post t (one_removal db removals name t allocs)
        (λ removals' t' rest. check_removals db names removals' t' rest)
        (one_removal-Reached removals name t allocs h) (one_removal-Post removals name t allocs h)
        (λ removals' t' rest h'. check_removals-Post names removals' t' rest h')

  pub plan_removals-Post :
      (t : Trans) (allocs : Allocs)
      → Reached db t0 t
      → Post (All (IsRemovable db t0) t0.remove_names) t (plan_removals db t allocs)
  unfolding plan_removals
  plan_removals-Post t allocs h =
      subst (λ ns. Post (All (IsRemovable db t0) ns) t (plan_removals db t allocs)) h.same_removes
        (by_names t.remove_names refl)
    where
      by_names :
          (names : List CStr)
          → t.remove_names ≡ names
          → Post
              (All (IsRemovable db t0) names)
              t
              (elim names as (λ _. TransError × Trans × Allocs) [
                | [] ↦ push_removals_in_order db.db_get [] t allocs
                | n ∷ ns ↦
                    if granted allocs
                    then then_trans
                        (check_removals db t.remove_names [] t (later allocs)).1
                        (λ t' rest.
                          push_removals_in_order db.db_get
                            (check_removals db t.remove_names [] t (later allocs)).0
                            t'
                            rest)
                    else (err_nomem, t, later allocs)
              ])
      by_names [] e = push_removals-Post db.db_get [] t allocs
      by_names (n ∷ ns) e =
          if_rule (Post (All (IsRemovable db t0) (n ∷ ns)) t) (granted allocs)
            (λ _.
              Post-map t
                (then_trans (check_removals db t.remove_names [] t (later allocs)).1 (λ t' rest.
                  push_removals_in_order db.db_get
                    (check_removals db t.remove_names [] t (later allocs)).0 t' rest))
                (λ (f : All (IsRemovable db t0) t.remove_names × Unit).
                  subst (λ ms. All (IsRemovable db t0) ms) e f.0)
                (then_trans-Post AnyState t (check_removals db t.remove_names [] t (later allocs)).1
                  (λ t' rest.
                    push_removals_in_order db.db_get
                      (check_removals db t.remove_names [] t (later allocs)).0 t' rest)
                  tt (check_removals-Post t.remove_names [] t (later allocs) h)
                  (λ t' rest _. push_removals-Post db.db_get _ t' rest)))
            (λ _ ok clear. cc)
