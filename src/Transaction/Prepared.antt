-- ===== src/Transaction/Prepared.antt =====
-- The removals that `trans_prepare` of src/transaction/prepare.c plans are justified.
use lib_apg.Base.{
  ℕ, zero, suc, ◌<◌, ◌≡◌, refl, sym, ap, ◌∙◌, inl, inr, Bool, true, false, ◌&&◌, List, [], ◌∷◌,
  Option, none, some, length, get_or, set, replicate, map, arith, All, All-append, All-of, subst,
  if◌then◌else◌, Allocs, granted, later, grow, Bool-cases, if_rule, length-replicate, length-set,
}
use mathlib.Core.List.{Memᴰ}
use lib_apg.CString.{CStr, str_eq, str_eq_sound}
use lib_apg.Transaction.{remove, TransError, trans_ok, err_nomem, out_of_fuel, PackageFile, Trans}
use lib_apg.Transaction.Push.{in_strarray, then_trans, plan_push}
use lib_apg.Transaction.Removals.{pick_from, remove_loop, push_removals_in_order}
use lib_apg.Transaction.Order.{get_or-lt, pick-left}
use lib_apg.Transaction.Prepare.{Sources}
use lib_apg.Transaction.Changes.{
  Outcome, is_held, kept_dependents, check_remove, one_removal, then_removals, check_removals,
  plan_removals,
}
use lib_apg.Transaction.Justified.{
  Justified, Reached, then_trans-Reached, held_push-Reached, plan_push-Reached,
  push_blocked-Reached,
}

in_strarray-Memᴰ :
    (names : List CStr) (name : CStr) → in_strarray names name ≡ true → Memᴰ name names
unfolding in_strarray
in_strarray-Memᴰ [] name e = cc
in_strarray-Memᴰ (n ∷ names) name e = elim (Bool-cases (str_eq n name)) [
  | inl s ↦ Memᴰ.head (sym (str_eq_sound n name s))
  | inr f ↦ Memᴰ.tail (in_strarray-Memᴰ names name (rw (f, in_strarray) at e))
]

pub kept_dependents-none :
    (names deps : List CStr) → kept_dependents names deps ≡ [] → All (λ d. Memᴰ d names) deps
unfolding kept_dependents
kept_dependents-none names [] e = tt
kept_dependents-none names (d ∷ deps) e = elim (Bool-cases (in_strarray names d)) [
  | inl s ↦
      (in_strarray-Memᴰ names d s, kept_dependents-none names deps (rw (s, kept_dependents) at e))
  | inr f ↦ absurd (nonempty d (kept_dependents names deps) (rw (f, kept_dependents) at e))
]
  where
    nonempty : (x : CStr) (xs : List CStr) → ¬ (x ∷ xs ≡ [])
    nonempty x xs q = cc

All-get_or :
    (P : CStr → Type 0) (names : List CStr) (k : ℕ)
    → k < length names
    → All P names
    → P (get_or names k [])
All-get_or P [] k lt all = absurd (omega (arith, lt))
All-get_or P (n ∷ names) zero lt all = all.0
All-get_or P (n ∷ names) (suc k) lt all = All-get_or P names k (omega (arith, lt)) all.1

length-map : (f : CStr → Option PackageFile) (ns : List CStr) → length (map f ns) ≡ length ns
length-map f [] = refl
length-map f (n ∷ ns) = ap suc (length-map f ns)

module _ (db : Sources) (t0 : Trans) where
  remove_loop-Reached :
      (pkgs : List (Option PackageFile)) (names : List CStr) (n : ℕ) (done : List Bool) (t : Trans)
      (allocs : Allocs)
      → length pkgs ≡ length names
      → length done ≡ length pkgs
      → All (Justified db t0 remove) names
      → Reached db t0 t
      → Reached db t0 (remove_loop pkgs names n done t allocs).1
  unfolding remove_loop
  remove_loop-Reached pkgs names zero done t allocs same size why h = h
  remove_loop-Reached pkgs names (suc n) done t allocs same size why h =
      by_pick (pick_from pkgs (length pkgs) 0 done none) refl (λ k t' rest h'.
        remove_loop-Reached pkgs names n (set done k true) t' rest same
          (length-set done k true ∙ size) why h')
    where
      by_pick :
          (o : Option ℕ)
          → pick_from pkgs (length pkgs) 0 done none ≡ o
          → ((k : ℕ) (t' : Trans) (rest : Allocs)
              → Reached db t0 t'
              → Reached db t0 (remove_loop pkgs names n (set done k true) t' rest).1)
          → Reached db t0
              (elim o as (λ _. TransError × Trans × Allocs) [
                | none ↦ (out_of_fuel, t, allocs)
                | some pick ↦
                    then_trans
                      (plan_push t remove (get_or names pick []) none true none allocs)
                      (λ t' rest. remove_loop pkgs names n (set done pick true) t' rest)
              ]).1
      by_pick none e rec = h
      by_pick (some k) e rec =
          let lt = get_or-lt done k (pick-left pkgs done size k e) in
          then_trans-Reached db t0 (plan_push t remove (get_or names k []) none true none allocs)
            (λ t' rest. remove_loop pkgs names n (set done k true) t' rest)
            (plan_push-Reached db t0 t h remove (get_or names k []) none true none allocs
              (All-get_or (Justified db t0 remove) names k (omega (arith, lt, size, same)) why))
            (rec k)

  push_removals-Reached :
      (names : List CStr) (t : Trans) (allocs : Allocs)
      → All (Justified db t0 remove) names
      → Reached db t0 t
      → Reached db t0 (push_removals_in_order db.db_get names t allocs).1
  unfolding push_removals_in_order
  push_removals-Reached [] t allocs why h = h
  push_removals-Reached (name ∷ names) t allocs why h =
      if_rule (λ (q : TransError × Trans × Allocs). Reached db t0 q.1)
        (granted allocs && granted (later allocs))
        (λ _.
          remove_loop-Reached (map db.db_get (name ∷ names)) (name ∷ names) (length (name ∷ names))
            (replicate (length (name ∷ names)) false) t (later (later allocs))
            (length-map db.db_get (name ∷ names))
            (length-replicate (length (name ∷ names)) false
              ∙ sym (length-map db.db_get (name ∷ names)))
            why h)
        (λ _. h)

  -- Both the names to remove and the state.
  abbrev Checked : List CStr × Outcome → Type 0
  Checked r = All (Justified db t0 remove) r.0 × Reached db t0 r.1.1

  check_remove-Checked :
      (removals : List CStr) (name : CStr) (deps : List CStr) (t : Trans) (allocs : Allocs)
      → All (Justified db t0 remove) removals
      → (deps ≡ [] → Justified db t0 remove name)
      → Reached db t0 t
      → Checked (check_remove removals name deps t allocs)
  unfolding check_remove
  check_remove-Checked removals name [] t allocs why new h =
      (All-append (Justified db t0 remove) removals (name ∷ []) why (new refl, tt), h)
  check_remove-Checked removals name (d ∷ deps) t allocs why new h = (
    why,
    push_blocked-Reached db t0 t h name (d ∷ deps)
        (grow (length t.blocked_removes) t.blocked_remove_cap 4 allocs),
  )

  one_removal-Checked :
      (removals : List CStr) (name : CStr) (t : Trans) (allocs : Allocs)
      → All (Justified db t0 remove) removals
      → Memᴰ name t0.remove_names
      → Reached db t0 t
      → Checked (one_removal db removals name t allocs)
  unfolding one_removal
  one_removal-Checked removals name t allocs why queued h =
      if_rule Checked (is_held (db.db_get name))
        (λ _. (why, held_push-Reached db t0 t h name remove allocs))
        (λ free.
          check_remove-Checked removals name
            (if t.skip_dependents_check
              then []
              else kept_dependents t.remove_names (db.db_get_dependents name))
            t allocs why
            (λ none_left. (
              free,
              queued,
              λ checked.
                  subst (λ ns. All (λ d. Memᴰ d ns) (db.db_get_dependents name)) h.same_removes
                    (kept_dependents-none t.remove_names (db.db_get_dependents name)
                      (rw (h.same_skip ∙ checked) at none_left)),
            ))
            h)

  then_removals-Checked :
      (r : List CStr × Outcome) (next : List CStr → Trans → Allocs → List CStr × Outcome)
      → Checked r
      → ((removals : List CStr) (t : Trans) (rest : Allocs)
          → Checked (removals, (trans_ok, t, rest))
          → Checked (next removals t rest))
      → Checked (then_removals r next)
  then_removals-Checked (removals, (trans_ok, t, rest)) next h f = f removals t rest h
  then_removals-Checked (removals, (e, t, rest)) next h f = h

  check_removals-Checked :
      (names removals : List CStr) (t : Trans) (allocs : Allocs)
      → All (λ n. Memᴰ n t0.remove_names) names
      → All (Justified db t0 remove) removals
      → Reached db t0 t
      → Checked (check_removals db names removals t allocs)
  unfolding check_removals
  check_removals-Checked [] removals t allocs queued why h = (why, h)
  check_removals-Checked (name ∷ names) removals t allocs queued why h =
      then_removals-Checked (one_removal db removals name t allocs)
        (λ removals' t' rest. check_removals db names removals' t' rest)
        (one_removal-Checked removals name t allocs why queued.0 h)
        (λ removals' t' rest c. check_removals-Checked names removals' t' rest queued.1 c.0 c.1)

  pub plan_removals-Reached :
      (t : Trans) (allocs : Allocs) → Reached db t0 t → Reached db t0 (plan_removals db t allocs).1
  unfolding plan_removals
  plan_removals-Reached t allocs h = by_names t.remove_names refl
    where
      by_result :
          (r : List CStr × Outcome)
          → Checked r
          → Reached db t0
              (then_trans r.1 (λ t' rest. push_removals_in_order db.db_get r.0 t' rest)).1
      by_result (removals, result) c =
          then_trans-Reached db t0 result
            (λ t' rest. push_removals_in_order db.db_get removals t' rest) c.1
            (λ t' rest h'. push_removals-Reached removals t' rest c.0 h')

      by_names :
          (names : List CStr)
          → t.remove_names ≡ names
          → Reached db t0
              (elim names as (λ _. TransError × Trans × Allocs) [
                | [] ↦ push_removals_in_order db.db_get [] t allocs
                | n ∷ ns ↦
                    if granted allocs
                    then then_trans
                        (check_removals db t.remove_names [] t (later allocs)).1
                        (λ t' rest.
                          push_removals_in_order db.db_get
                            (check_removals db t.remove_names [] t (later allocs)).0
                            t'
                            rest)
                    else (err_nomem, t, later allocs)
              ]).1
      by_names [] e = push_removals-Reached [] t allocs tt h
      by_names (n ∷ ns) e =
          if_rule (λ (q : TransError × Trans × Allocs). Reached db t0 q.1) (granted allocs)
            (λ _. by_result (check_removals db t.remove_names [] t (later allocs)) (
              check_removals-Checked t.remove_names [] t (later allocs)
                (All-of (λ n. Memᴰ n t0.remove_names) t.remove_names
                  (λ n m. subst (Memᴰ n) h.same_removes m))
                tt h))
            (λ _. h)
