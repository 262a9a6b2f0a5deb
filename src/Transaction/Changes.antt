-- ===== src/Transaction/Changes.antt =====
-- The upgrades and removals of `trans_prepare` of src/transaction/prepare.c.
use lib_apg.Base.{
  ℕ, Bool, true, false, List, [], ◌∷◌, ◌++◌, Option, none, some, length, if◌then◌else◌, Allocs,
  granted, later, grow,
}
use lib_apg.CString.{CStr}
use lib_apg.Transaction.{
  remove, upgrade, TransError, trans_ok, err_nomem, PackageFile, BlockedRemove, Trans,
}
use lib_apg.Transaction.Push.{in_strarray, then_trans, held_push, plan_push}
use lib_apg.Transaction.Removals.{push_removals_in_order}
use lib_apg.Transaction.Prepare.{Sources, name_or_empty}

abbrev pub Outcome : Type 0
Outcome = TransError × Trans × Allocs

abbrev pub is_held : Option PackageFile → Bool
is_held none = false
is_held (some p) = p.held

-- `by_hand`
abbrev pub is_by_hand : Option PackageFile → Bool
is_by_hand none = true
is_by_hand (some p) = p.installed_by_hand

-- The loop over the upgrades.
unfoldable pub plan_upgrades :
    Sources → List PackageFile → Trans → Allocs → TransError × Trans × Allocs
unfolding held_push plan_push
plan_upgrades db [] t allocs = (trans_ok, t, allocs)
plan_upgrades db (p ∷ ps) t allocs =
    let old = db.db_get (name_or_empty p) in
    then_trans
      (if is_held old
        then held_push t (name_or_empty p) upgrade allocs
        else plan_push t upgrade (name_or_empty p) p.meta.version (is_by_hand old) (some p) allocs)
      (λ t' rest. plan_upgrades db ps t' rest)

-- The dependents that are not removed too.
unfoldable pub kept_dependents : List CStr → List CStr → List CStr
unfolding in_strarray
kept_dependents remove_names [] = []
kept_dependents remove_names (d ∷ deps) =
    let rest = kept_dependents remove_names deps in
    if in_strarray remove_names d then rest else d ∷ rest

-- The entry stays also if the name cannot be copied; it is then without a name, here the empty one.
unfoldable pub push_blocked :
    Trans → CStr → List CStr → Option ℕ × Allocs → TransError × Trans × Allocs
push_blocked t name deps (none, allocs) = (err_nomem, t, allocs)
push_blocked t name deps (some cap, allocs) =
    let entry : BlockedRemove = record {
      pkg_name = if granted allocs then name else [];
      dependents = deps;
    } in
    (
      if granted allocs then trans_ok else err_nomem,
      record t { blocked_removes = t.blocked_removes ++ (entry ∷ []); blocked_remove_cap = cap },
      later allocs,
    )

-- A name of the queue, once it is not held: blocked by its dependents, or `removals` with it.
unfoldable pub check_remove : List CStr → CStr → List CStr → Trans → Allocs → List CStr × Outcome
unfolding push_blocked
check_remove removals name [] t allocs = (removals ++ (name ∷ []), (trans_ok, t, allocs))
check_remove removals name (d ∷ deps) t allocs = (
  removals,
  push_blocked t name (d ∷ deps) (grow (length t.blocked_removes) t.blocked_remove_cap 4 allocs),
)

unfoldable pub one_removal : Sources → List CStr → CStr → Trans → Allocs → List CStr × Outcome
unfolding check_remove kept_dependents held_push
one_removal db removals name t allocs =
    if is_held (db.db_get name)
    then (removals, held_push t name remove allocs)
    else check_remove removals name
        (if t.skip_dependents_check
          then []
          else kept_dependents t.remove_names (db.db_get_dependents name))
        t allocs

abbrev pub then_removals :
    List CStr × Outcome → (List CStr → Trans → Allocs → List CStr × Outcome) → List CStr × Outcome
then_removals (removals, (trans_ok, t, allocs)) next = next removals t allocs
then_removals (removals, (e, t, allocs)) next = (removals, (e, t, allocs))

-- The loop over the names to remove.
unfoldable pub check_removals :
    Sources → List CStr → List CStr → Trans → Allocs → List CStr × Outcome
unfolding one_removal
check_removals db [] removals t allocs = (removals, (trans_ok, t, allocs))
check_removals db (name ∷ names) removals t allocs =
    then_removals (one_removal db removals name t allocs)
      (λ removals' t' rest. check_removals db names removals' t' rest)

-- `calloc` for the names to remove, the loop, and the order.
unfoldable pub plan_removals : Sources → Trans → Allocs → TransError × Trans × Allocs
unfolding check_removals push_removals_in_order
plan_removals db t allocs = elim t.remove_names [
  | [] ↦ push_removals_in_order db.db_get [] t allocs
  | n ∷ ns ↦
      if granted allocs
      then (let (removals, result) = check_removals db t.remove_names [] t (later allocs) in
          then_trans result (λ t' rest. push_removals_in_order db.db_get removals t' rest))
      else (err_nomem, t, later allocs)
]
