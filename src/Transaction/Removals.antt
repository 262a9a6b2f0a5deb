-- ===== src/Transaction/Removals.antt =====
-- `push_removals_in_order` of src/transaction/prepare.c: packages are removed before what they
-- depend on.
use lib_apg.Base.{
  ℕ, zero, suc, Bool, true, false, not, ◌&&◌, ◌||◌, List, [], ◌∷◌, Option, none, some, length,
  get_or, set, replicate, map, ◌==◌, if◌then◌else◌, Allocs, granted, later,
}
use lib_apg.CString.{CStr, str_eq}
use lib_apg.Package.{DepConstraint}
use lib_apg.Transaction.{TransError, trans_ok, err_nomem, out_of_fuel, PackageFile, remove, Trans}
use lib_apg.Transaction.Push.{then_trans, plan_push}

-- The loop over `provides`.
unfoldable pub is_provided : CStr → List CStr → Bool
is_provided dep [] = false
is_provided dep (p ∷ provides) = str_eq dep p || is_provided dep provides

-- The loop over the dependencies.
unfoldable pub needs_target : List DepConstraint → CStr → List CStr → Bool
unfolding is_provided
needs_target [] name provides = false
needs_target (d ∷ deps) name provides =
    (str_eq d.name name || is_provided d.name provides) || needs_target deps name provides

-- A package that is not installed is NULL.
unfoldable pub depends_on : Option PackageFile → Option PackageFile → Bool
unfolding needs_target
depends_on none target = false
depends_on (some pkg) none = false
depends_on (some pkg) (some target) = elim target.meta.name [
  | none ↦ false
  | some name ↦ needs_target pkg.meta.dependencies name target.meta.provides
]

module _ (pkgs : List (Option PackageFile)) where
  -- The loop over j, for n packages from index j on.
  unfoldable pub needed_from : ℕ → ℕ → List Bool → ℕ → Bool
  unfolding depends_on
  needed_from zero j done i = false
  needed_from (suc n) j done i =
      ((not (j == i) && not (get_or done j true))
        && depends_on (get_or pkgs j none) (get_or pkgs i none))
      || needed_from n (suc j) done i

  -- Is package i needed by another that is not done?
  unfoldable pub is_needed : List Bool → ℕ → Bool
  unfolding needed_from
  is_needed done i = needed_from (length pkgs) 0 done i

  abbrev pub first_of : Option ℕ → ℕ → Option ℕ
  first_of none i = some i
  first_of (some k) i = some k

  -- The loop over i, for n packages from index i on: the first that nobody needs, and else the first
  -- that is not done.
  unfoldable pub pick_from : ℕ → ℕ → List Bool → Option ℕ → Option ℕ
  unfolding is_needed
  pick_from zero i done fallback = fallback
  pick_from (suc n) i done fallback =
      let next = pick_from n (suc i) done in
      if get_or done i true
      then next fallback
      else if is_needed done i
      then next (first_of fallback i)
      else some i

  -- The loop over `emitted`, n more times. `out_of_fuel` stands for an index that is not in the arrays.
  unfoldable pub remove_loop :
      List CStr → ℕ → List Bool → Trans → Allocs → TransError × Trans × Allocs
  unfolding pick_from plan_push
  remove_loop names zero done t allocs = (trans_ok, t, allocs)
  remove_loop names (suc n) done t allocs = elim (pick_from (length pkgs) 0 done none) [
    | none ↦ (out_of_fuel, t, allocs)
    | some pick ↦
        then_trans (plan_push t remove (get_or names pick []) none true none allocs)
          (λ t' rest. remove_loop names n (set done pick true) t' rest)
  ]

-- `db_get` is given for the names of the transaction.
unfoldable pub push_removals_in_order :
    (CStr → Option PackageFile) → List CStr → Trans → Allocs → TransError × Trans × Allocs
unfolding remove_loop
push_removals_in_order db_get [] t allocs = (trans_ok, t, allocs)
push_removals_in_order db_get (name ∷ names) t allocs =
    let count = length (name ∷ names) in
    if granted allocs && granted (later allocs)
    then remove_loop (map db_get (name ∷ names)) (name ∷ names) count (replicate count false) t
        (later (later allocs))
    else (err_nomem, t, later (later allocs))
