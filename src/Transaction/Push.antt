-- ===== src/Transaction/Push.antt =====
-- The helpers of src/transaction/prepare.c that append to the arrays of a transaction and search
-- them.
use lib_apg.Base.{
  ℕ, ◌*◌, Bool, false, ◌&&◌, ◌||◌, List, [], ◌∷◌, ◌++◌, Option, none, some, length, ◌==◌,
  if◌then◌else◌, Allocs, granted, later, grow,
}
use lib_apg.CString.{CStr, str_eq}
use lib_apg.Transaction.{
  TransOp, TransError, trans_ok, err_nomem, PackageFile, TransStep, Trans, copy_string,
}

-- `strcmp(m->name, name) == 0` for metadata whose name may be NULL.
abbrev pub is_named : CStr → PackageFile → Bool
is_named name pkg = elim pkg.meta.name [ none ↦ false | some n ↦ str_eq n name ]

unfoldable pub in_strarray : List CStr → CStr → Bool
in_strarray [] name = false
in_strarray (x ∷ xs) name = str_eq x name || in_strarray xs name

abbrev pub then_trans :
    TransError × Trans × Allocs
    → (Trans → Allocs → TransError × Trans × Allocs)
    → TransError × Trans × Allocs
then_trans (trans_ok, t, allocs) next = next t allocs
then_trans (e, t, allocs) next = (e, t, allocs)

unfoldable pub push_held : Trans → CStr → TransOp → Option ℕ × Allocs → TransError × Trans × Allocs
push_held t pkg_name op (none, allocs) = (err_nomem, t, allocs)
push_held t pkg_name op (some cap, allocs) =
    let t' = record t { held_cap = cap } in
    if granted allocs
    then (
      trans_ok,
      record t' { held_pkgs = t.held_pkgs ++ (record { pkg_name = pkg_name; op = op } ∷ []) },
      later allocs,
    )
    else (err_nomem, t', later allocs)

unfoldable pub held_push : Trans → CStr → TransOp → Allocs → TransError × Trans × Allocs
unfolding push_held
held_push t pkg_name op allocs =
    push_held t pkg_name op (grow (length t.held_pkgs) t.held_cap 4 allocs)

unfoldable pub plan_has_in : List TransStep → CStr → Bool
plan_has_in [] name = false
plan_has_in (s ∷ steps) name = str_eq s.pkg_name name || plan_has_in steps name

unfoldable pub plan_has : Trans → CStr → Bool
unfolding plan_has_in
plan_has t name = plan_has_in t.plan name

-- The loop that `find_install_pkg` and `find_candidate_pkg` share.
unfoldable pub find_pkg : List PackageFile → CStr → Option PackageFile
find_pkg [] name = none
find_pkg (p ∷ ps) name = let rest = find_pkg ps name in if is_named name p then some p else rest

unfoldable pub find_install_pkg : Trans → CStr → Option PackageFile
unfolding find_pkg
find_install_pkg t name = find_pkg t.install_pkgs name

unfoldable pub find_candidate_pkg : Trans → CStr → Option PackageFile
unfolding find_pkg
find_candidate_pkg t name = find_pkg t.candidate_pkgs name

unfoldable pub any_named : List PackageFile → CStr → Bool
any_named [] name = false
any_named (p ∷ ps) name = is_named name p || any_named ps name

unfoldable pub is_explicit : Trans → CStr → Bool
unfolding any_named
is_explicit t name = any_named t.install_pkgs name

-- Two arrays of the same size.
unfoldable pub both_arrays : ℕ → Allocs → Option ℕ × Allocs
both_arrays cap allocs =
    (if granted allocs && granted (later allocs) then some cap else none, later (later allocs))

-- The arrays `plan` and `plan_pkgs`.
unfoldable pub plan_room : Trans → Allocs → Option ℕ × Allocs
unfolding both_arrays
plan_room t allocs =
    if t.plan_cap == 0
    then both_arrays 8 allocs
    else if length t.plan == t.plan_cap
    then both_arrays (t.plan_cap * 2) allocs
    else (some t.plan_cap, allocs)

-- The step in its slot. A version that cannot be copied is left out.
unfoldable pub push_step :
    Trans
    → TransOp
    → CStr
    → Option CStr
    → Bool
    → Option PackageFile
    → Option ℕ × Allocs
    → TransError × Trans × Allocs
unfolding copy_string
push_step t op name version explicit_req pkg (none, allocs) = (err_nomem, t, allocs)
push_step t op name version explicit_req pkg (some cap, allocs) =
    let t' = record t { plan_cap = cap } in
    let (copy, rest) = copy_string version (later allocs) in
    if granted allocs
    then (
      trans_ok,
      record t' {
        plan =
            t.plan
            ++ (record { op = op; pkg_name = name; pkg_version = copy; explicit = explicit_req }
                ∷ []);
        plan_pkgs = t.plan_pkgs ++ (pkg ∷ []);
      },
      rest,
    )
    else (err_nomem, t', rest)

unfoldable pub plan_push :
    Trans
    → TransOp
    → CStr
    → Option CStr
    → Bool
    → Option PackageFile
    → Allocs
    → TransError × Trans × Allocs
unfolding plan_room push_step
plan_push t op name version explicit_req pkg allocs =
    push_step t op name version explicit_req pkg (plan_room t allocs)

unfoldable pub push_conflict : Trans → CStr → CStr → Option ℕ × Allocs → TransError × Trans × Allocs
push_conflict t pkg_name conflicts_with (none, allocs) = (err_nomem, t, allocs)
push_conflict t pkg_name conflicts_with (some cap, allocs) =
    let t' = record t { conflict_cap = cap } in
    if granted allocs && granted (later allocs)
    then (
      trans_ok,
      record t' {
        conflicts =
            t.conflicts ++ (record { pkg_name = pkg_name; conflicts_with = conflicts_with } ∷ []);
      },
      later (later allocs),
    )
    else (err_nomem, t', later (later allocs))

unfoldable pub conflict_push : Trans → CStr → CStr → Allocs → TransError × Trans × Allocs
unfolding push_conflict
conflict_push t pkg_name conflicts_with allocs =
    push_conflict t pkg_name conflicts_with (grow (length t.conflicts) t.conflict_cap 4 allocs)
