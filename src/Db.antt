-- ===== src/Db.antt =====
-- The queries of src/db that only read the list of the installed packages: src/db/str_vec.c and
-- src/db/orphans.c.
pub mod Orphans
use lib_apg.Base.{
  ℕ, Bool, true, false, not, ◌&&◌, ◌||◌, List, [], ◌∷◌, ◌++◌, Option, none, some, length,
  if◌then◌else◌, Allocs, granted, later, grow,
}
use lib_apg.CString.{CStr}
use lib_apg.Package.{DepConstraint}
use lib_apg.StrMap.{StrMap, str_map_init, str_map_get, str_map_set}
use lib_apg.Transaction.{PackageFile}

-- `struct str_vec`: the count is the length, and `items` is NULL while the capacity is 0.
pub record StrVec : Type 0 where
  pub items : List CStr
  pub cap : ℕ

abbrev pub push_copy : StrVec → CStr → Option ℕ × Allocs → Bool × StrVec × Allocs
push_copy v str (none, allocs) = (false, v, allocs)
push_copy v str (some cap, allocs) =
    if granted allocs
    then (true, record { items = v.items ++ (str ∷ []); cap = cap }, later allocs)
    else (false, record v { cap = cap }, later allocs)

unfoldable pub str_vec_push : StrVec → CStr → Allocs → Bool × StrVec × Allocs
str_vec_push v str allocs = push_copy v str (grow (length v.items) v.cap 8 allocs)

abbrev pub then_set :
    Bool × StrMap × Allocs → (StrMap → Allocs → Bool × StrMap × Allocs) → Bool × StrMap × Allocs
then_set (true, m, allocs) next = next m allocs
then_set (false, m, allocs) next = (false, m, allocs)

-- The loop over the dependencies of a package. Its metadata and the names of its dependencies are never
-- NULL here, so that the tests for NULL fall away.
unfoldable pub set_deps : List DepConstraint → StrMap → Allocs → Bool × StrMap × Allocs
unfolding str_map_set
set_deps [] needed allocs = (true, needed, allocs)
set_deps (d ∷ deps) needed allocs =
    then_set (str_map_set needed d.name 1 allocs) (λ m rest. set_deps deps m rest)

unfoldable pub build_needed_set : List PackageFile → StrMap → Allocs → Bool × StrMap × Allocs
unfolding set_deps
build_needed_set [] needed allocs = (true, needed, allocs)
build_needed_set (p ∷ all) needed allocs =
    then_set (set_deps p.meta.dependencies needed allocs) (λ m rest. build_needed_set all m rest)

abbrev pub is_key : StrMap → CStr → Bool
is_key needed name = elim (str_map_get needed name) [ none ↦ false | some _ ↦ true ]

abbrev pub is_provided_key : List CStr → StrMap → Bool
is_provided_key [] needed = false
is_provided_key (p ∷ provides) needed = is_key needed p || is_provided_key provides needed

-- `is_needed` of a package with a name.
abbrev pub is_needed_in : CStr → List CStr → StrMap → Bool
is_needed_in name provides needed = is_key needed name || is_provided_key provides needed

-- The three tests that pass a package over.
abbrev pub is_orphan : PackageFile → StrMap → Option CStr
is_orphan p needed = elim p.meta.name [
  | none ↦ none
  | some name ↦
      if p.installed_by_hand
      then none
      else if is_needed_in name p.meta.provides needed
      then none
      else some name
]

abbrev pub then_push :
    Bool × StrVec × Allocs → (StrVec → Allocs → StrVec × Allocs) → StrVec × Allocs
then_push (true, v, allocs) next = next v allocs
then_push (false, v, allocs) next = (v, allocs)

unfoldable pub push_orphans : List PackageFile → StrMap → StrVec → Allocs → StrVec × Allocs
unfolding str_vec_push
push_orphans [] needed v allocs = (v, allocs)
push_orphans (p ∷ all) needed v allocs = elim (is_orphan p needed) [
  | none ↦ push_orphans all needed v allocs
  | some name ↦ then_push (str_vec_push v name allocs) (λ v' rest. push_orphans all needed v' rest)
]

abbrev pub list_orphans : List PackageFile → Bool × StrMap × Allocs → List CStr × Allocs
list_orphans all (false, needed, allocs) = ([], allocs)
list_orphans all (true, needed, allocs) =
    let (v, rest) = push_orphans all needed (record { items = []; cap = 0 }) allocs in
    (v.items, rest)

abbrev pub orphans_in : List PackageFile → Option StrMap × Allocs → List CStr × Allocs
orphans_in all (none, allocs) = ([], allocs)
orphans_in all (some needed, allocs) = list_orphans all (build_needed_set all needed allocs)

-- `db_list` returns the installed packages, or NULL. The array that is returned is NULL where the list is empty, so that
-- a failure returns the same as a database without orphans.
unfoldable pub db_get_orphans : Option (List PackageFile) → Allocs → List CStr × Allocs
unfolding str_map_init build_needed_set push_orphans
db_get_orphans none allocs = ([], allocs)
db_get_orphans (some all) allocs = orphans_in all (str_map_init allocs)
