-- ===== src/Transaction.antt =====
-- Transactions: the state of src/transaction/trans_priv.h, and the operations of
-- src/transaction/transaction.c that set it up and read it.
pub mod Queue
pub mod Push
pub mod Removals
pub mod Prepare
pub mod Changes
pub mod Planned
pub mod Justified
pub mod Reasons
pub mod Needs
pub mod Order
pub mod Removed
pub mod Prepared
pub mod Clear
pub mod Owners
pub mod Quiet
pub mod Cleared
pub mod Removable
pub mod Unobstructed
pub mod Result
pub mod Commit
use lib_apg.Base.{
  ℕ, zero, suc, ◌-◌, ◌*◌, Bool, true, false, ◌&&◌, List, [], ◌∷◌, ◌++◌, Option, none, some, length,
  get_elem?, ltb, ◌==◌, if◌then◌else◌, Allocs, granted, later, grow, ℤ, pos, negsuc,
}
use lib_apg.CString.{CStr, str_eq}
use lib_apg.Package.{Package}

-- trans_op_t
pub data TransOp : Type 0 where
  install remove upgrade : TransOp

-- trans_error_t. The last two are the model's own: the search of the resolver ran out of fuel, and a
-- step without the package that it installs.
pub data TransError : Type 0 where
  trans_ok err_nomem err_conflict err_missing_dep err_cycle err_not_prepared : TransError
  err_already_committed err_install_failed err_unsigned err_has_dependents : TransError
  err_file_conflict err_held err_db err_remove_failed out_of_fuel null_package : TransError

-- `struct package`, whose metadata is never NULL. `none` is a NULL field or item; `conf` is the list of
-- the metadata.
pub record PackageFile : Type 0 where
  pub meta : Package
  pub pkg_path : Option CStr
  pub package_files : List (Option CStr)
  pub conf : List (Option CStr)
  pub installed_by_hand : Bool
  pub held : Bool

pub record TransStep : Type 0 where
  pub op : TransOp
  pub pkg_name : CStr
  pub pkg_version : Option CStr
  pub explicit : Bool

pub record TransConflict : Type 0 where
  pub pkg_name : CStr
  pub conflicts_with : CStr

pub record FileConflict : Type 0 where
  pub path : CStr
  pub requested_by : CStr
  pub owned_by : CStr

pub record HeldPkg : Type 0 where
  pub pkg_name : CStr
  pub op : TransOp

pub record BlockedRemove : Type 0 where
  pub pkg_name : CStr
  pub dependents : List CStr

pub record ProviderPref : Type 0 where
  pub alias : CStr
  pub pkg_name : CStr

pub record InstallPolicy : Type 0 where
  pub require_signature : Bool
  pub keyring_dir : Option CStr
  pub skip_dependency_check : Bool
  pub skip_dependents_check : Bool

-- The database and the progress callback are not part of the record. A count is the length of its
-- list; an array that is still NULL has the capacity 0. `plan_pkgs` runs parallel to `plan`.
pub record Trans : Type 0 where
  pub install_pkgs : List PackageFile
  pub install_cap : ℕ
  pub upgrade_pkgs : List PackageFile
  pub upgrade_cap : ℕ
  pub remove_names : List CStr
  pub remove_cap : ℕ
  pub candidate_pkgs : List PackageFile
  pub candidate_cap : ℕ
  pub plan : List TransStep
  pub plan_cap : ℕ
  pub plan_pkgs : List (Option PackageFile)
  pub conflicts : List TransConflict
  pub conflict_cap : ℕ
  pub blocked_removes : List BlockedRemove
  pub blocked_remove_cap : ℕ
  pub file_conflicts : List FileConflict
  pub file_conflict_cap : ℕ
  pub held_pkgs : List HeldPkg
  pub held_cap : ℕ
  pub provider_prefs : List ProviderPref
  pub provider_pref_cap : ℕ
  pub prepared : Bool
  pub committed : Bool
  pub require_signature : Bool
  pub keyring_dir : Option CStr
  pub skip_dependency_check : Bool
  pub skip_dependents_check : Bool
  pub dry_run : Bool

abbrev pub new_trans : Trans
new_trans = record {
  install_pkgs = [];
  install_cap = 8;
  upgrade_pkgs = [];
  upgrade_cap = 8;
  remove_names = [];
  remove_cap = 8;
  candidate_pkgs = [];
  candidate_cap = 8;
  plan = [];
  plan_cap = 0;
  plan_pkgs = [];
  conflicts = [];
  conflict_cap = 0;
  blocked_removes = [];
  blocked_remove_cap = 0;
  file_conflicts = [];
  file_conflict_cap = 0;
  held_pkgs = [];
  held_cap = 0;
  provider_prefs = [];
  provider_pref_cap = 0;
  prepared = false;
  committed = false;
  require_signature = false;
  keyring_dir = none;
  skip_dependency_check = false;
  skip_dependents_check = false;
  dry_run = false;
}

-- The outcomes of n allocations, one after the other, up to the first that fails.
abbrev pub all_granted : ℕ → Allocs → Bool × Allocs
all_granted zero allocs = (true, allocs)
all_granted (suc n) allocs =
    let rest = all_granted n (later allocs) in
    if granted allocs then rest else (false, later allocs)

-- `calloc`, and the four arrays.
unfoldable pub trans_new : Allocs → Option Trans × Allocs
trans_new allocs =
    let (made, rest) = all_granted 5 allocs in if made then (some new_trans, rest) else (none, rest)

-- `strdup` of a string that may be NULL, which then is not called.
unfoldable pub copy_string : Option CStr → Allocs → Option CStr × Allocs
copy_string none allocs = (none, allocs)
copy_string (some s) allocs = (if granted allocs then some s else none, later allocs)

unfoldable pub trans_set_policy : Trans → Option InstallPolicy → Allocs → Trans × Allocs
unfolding copy_string
trans_set_policy t none allocs = (
  record t {
    keyring_dir = none;
    require_signature = false;
    skip_dependency_check = false;
    skip_dependents_check = false;
  },
  allocs,
)
trans_set_policy t (some policy) allocs =
    let (dir, rest) = copy_string policy.keyring_dir allocs in
    (
      record t {
        keyring_dir = dir;
        require_signature = policy.require_signature;
        skip_dependency_check = policy.skip_dependency_check;
        skip_dependents_check = policy.skip_dependents_check;
      },
      rest,
    )

unfoldable pub trans_set_dry_run : Trans → Bool → Trans
trans_set_dry_run t dry_run = record t { dry_run = dry_run }

unfoldable pub trans_plan_count : Trans → ℕ
trans_plan_count t = length t.plan

unfoldable pub trans_plan_at : Trans → ℕ → Option TransStep
trans_plan_at t index = if ltb index (length t.plan) then get_elem? t.plan index else none

unfoldable pub trans_conflict_count : Trans → ℕ
trans_conflict_count t = length t.conflicts

unfoldable pub trans_conflict_at : Trans → ℕ → Option TransConflict
trans_conflict_at t index =
    if ltb index (length t.conflicts) then get_elem? t.conflicts index else none

unfoldable pub trans_blocked_remove_count : Trans → ℕ
trans_blocked_remove_count t = length t.blocked_removes

unfoldable pub trans_blocked_remove_at : Trans → ℕ → Option BlockedRemove
trans_blocked_remove_at t index =
    if ltb index (length t.blocked_removes) then get_elem? t.blocked_removes index else none

unfoldable pub trans_file_conflict_count : Trans → ℕ
trans_file_conflict_count t = length t.file_conflicts

unfoldable pub trans_file_conflict_at : Trans → ℕ → Option FileConflict
trans_file_conflict_at t index =
    if ltb index (length t.file_conflicts) then get_elem? t.file_conflicts index else none

unfoldable pub trans_held_pkg_count : Trans → ℕ
trans_held_pkg_count t = length t.held_pkgs

unfoldable pub trans_held_pkg_at : Trans → ℕ → Option HeldPkg
trans_held_pkg_at t index =
    if ltb index (length t.held_pkgs) then get_elem? t.held_pkgs index else none

-- A negative index is out of range.
unfoldable pub trans_blocked_remove_dependent_at : BlockedRemove → ℤ → Option CStr
trans_blocked_remove_dependent_at blocked (negsuc n) = none
trans_blocked_remove_dependent_at blocked (pos n) =
    if ltb n (length blocked.dependents) then get_elem? blocked.dependents n else none
