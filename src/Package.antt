-- ===== src/Package.antt =====
-- Package metadata: `struct package_metadata` of include/apg/package.h and the dependency
-- constraints of include/apg/version.h.
use lib_apg.Base.{Bool, true, false, ℕ, List, Option}
use lib_apg.CString.{CStr}

pub data VerOp : Type 0 where
  any eq neq lt le gt ge : VerOp

-- `op == VER_OP_ANY`
abbrev pub is_any : VerOp → Bool
is_any any = true
is_any _ = false

pub record DepConstraint : Type 0 where
  pub name : CStr
  pub op : VerOp
  pub version : Option CStr

-- The fields that the dependency graph and the solver read. `addr` is the address of the struct:
-- the code compares the pointers. `none` is a NULL field; the items of a list are never NULL.
pub record Package : Type 0 where
  pub addr : ℕ
  pub name : Option CStr
  pub version : Option CStr
  pub dependencies : List DepConstraint
  pub conflicts : List CStr
  pub provides : List CStr
  pub replaces : List CStr
