-- ===== src/Version/Constraint.antt =====
-- Parsing and printing of dependency constraints: `dep_constraint_parse` and
-- `dep_constraint_to_str` of src/version/version.c, with enough memory for the copies.
pub mod Find
pub mod RoundTrip
use lib_apg.Base.{
  ℕ, Bool, true, false, ◌&&◌, ◌||◌, List, [], ◌∷◌, ◌++◌, Option, none, some, ◌==◌, if◌then◌else◌,
}
use lib_apg.CString.{CStr}
use lib_apg.Package.{VerOp, any, eq, neq, lt, le, gt, ge, DepConstraint}

abbrev pub is_blank : ℕ → Bool
is_blank c = c == 32 || c == 9

-- The two loops of `trim_strndup`.
unfoldable pub skip_blanks : CStr → CStr
skip_blanks [] = []
skip_blanks (c ∷ s) = if is_blank c then skip_blanks s else c ∷ s

abbrev pub cons_trimmed : ℕ → CStr → CStr
cons_trimmed c [] = if is_blank c then [] else c ∷ []
cons_trimmed c (d ∷ s) = c ∷ d ∷ s

unfoldable pub trim_end : CStr → CStr
trim_end [] = []
trim_end (c ∷ s) = cons_trimmed c (trim_end s)

unfoldable pub trim : CStr → CStr
unfolding skip_blanks trim_end
trim s = trim_end (skip_blanks s)

-- What follows a prefix.
unfoldable pub strip_prefix : CStr → CStr → Option CStr
strip_prefix [] s = some s
strip_prefix (x ∷ xs) [] = none
strip_prefix (x ∷ xs) (c ∷ s) = if x == c then strip_prefix xs s else none

abbrev pub put_before : ℕ → Option (CStr × CStr) → Option (CStr × CStr)
put_before c none = none
put_before c (some (before, after)) = some (c ∷ before, after)

-- `strstr(s, sym)`: what stands before the first occurrence, and what follows it.
unfoldable pub strstr : CStr → CStr → Option (CStr × CStr)
unfolding strip_prefix
strstr sym [] = elim (strip_prefix sym []) [ none ↦ none | some after ↦ some ([], after) ]
strstr sym (c ∷ s) = elim (strip_prefix sym (c ∷ s)) [
  | none ↦ put_before c (strstr sym s)
  | some after ↦ some ([], after)
]

abbrev pub ops : List (CStr × VerOp)
ops =
    (b'>' ∷ b'=' ∷ [], ge)
    ∷ (b'<' ∷ b'=' ∷ [], le)
    ∷ (b'=' ∷ b'=' ∷ [], eq)
    ∷ (b'!' ∷ b'=' ∷ [], neq)
    ∷ (b'>' ∷ [], gt)
    ∷ (b'<' ∷ [], lt)
    ∷ []

-- The loop over `ops`: the first operator of the table that occurs anywhere.
unfoldable pub find_op : List (CStr × VerOp) → CStr → Option (CStr × VerOp × CStr)
unfolding strstr
find_op [] s = none
find_op ((sym, op) ∷ table) s = elim (strstr sym s) [
  | none ↦ find_op table s
  | some (before, after) ↦ some (before, op, after)
]

-- A NULL string gives the constraint with a NULL name, which is `none` here.
unfoldable pub dep_constraint_parse : Option CStr → Option DepConstraint
unfolding find_op trim
dep_constraint_parse none = none
dep_constraint_parse (some s) = elim (find_op ops s) [
  | none ↦ some (record { name = trim s; op = any; version = none })
  | some (before, op, after) ↦
      some (record { name = trim before; op = op; version = some (trim after) })
]

-- `op_strs`; VER_OP_ANY is printed without an operator.
abbrev pub op_str : VerOp → CStr
op_str any = b'?' ∷ []
op_str eq = b'=' ∷ b'=' ∷ []
op_str neq = b'!' ∷ b'=' ∷ []
op_str lt = b'<' ∷ []
op_str le = b'<' ∷ b'=' ∷ []
op_str gt = b'>' ∷ []
op_str ge = b'>' ∷ b'=' ∷ []

-- `"%s %s %s"`
abbrev pub with_op : CStr → CStr → CStr → CStr
with_op name sym version = name ++ (32 ∷ (sym ++ (32 ∷ version)))

unfoldable pub print_fields : CStr → VerOp → Option CStr → CStr
print_fields name any version = name
print_fields name op none = name
print_fields name op (some version) = with_op name (op_str op) version

unfoldable pub dep_constraint_to_str : Option DepConstraint → Option CStr
unfolding print_fields
dep_constraint_to_str none = none
dep_constraint_to_str (some c) = some (print_fields c.name c.op c.version)
