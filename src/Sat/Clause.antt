-- ===== src/Sat/Clause.antt =====
-- Literals, clauses and values: src/graph/sat_model_priv.h, and the scan of one clause in
-- `propagate` of src/graph/sat_solve.c.
use lib_apg.Base.{ℕ, ◌+◌, Bool, true, false, List, [], ◌∷◌, Option, some, get_or}
use lib_apg.CString.{CStr}
use lib_apg.Package.{Package}

-- A literal is a nonzero `int`: `pos v` is v and `neg v` is -v.
pub data Lit : Type 0 where
  pos neg : ℕ → Lit

-- `lit > 0 ? lit : -lit`
abbrev pub var : Lit → ℕ
var (pos v) = v
var (neg v) = v

-- The entries of `assign`: 0, 1 and -1.
pub data Value : Type 0 where
  undef yea nay : Value

pub data Kind : Type 0 where
  dependency conflict forced : Kind

pub record Clause : Type 0 where
  pub lits : List Lit
  pub kind : Kind
  pub dep_name : Option CStr

-- `vars[v - 1]` is the package of variable v; `var_count` is the length of `vars`.
pub record Model : Type 0 where
  pub vars : List Package
  pub clauses : List Clause

-- `(lit > 0 && val == 1) || (lit < 0 && val == -1)`
abbrev pub agrees : Lit → Value → Bool
agrees (pos v) yea = true
agrees (neg v) nay = true
agrees _ _ = false

-- `lit > 0 ? 1 : -1`
abbrev pub wanted : Lit → Value
wanted (pos v) = yea
wanted (neg v) = nay

-- What the loop over the literals of a clause finds.
pub data Scan : Type 0 where
  satisfied : Scan
  counted : ℕ → Option Lit → Scan

abbrev pub value : List Value → ℕ → Value
value a v = get_or a v undef

unfoldable pub scan : List Value → List Lit → ℕ → Option Lit → Scan
scan a [] count last = counted count last
scan a (l ∷ ls) count last = elim (value a (var l)) [
  | undef ↦ scan a ls (count + 1) (some l)
  | x ↦ elim (agrees l x) [ true ↦ satisfied | false ↦ scan a ls count last ]
]
