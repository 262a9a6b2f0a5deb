-- ===== src/Version/Constraint/RoundTrip.antt =====
-- A printed constraint is read back: src/version/version.c.
use lib_apg.Base.{◌≡◌, refl, ap, ◌≢◌, false, [], ◌∷◌, ◌++◌, Option, none, some}
use lib_apg.CString.{CStr}
use lib_apg.Package.{VerOp, any, eq, neq, lt, le, gt, ge, DepConstraint}
use lib_apg.Version.Constraint.{
  is_blank, skip_blanks, trim_end, cons_trimmed, trim, ops, find_op, dep_constraint_parse,
  print_fields, dep_constraint_to_str,
}
use lib_apg.Version.Constraint.Find.{
  NoOp, find_op-none, find_op_ge, find_op_le, find_op_eq, find_op_neq, find_op_gt, find_op_lt,
}

-- The last byte is not blank.
abbrev pub LastSolid : CStr → Type 0
LastSolid [] = Unit
LastSolid (c ∷ []) = is_blank c ≡ false
LastSolid (c ∷ d ∷ s) = LastSolid (d ∷ s)

-- No blank at either end.
abbrev pub Solid : CStr → Type 0
Solid [] = Unit
Solid (c ∷ s) = (is_blank c ≡ false) × LastSolid (c ∷ s)

trim_end-LastSolid : (s : CStr) → LastSolid s → trim_end s ≡ s
unfolding trim_end
trim_end-LastSolid [] h = refl
trim_end-LastSolid (c ∷ []) h = rw h
trim_end-LastSolid (c ∷ d ∷ s) h = ap (cons_trimmed c) (trim_end-LastSolid (d ∷ s) h)

trim_end-blank : (s : CStr) → LastSolid s → trim_end (s ++ (32 ∷ [])) ≡ s
unfolding trim_end
trim_end-blank [] h = refl
trim_end-blank (c ∷ []) h = rw h
trim_end-blank (c ∷ d ∷ s) h = ap (cons_trimmed c) (trim_end-blank (d ∷ s) h)

Solid-LastSolid : (s : CStr) → Solid s → LastSolid s
Solid-LastSolid [] h = tt
Solid-LastSolid (c ∷ s) h = h.1

skip_blanks-Solid : (s t : CStr) → Solid s → s ≢ [] → skip_blanks (s ++ t) ≡ s ++ t
unfolding skip_blanks
skip_blanks-Solid [] t h ne = absurd (ne refl)
skip_blanks-Solid (c ∷ s) t h ne = rw h.0

trim-Solid : (s : CStr) → Solid s → trim s ≡ s
unfolding trim
trim-Solid [] h = refl
trim-Solid (c ∷ s) h = rw h.0 (trim_end-LastSolid (c ∷ s) h.1)

trim-before : (s : CStr) → Solid s → trim (s ++ (32 ∷ [])) ≡ s
unfolding trim
trim-before [] h = refl
trim-before (c ∷ s) h = rw h.0 (trim_end-blank (c ∷ s) h.1)

trim-after : (s : CStr) → Solid s → trim (32 ∷ s) ≡ s
unfolding trim
trim-after s h = trim-Solid s h

-- A version stands beside an operator and nowhere else, and has neither operator bytes nor blanks at
-- its ends.
abbrev pub VersionOk : VerOp → Option CStr → Type 0
VersionOk any none = Unit
VersionOk any (some v) = ⊥
VersionOk op none = ⊥
VersionOk op (some v) = NoOp v × Solid v

pub record IsPlain (c : DepConstraint) : Type 0 where
  pub name_no_op : NoOp c.name
  pub name_solid : Solid c.name
  pub version_ok : VersionOk c.op c.version

parse-found :
    (s name v : CStr) (op : VerOp)
    → find_op ops s ≡ some (name ++ (32 ∷ []), op, 32 ∷ v)
    → Solid name
    → Solid v
    → dep_constraint_parse (some s) ≡ some (record { name = name; op = op; version = some v })
unfolding dep_constraint_parse
parse-found s name v op h sn sv = rw (h, dep_constraint_parse, trim-before name sn, trim-after v sv)

parse-not_found :
    (s : CStr)
    → find_op ops s ≡ none
    → Solid s
    → dep_constraint_parse (some s) ≡ some (record { name = s; op = any; version = none })
unfolding dep_constraint_parse
parse-not_found s h sn = rw (h, dep_constraint_parse, trim-Solid s sn)

parse-print_fields :
    (name : CStr) (op : VerOp) (version : Option CStr)
    → NoOp name
    → Solid name
    → VersionOk op version
    → dep_constraint_parse (some (print_fields name op version))
      ≡ some (record { name = name; op = op; version = version })
unfolding print_fields
parse-print_fields name any none hn sn h = parse-not_found name (find_op-none name hn) sn
parse-print_fields name any (some v) hn sn h = absurd h
parse-print_fields name eq none hn sn h = absurd h
parse-print_fields name eq (some v) hn sn h =
    parse-found _ name v eq (find_op_eq name v hn h.0) sn h.1
parse-print_fields name neq none hn sn h = absurd h
parse-print_fields name neq (some v) hn sn h =
    parse-found _ name v neq (find_op_neq name v hn h.0) sn h.1
parse-print_fields name lt none hn sn h = absurd h
parse-print_fields name lt (some v) hn sn h =
    parse-found _ name v lt (find_op_lt name v hn h.0) sn h.1
parse-print_fields name le none hn sn h = absurd h
parse-print_fields name le (some v) hn sn h =
    parse-found _ name v le (find_op_le name v hn h.0) sn h.1
parse-print_fields name gt none hn sn h = absurd h
parse-print_fields name gt (some v) hn sn h =
    parse-found _ name v gt (find_op_gt name v hn h.0) sn h.1
parse-print_fields name ge none hn sn h = absurd h
parse-print_fields name ge (some v) hn sn h =
    parse-found _ name v ge (find_op_ge name v hn h.0) sn h.1

-- A printed constraint is read back unchanged, for every operator, if neither its name nor its
-- version has an operator byte or a blank at an end, and it has a version exactly beside an operator.
pub parse-to_str :
    (c : DepConstraint)
    → IsPlain c
    → (text : CStr) × (dep_constraint_to_str (some c) ≡ some text)
      × (dep_constraint_parse (some text) ≡ some c)
unfolding dep_constraint_to_str
parse-to_str c plain = (
  print_fields c.name c.op c.version,
  refl,
  parse-print_fields c.name c.op c.version plain.name_no_op plain.name_solid plain.version_ok,
)
