-- ===== src/Tests/Versions.antt =====
-- Versions and constraints: src/version/version.c.
use lib_apg.Base.{◌≡◌, refl, true, false, not, ◌&&◌, ◌||◌, [], ◌∷◌, some, arith, ℤ, negsuc}
use lib_apg.CString.{CStr}
use lib_apg.Package.{eq, neq, lt, le, gt, ge, DepConstraint}
use lib_apg.Version.{ver_compare, ver_satisfies}
use lib_apg.Version.Order.{negated, ver_compare_antisym}
use lib_apg.Version.Rests.{NoNul}
use lib_apg.Version.Total.{ver_compare_total}
use lib_apg.Version.Satisfies.{converse, ver_satisfies-converse, ver_satisfies_trichotomy}
use lib_apg.Version.Constraint.{dep_constraint_parse, dep_constraint_to_str}
use lib_apg.Version.Constraint.RoundTrip.{IsPlain, parse-to_str}

-- 1.10, 1:0.9, 1.0-1 and 1.0-2
abbrev v1_10 : CStr
v1_10 = b'1' ∷ b'.' ∷ b'1' ∷ b'0' ∷ []

abbrev v1_epoch : CStr
v1_epoch = b'1' ∷ b':' ∷ b'0' ∷ b'.' ∷ b'9' ∷ []

abbrev v1_0_1 : CStr
v1_0_1 = b'1' ∷ b'.' ∷ b'0' ∷ b'-' ∷ b'1' ∷ []

abbrev v1_0_2 : CStr
v1_0_2 = b'1' ∷ b'.' ∷ b'0' ∷ b'-' ∷ b'2' ∷ []

v1_10-NoNul : NoNul v1_10
v1_10-NoNul = ground arith

v1_epoch-NoNul : NoNul v1_epoch
v1_epoch-NoNul = ground arith

epoch_first : ver_compare (some v1_10) (some v1_epoch) ≡ some (negsuc 0)
unfolding ver_compare
epoch_first = refl

-- A release number after a dash is read as a negative number.
dash_is_sign : ver_compare (some v1_0_2) (some v1_0_1) ≡ some (negsuc 0)
unfolding ver_compare
dash_is_sign = refl

ver_compare_antisym_example :
    ver_compare (some v1_epoch) (some v1_10) ≡ negated (ver_compare (some v1_10) (some v1_epoch))
ver_compare_antisym_example = ver_compare_antisym (some v1_10) (some v1_epoch)

ver_compare_total_example : (r : ℤ) × (ver_compare (some v1_10) (some v1_epoch) ≡ some r)
ver_compare_total_example = ver_compare_total v1_10 v1_epoch v1_10-NoNul v1_epoch-NoNul

ver_satisfies-converse_example :
    ver_satisfies (some v1_epoch) (converse lt) (some v1_10)
    ≡ ver_satisfies (some v1_10) lt (some v1_epoch)
ver_satisfies-converse_example = ver_satisfies-converse v1_10 v1_epoch lt

ver_satisfies_trichotomy_example :
    ((ver_satisfies (some v1_10) lt (some v1_epoch)
        || ver_satisfies (some v1_10) eq (some v1_epoch)
        || ver_satisfies (some v1_10) gt (some v1_epoch))
      ≡ true)
    × ((ver_satisfies (some v1_10) lt (some v1_epoch)
          && ver_satisfies (some v1_10) eq (some v1_epoch))
        ≡ false)
    × ((ver_satisfies (some v1_10) lt (some v1_epoch)
          && ver_satisfies (some v1_10) gt (some v1_epoch))
        ≡ false)
    × ((ver_satisfies (some v1_10) eq (some v1_epoch)
          && ver_satisfies (some v1_10) gt (some v1_epoch))
        ≡ false)
    × (ver_satisfies (some v1_10) le (some v1_epoch) ≡ (
        ver_satisfies (some v1_10) lt (some v1_epoch)
        || ver_satisfies (some v1_10) eq (some v1_epoch)))
    × (ver_satisfies (some v1_10) ge (some v1_epoch) ≡ (
        ver_satisfies (some v1_10) gt (some v1_epoch)
        || ver_satisfies (some v1_10) eq (some v1_epoch)))
    × (ver_satisfies (some v1_10) neq (some v1_epoch)
        ≡ not (ver_satisfies (some v1_10) eq (some v1_epoch)))
ver_satisfies_trichotomy_example =
    ver_satisfies_trichotomy v1_10 v1_epoch v1_10-NoNul v1_epoch-NoNul

-- libfoo >= 2.0
abbrev libfoo : DepConstraint
libfoo = record {
  name = b'l' ∷ b'i' ∷ b'b' ∷ b'f' ∷ b'o' ∷ b'o' ∷ [];
  op = ge;
  version = some (b'2' ∷ b'.' ∷ b'0' ∷ []);
}

libfoo-IsPlain : IsPlain libfoo
libfoo-IsPlain = record {
  name_no_op = (refl, (refl, (refl, (refl, (refl, (refl, tt))))));
  name_solid = (refl, refl);
  version_ok = ((refl, (refl, (refl, tt))), (refl, refl));
}

parse-to_str_example :
    (text : CStr) × (dep_constraint_to_str (some libfoo) ≡ some text)
    × (dep_constraint_parse (some text) ≡ some libfoo)
parse-to_str_example = parse-to_str libfoo libfoo-IsPlain

-- "a<b >= 1": the table decides, not the position.
parse_table_order :
    dep_constraint_parse (some (b'a' ∷ b'<' ∷ b'b' ∷ b'>' ∷ b'=' ∷ b'1' ∷ []))
    ≡ some (record { name = b'a' ∷ b'<' ∷ b'b' ∷ []; op = ge; version = some (b'1' ∷ []) })
unfolding dep_constraint_parse
parse_table_order = refl
