-- ===== src/Version/Satisfies.antt =====
-- `ver_satisfies` of src/version/version.c.
use lib_apg.Base.{
  zero, suc, ◌≡◌, refl, ap, true, false, not, ◌||◌, ◌&&◌, Option, none, some, arith, ℤ, pos, negsuc,
  neg_ℤ,
}
use lib_apg.CString.{CStr}
use lib_apg.Package.{VerOp, is_any, any, eq, neq, lt, le, gt, ge}
use lib_apg.Version.{ver_compare, ver_satisfies, judged, satisfied_by}
use lib_apg.Version.Order.{negated, ver_compare_antisym}
use lib_apg.Version.Rests.{NoNul}
use lib_apg.Version.Total.{ver_compare_total}

-- Reading a constraint from the other side.
abbrev pub converse : VerOp → VerOp
converse lt = gt
converse le = ge
converse gt = lt
converse ge = le
converse op = op

satisfied_by-neg : (op : VerOp) (r : ℤ) → satisfied_by (converse op) (neg_ℤ r) ≡ satisfied_by op r
satisfied_by-neg any r = refl
satisfied_by-neg eq r = ground arith
satisfied_by-neg neq r = ground arith
satisfied_by-neg lt r = ground arith
satisfied_by-neg le r = ground arith
satisfied_by-neg gt r = ground arith
satisfied_by-neg ge r = ground arith

judged-negated : (op : VerOp) (o : Option ℤ) → judged (converse op) (negated o) ≡ judged op o
judged-negated op none = refl
judged-negated op (some r) = satisfied_by-neg op r

ver_satisfies-judged :
    (p c : CStr) (op : VerOp) (r : ℤ)
    → ver_compare (some p) (some c) ≡ some r
    → ver_satisfies (some p) op (some c) ≡ satisfied_by op r
unfolding ver_satisfies
ver_satisfies-judged p c any r e = refl
ver_satisfies-judged p c eq r e = ap (judged eq) e
ver_satisfies-judged p c neq r e = ap (judged neq) e
ver_satisfies-judged p c lt r e = ap (judged lt) e
ver_satisfies-judged p c le r e = ap (judged le) e
ver_satisfies-judged p c gt r e = ap (judged gt) e
ver_satisfies-judged p c ge r e = ap (judged ge) e

-- A package version satisfies a constraint exactly if, with the two versions exchanged, it
-- satisfies the converse one: `<` against `>`, `<=` against `>=`, and the others unchanged.
pub ver_satisfies-converse :
    (p c : CStr) (op : VerOp)
    → ver_satisfies (some c) (converse op) (some p) ≡ ver_satisfies (some p) op (some c)
unfolding ver_satisfies
ver_satisfies-converse p c any = refl
ver_satisfies-converse p c eq =
    cc (ver_compare_antisym (some p) (some c), judged-negated eq (ver_compare (some p) (some c)))
ver_satisfies-converse p c neq =
    cc (ver_compare_antisym (some p) (some c), judged-negated neq (ver_compare (some p) (some c)))
ver_satisfies-converse p c lt =
    cc (ver_compare_antisym (some p) (some c), judged-negated lt (ver_compare (some p) (some c)))
ver_satisfies-converse p c le =
    cc (ver_compare_antisym (some p) (some c), judged-negated le (ver_compare (some p) (some c)))
ver_satisfies-converse p c gt =
    cc (ver_compare_antisym (some p) (some c), judged-negated gt (ver_compare (some p) (some c)))
ver_satisfies-converse p c ge =
    cc (ver_compare_antisym (some p) (some c), judged-negated ge (ver_compare (some p) (some c)))

-- Of `<`, `==` and `>` exactly one holds between two versions without NUL bytes, and `<=`, `>=` and `!=` are what
-- they are made of.
pub ver_satisfies_trichotomy :
    (p c : CStr)
    → NoNul p
    → NoNul c
    → ((ver_satisfies (some p) lt (some c)
          || ver_satisfies (some p) eq (some c)
          || ver_satisfies (some p) gt (some c))
        ≡ true)
      × ((ver_satisfies (some p) lt (some c) && ver_satisfies (some p) eq (some c)) ≡ false)
      × ((ver_satisfies (some p) lt (some c) && ver_satisfies (some p) gt (some c)) ≡ false)
      × ((ver_satisfies (some p) eq (some c) && ver_satisfies (some p) gt (some c)) ≡ false)
      × (ver_satisfies (some p) le (some c)
          ≡ (ver_satisfies (some p) lt (some c) || ver_satisfies (some p) eq (some c)))
      × (ver_satisfies (some p) ge (some c)
          ≡ (ver_satisfies (some p) gt (some c) || ver_satisfies (some p) eq (some c)))
      × (ver_satisfies (some p) neq (some c) ≡ not (ver_satisfies (some p) eq (some c)))
ver_satisfies_trichotomy p c cp cv =
    let (r, e) = ver_compare_total p c cp cv in
    let of = λ (op : VerOp). ver_satisfies-judged p c op r e in
    rw (of lt, of eq, of gt, of le, of ge, of neq) (signs r)
  where
    signs :
        (r : ℤ)
        → ((satisfied_by lt r || satisfied_by eq r || satisfied_by gt r) ≡ true)
          × ((satisfied_by lt r && satisfied_by eq r) ≡ false)
          × ((satisfied_by lt r && satisfied_by gt r) ≡ false)
          × ((satisfied_by eq r && satisfied_by gt r) ≡ false)
          × (satisfied_by le r ≡ (satisfied_by lt r || satisfied_by eq r))
          × (satisfied_by ge r ≡ (satisfied_by gt r || satisfied_by eq r))
          × (satisfied_by neq r ≡ not (satisfied_by eq r))
    signs (pos zero) = (refl, refl, refl, refl, refl, refl, refl)
    signs (pos (suc n)) = ground arith
    signs (negsuc n) = ground arith

-- The test that the callers make first changes nothing: any version satisfies VER_OP_ANY.
pub not_any_not_satisfied :
    (op : VerOp) (p c : Option CStr)
    → (not (is_any op) && not (ver_satisfies p op c)) ≡ not (ver_satisfies p op c)
unfolding ver_satisfies
not_any_not_satisfied any p c = refl
not_any_not_satisfied eq p c = refl
not_any_not_satisfied neq p c = refl
not_any_not_satisfied lt p c = refl
not_any_not_satisfied le p c = refl
not_any_not_satisfied gt p c = refl
not_any_not_satisfied ge p c = refl
