-- ===== src/Version.antt =====
-- Version comparison and dependency constraints: src/version/version.c.
pub mod Order
pub mod Rests
pub mod Total
pub mod Satisfies
pub mod Constraint
use Prim.Native.Nat.{min}
use lib_apg.Base.{
  ℕ, zero, suc, ◌+◌, ◌-◌, ◌*◌, ◌^◌, Bool, true, false, not, ◌&&◌, ◌||◌, List, [], ◌∷◌, Option, none,
  some, length, ltb, leb, ◌==◌, if◌then◌else◌, ℤ, pos, negsuc, sub_ℕ, eq_ℤ, ltb_ℤ,
}
use lib_apg.CString.{CStr}
use lib_apg.Package.{VerOp, any, eq, neq, lt, le, gt, ge}

abbrev pub is_digit : ℕ → Bool
is_digit c = leb b'0' c && leb c b'9'

-- `isspace` in the C locale.
abbrev pub is_space : ℕ → Bool
is_space c = c == 32 || leb 9 c && leb c 13

unfoldable pub skip_spaces : CStr → CStr
skip_spaces [] = []
skip_spaces (c ∷ s) = if is_space c then skip_spaces s else c ∷ s

-- The digits at the start, read in base 10, and what follows them.
unfoldable pub digits : ℕ → CStr → ℕ × CStr
digits acc [] = (acc, [])
digits acc (c ∷ s) = elim (is_digit c) [
  | true ↦ digits (acc * 10 + (c - b'0')) s
  | false ↦ (acc, c ∷ s)
]

-- A `long` has 64 bits, and `strtol` stops at its ends.
abbrev pub signed : Bool → ℕ → ℤ
signed false n = pos (min n (2 ^ 63 - 1))
signed true zero = pos 0
signed true (suc n) = negsuc (min n (2 ^ 63 - 1))

unfoldable pub strtol_digits : Bool → CStr → Option (ℤ × CStr)
unfolding digits
strtol_digits negative [] = none
strtol_digits negative (c ∷ s) =
    if is_digit c then some (signed negative (digits 0 (c ∷ s)).0, (digits 0 (c ∷ s)).1) else none

unfoldable pub strtol_signed : CStr → Option (ℤ × CStr)
unfolding strtol_digits
strtol_signed [] = none
strtol_signed (c ∷ s) =
    if c == b'-'
    then strtol_digits true s
    else if c == b'+'
    then strtol_digits false s
    else strtol_digits false (c ∷ s)

-- `strtol(s, &end, 10)`: the number and `end`, or `none` if there is no conversion, where the
-- number is 0 and `end` is s.
unfoldable pub strtol : CStr → Option (ℤ × CStr)
unfolding skip_spaces strtol_signed
strtol s = strtol_signed (skip_spaces s)

abbrev pub number : Option (ℤ × CStr) → ℤ
number none = pos 0
number (some (n, _)) = n

abbrev pub rest_or : CStr → Option (ℤ × CStr) → CStr
rest_or s none = s
rest_or s (some (_, rest)) = rest

-- `strchr(s, ':')`, and what follows the colon.
unfoldable pub after_colon : CStr → Option CStr
after_colon [] = none
after_colon (c ∷ s) = if c == b':' then some s else after_colon s

-- The epoch, and the string without it.
unfoldable pub split_epoch : CStr → ℤ × CStr
unfolding after_colon strtol
split_epoch s = elim (after_colon s) [ none ↦ (pos 0, s) | some rest ↦ (number (strtol s), rest) ]

unfoldable pub skip_dots : CStr → CStr
skip_dots [] = []
skip_dots (c ∷ s) = if c == b'.' then skip_dots s else c ∷ s

-- `(va > vb) ? 1 : -1`
abbrev pub order : ℤ → ℤ → ℤ
order a b = if ltb_ℤ b a then pos 1 else negsuc 0

-- A round of the loop returns a result, or goes on with the rests.
pub data Round : Type 0 where
  return : ℤ → Round
  next : CStr → CStr → Round

abbrev pub head_byte : CStr → ℕ
head_byte [] = 0
head_byte (c ∷ _) = c

abbrev pub tail_bytes : CStr → CStr
tail_bytes [] = []
tail_bytes (_ ∷ s) = s

-- `if (ae == a && be == b)`
unfoldable pub by_bytes : CStr → CStr → Round
by_bytes a b =
    if not (head_byte a == head_byte b)
    then return (sub_ℕ (head_byte a) (head_byte b))
    else if head_byte a == 0
    then next a b
    else next (tail_bytes a) (tail_bytes b)

unfoldable pub by_numbers : ℤ → CStr → ℤ → CStr → Round
by_numbers va a vb b = if eq_ℤ va vb then next a b else return (order va vb)

unfoldable pub by_strtol : CStr → CStr → Option (ℤ × CStr) → Option (ℤ × CStr) → Round
unfolding by_bytes by_numbers
by_strtol a b none none = by_bytes a b
by_strtol a b none (some (vb, be)) = by_numbers (pos 0) a vb be
by_strtol a b (some (va, ae)) none = by_numbers va ae (pos 0) b
by_strtol a b (some (va, ae)) (some (vb, be)) = by_numbers va ae vb be

-- A round after the dots are skipped.
unfoldable pub round_from : CStr → CStr → Round
unfolding by_strtol strtol
round_from [] [] = return (pos 0)
round_from a b = by_strtol a b (strtol a) (strtol b)

-- `while (*a || *b)`, on fuel.
unfoldable pub compare_loop : ℕ → CStr → CStr → Option ℤ
unfolding round_from skip_dots
compare_loop zero a b = none
compare_loop (suc fuel) a b = elim (round_from (skip_dots a) (skip_dots b)) [
  | return r ↦ some r
  | next a' b' ↦ compare_loop fuel a' b'
]

unfoldable pub compare_epochs : ℤ × CStr → ℤ × CStr → Option ℤ
unfolding compare_loop
compare_epochs (ea, a) (eb, b) =
    if eq_ℤ ea eb then compare_loop (suc (length a + length b)) a b else some (order ea eb)

-- `none` as an argument is NULL; `none` as a result is the model's: the loop ran out of fuel.
unfoldable pub ver_compare : Option CStr → Option CStr → Option ℤ
unfolding compare_epochs split_epoch
ver_compare none none = some (pos 0)
ver_compare none (some b) = some (negsuc 0)
ver_compare (some a) none = some (pos 1)
ver_compare (some a) (some b) = compare_epochs (split_epoch a) (split_epoch b)

-- `switch (op)` on `cmp`. (VER_OP_ANY has returned before.)
abbrev pub satisfied_by : VerOp → ℤ → Bool
satisfied_by any cmp = true
satisfied_by eq cmp = eq_ℤ cmp (pos 0)
satisfied_by neq cmp = not (eq_ℤ cmp (pos 0))
satisfied_by lt cmp = ltb_ℤ cmp (pos 0)
satisfied_by le cmp = not (ltb_ℤ (pos 0) cmp)
satisfied_by gt cmp = ltb_ℤ (pos 0) cmp
satisfied_by ge cmp = not (ltb_ℤ cmp (pos 0))

abbrev pub judged : VerOp → Option ℤ → Bool
judged op none = false
judged op (some cmp) = satisfied_by op cmp

unfoldable pub ver_satisfies : Option CStr → VerOp → Option CStr → Bool
unfolding ver_compare
ver_satisfies p any c = true
ver_satisfies none op c = false
ver_satisfies (some p) op none = false
ver_satisfies (some p) op (some c) = judged op (ver_compare (some p) (some c))
