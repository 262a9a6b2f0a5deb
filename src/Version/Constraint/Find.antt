-- ===== src/Version/Constraint/Find.antt =====
-- The operator that `dep_constraint_parse` of src/version/version.c finds in a printed constraint.
use lib_apg.Base.{
  ℕ, ◌≡◌, refl, ap, sym, ◌∙◌, Bool, true, false, ◌||◌, List, [], ◌∷◌, ◌++◌, Option, none, some,
  arith, All, ◌==◌,
}
use lib_apg.CString.{CStr}
use lib_apg.Package.{VerOp, eq, neq, lt, le, gt, ge}
use lib_apg.Version.Constraint.{strip_prefix, strstr, put_before, ops, find_op, op_str, with_op}

-- The bytes of the operators.
abbrev pub is_op : ℕ → Bool
is_op c = c == b'<' || c == b'>' || c == b'=' || c == b'!'

abbrev pub NoOp : CStr → Type 0
NoOp = All (λ c. is_op c ≡ false)

abbrev put_all : CStr → Option (CStr × CStr) → Option (CStr × CStr)
put_all n none = none
put_all n (some (before, after)) = some (n ++ before, after)

op-ne : (x c : ℕ) → is_op x ≡ true → is_op c ≡ false → (x == c) ≡ false
op-ne x c hx hc = ground arith

-- Bytes that are no operator are passed over.
strstr-NoOp :
    (x : ℕ) (xs n t : CStr)
    → is_op x ≡ true
    → NoOp n
    → strstr (x ∷ xs) (n ++ t) ≡ put_all n (strstr (x ∷ xs) t)
unfolding strstr
strstr-NoOp x xs [] t hx hn = by_result (strstr (x ∷ xs) t)
  where
    by_result : (o : Option (CStr × CStr)) → o ≡ put_all [] o
    by_result none = refl
    by_result (some (b, a)) = refl
strstr-NoOp x xs (c ∷ n) t hx hn =
    rw (op-ne x c hx hn.0, strstr)
      (ap (put_before c) (strstr-NoOp x xs n t hx hn.1) ∙ by_result (strstr (x ∷ xs) t))
  where
    by_result : (o : Option (CStr × CStr)) → put_before c (put_all n o) ≡ put_all (c ∷ n) o
    by_result none = refl
    by_result (some (b, a)) = refl

strstr-none : (x : ℕ) (xs n : CStr) → is_op x ≡ true → NoOp n → strstr (x ∷ xs) n ≡ none
unfolding strstr strip_prefix
strstr-none x xs [] hx hn = refl
strstr-none x xs (c ∷ n) hx hn =
    rw (op-ne x c hx hn.0, strstr) (ap (put_before c) (strstr-none x xs n hx hn.1))

find_op-hit :
    (sym s before after : CStr) (op : VerOp) (table : List (CStr × VerOp))
    → strstr sym s ≡ some (before, after)
    → find_op ((sym, op) ∷ table) s ≡ some (before, op, after)
unfolding find_op
find_op-hit sym s before after op table h = rw (h, find_op)

find_op-miss :
    (sym s : CStr) (op : VerOp) (table : List (CStr × VerOp))
    → strstr sym s ≡ none
    → find_op ((sym, op) ∷ table) s ≡ find_op table s
unfolding find_op
find_op-miss sym s op table h = rw (h, find_op)

module _ (name v : CStr) (hn : NoOp name) (hv : NoOp v) where
  -- Where a symbol is found in a printed constraint, or is not.
  abbrev tail_of : VerOp → CStr
  tail_of o = 32 ∷ (op_str o ++ (32 ∷ v))

  hit :
      (x : ℕ) (xs : CStr) (o : VerOp) (table : List (CStr × VerOp))
      → is_op x ≡ true
      → strstr (x ∷ xs) (tail_of o) ≡ some (32 ∷ [], 32 ∷ v)
      → find_op ((x ∷ xs, o) ∷ table) (with_op name (op_str o) v)
        ≡ some (name ++ (32 ∷ []), o, 32 ∷ v)
  hit x xs o table hx h =
      find_op-hit (x ∷ xs) (with_op name (op_str o) v) (name ++ (32 ∷ [])) (32 ∷ v) o table
        (strstr-NoOp x xs name (tail_of o) hx hn ∙ ap (put_all name) h)

  miss :
      (x : ℕ) (xs : CStr) (op o : VerOp) (table : List (CStr × VerOp))
      → is_op x ≡ true
      → strstr (x ∷ xs) (tail_of o) ≡ none
      → find_op ((x ∷ xs, op) ∷ table) (with_op name (op_str o) v)
        ≡ find_op table (with_op name (op_str o) v)
  miss x xs op o table hx h =
      find_op-miss (x ∷ xs) (with_op name (op_str o) v) op table
        (strstr-NoOp x xs name (tail_of o) hx hn ∙ ap (put_all name) h)

  -- In what follows the name, each symbol but the printed one is absent.
  abbrev Absent : ℕ → CStr → VerOp → Type 0
  Absent x xs o = strstr (x ∷ xs) (tail_of o) ≡ none

  gone : (x : ℕ) (xs : CStr) → is_op x ≡ true → strstr (x ∷ xs) v ≡ none
  gone x xs hx = strstr-none x xs v hx hv

  pub find_op_ge : find_op ops (with_op name (op_str ge) v) ≡ some (name ++ (32 ∷ []), ge, 32 ∷ v)
  unfolding strstr
  find_op_ge =
      hit b'>' (b'=' ∷ []) ge
        ((b'<' ∷ (b'=' ∷ []), le)
          ∷ (b'=' ∷ (b'=' ∷ []), eq)
          ∷ (b'!' ∷ (b'=' ∷ []), neq)
          ∷ (b'>' ∷ [], gt)
          ∷ (b'<' ∷ [], lt)
          ∷ [])
        refl refl

  pub find_op_le : find_op ops (with_op name (op_str le) v) ≡ some (name ++ (32 ∷ []), le, 32 ∷ v)
  unfolding strstr
  find_op_le =
      miss b'>' (b'=' ∷ []) ge le
        ((b'<' ∷ (b'=' ∷ []), le)
          ∷ (b'=' ∷ (b'=' ∷ []), eq)
          ∷ (b'!' ∷ (b'=' ∷ []), neq)
          ∷ (b'>' ∷ [], gt)
          ∷ (b'<' ∷ [], lt)
          ∷ [])
        refl (rw (gone b'>' (b'=' ∷ []) refl))
      ∙ hit b'<' (b'=' ∷ []) le
          ((b'=' ∷ (b'=' ∷ []), eq)
            ∷ (b'!' ∷ (b'=' ∷ []), neq)
            ∷ (b'>' ∷ [], gt)
            ∷ (b'<' ∷ [], lt)
            ∷ [])
          refl refl

  pub find_op_eq : find_op ops (with_op name (op_str eq) v) ≡ some (name ++ (32 ∷ []), eq, 32 ∷ v)
  unfolding strstr
  find_op_eq =
      miss b'>' (b'=' ∷ []) ge eq
        ((b'<' ∷ (b'=' ∷ []), le)
          ∷ (b'=' ∷ (b'=' ∷ []), eq)
          ∷ (b'!' ∷ (b'=' ∷ []), neq)
          ∷ (b'>' ∷ [], gt)
          ∷ (b'<' ∷ [], lt)
          ∷ [])
        refl (rw (gone b'>' (b'=' ∷ []) refl))
      ∙ miss b'<' (b'=' ∷ []) le eq
          ((b'=' ∷ (b'=' ∷ []), eq)
            ∷ (b'!' ∷ (b'=' ∷ []), neq)
            ∷ (b'>' ∷ [], gt)
            ∷ (b'<' ∷ [], lt)
            ∷ [])
          refl (rw (gone b'<' (b'=' ∷ []) refl))
      ∙ hit b'=' (b'=' ∷ []) eq ((b'!' ∷ (b'=' ∷ []), neq) ∷ (b'>' ∷ [], gt) ∷ (b'<' ∷ [], lt) ∷ [])
          refl refl

  pub find_op_neq :
      find_op ops (with_op name (op_str neq) v) ≡ some (name ++ (32 ∷ []), neq, 32 ∷ v)
  unfolding strstr
  find_op_neq =
      miss b'>' (b'=' ∷ []) ge neq
        ((b'<' ∷ (b'=' ∷ []), le)
          ∷ (b'=' ∷ (b'=' ∷ []), eq)
          ∷ (b'!' ∷ (b'=' ∷ []), neq)
          ∷ (b'>' ∷ [], gt)
          ∷ (b'<' ∷ [], lt)
          ∷ [])
        refl (rw (gone b'>' (b'=' ∷ []) refl))
      ∙ miss b'<' (b'=' ∷ []) le neq
          ((b'=' ∷ (b'=' ∷ []), eq)
            ∷ (b'!' ∷ (b'=' ∷ []), neq)
            ∷ (b'>' ∷ [], gt)
            ∷ (b'<' ∷ [], lt)
            ∷ [])
          refl (rw (gone b'<' (b'=' ∷ []) refl))
      ∙ miss b'=' (b'=' ∷ []) eq neq
          ((b'!' ∷ (b'=' ∷ []), neq) ∷ (b'>' ∷ [], gt) ∷ (b'<' ∷ [], lt) ∷ []) refl
          (rw (gone b'=' (b'=' ∷ []) refl))
      ∙ hit b'!' (b'=' ∷ []) neq ((b'>' ∷ [], gt) ∷ (b'<' ∷ [], lt) ∷ []) refl refl

  pub find_op_gt : find_op ops (with_op name (op_str gt) v) ≡ some (name ++ (32 ∷ []), gt, 32 ∷ v)
  unfolding strstr
  find_op_gt =
      miss b'>' (b'=' ∷ []) ge gt
        ((b'<' ∷ (b'=' ∷ []), le)
          ∷ (b'=' ∷ (b'=' ∷ []), eq)
          ∷ (b'!' ∷ (b'=' ∷ []), neq)
          ∷ (b'>' ∷ [], gt)
          ∷ (b'<' ∷ [], lt)
          ∷ [])
        refl (rw (gone b'>' (b'=' ∷ []) refl))
      ∙ miss b'<' (b'=' ∷ []) le gt
          ((b'=' ∷ (b'=' ∷ []), eq)
            ∷ (b'!' ∷ (b'=' ∷ []), neq)
            ∷ (b'>' ∷ [], gt)
            ∷ (b'<' ∷ [], lt)
            ∷ [])
          refl (rw (gone b'<' (b'=' ∷ []) refl))
      ∙ miss b'=' (b'=' ∷ []) eq gt
          ((b'!' ∷ (b'=' ∷ []), neq) ∷ (b'>' ∷ [], gt) ∷ (b'<' ∷ [], lt) ∷ []) refl
          (rw (gone b'=' (b'=' ∷ []) refl))
      ∙ miss b'!' (b'=' ∷ []) neq gt ((b'>' ∷ [], gt) ∷ (b'<' ∷ [], lt) ∷ []) refl
          (rw (gone b'!' (b'=' ∷ []) refl))
      ∙ hit b'>' [] gt ((b'<' ∷ [], lt) ∷ []) refl refl

  pub find_op_lt : find_op ops (with_op name (op_str lt) v) ≡ some (name ++ (32 ∷ []), lt, 32 ∷ v)
  unfolding strstr
  find_op_lt =
      miss b'>' (b'=' ∷ []) ge lt
        ((b'<' ∷ (b'=' ∷ []), le)
          ∷ (b'=' ∷ (b'=' ∷ []), eq)
          ∷ (b'!' ∷ (b'=' ∷ []), neq)
          ∷ (b'>' ∷ [], gt)
          ∷ (b'<' ∷ [], lt)
          ∷ [])
        refl (rw (gone b'>' (b'=' ∷ []) refl))
      ∙ miss b'<' (b'=' ∷ []) le lt
          ((b'=' ∷ (b'=' ∷ []), eq)
            ∷ (b'!' ∷ (b'=' ∷ []), neq)
            ∷ (b'>' ∷ [], gt)
            ∷ (b'<' ∷ [], lt)
            ∷ [])
          refl (rw (gone b'<' (b'=' ∷ []) refl))
      ∙ miss b'=' (b'=' ∷ []) eq lt
          ((b'!' ∷ (b'=' ∷ []), neq) ∷ (b'>' ∷ [], gt) ∷ (b'<' ∷ [], lt) ∷ []) refl
          (rw (gone b'=' (b'=' ∷ []) refl))
      ∙ miss b'!' (b'=' ∷ []) neq lt ((b'>' ∷ [], gt) ∷ (b'<' ∷ [], lt) ∷ []) refl
          (rw (gone b'!' (b'=' ∷ []) refl))
      ∙ miss b'>' [] gt lt ((b'<' ∷ [], lt) ∷ []) refl (rw (gone b'>' [] refl))
      ∙ hit b'<' [] lt [] refl refl

find_op-nil : (s : CStr) → find_op [] s ≡ none
unfolding find_op
find_op-nil s = refl

pub find_op-none : (name : CStr) → NoOp name → find_op ops name ≡ none
find_op-none name hn =
    find_op-miss _ name ge _ (strstr-none b'>' (b'=' ∷ []) name refl hn)
    ∙ find_op-miss _ name le _ (strstr-none b'<' (b'=' ∷ []) name refl hn)
    ∙ find_op-miss _ name eq _ (strstr-none b'=' (b'=' ∷ []) name refl hn)
    ∙ find_op-miss _ name neq _ (strstr-none b'!' (b'=' ∷ []) name refl hn)
    ∙ find_op-miss _ name gt _ (strstr-none b'>' [] name refl hn)
    ∙ find_op-miss _ name lt _ (strstr-none b'<' [] name refl hn)
    ∙ find_op-nil name
