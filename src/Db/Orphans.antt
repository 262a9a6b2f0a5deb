-- ===== src/Db/Orphans.antt =====
-- `db_get_orphans` of src/db/orphans.c lists the packages that nothing needs.
use lib_apg.Base.{
  ℕ, ◌≡◌, refl, sym, ◌∙◌, subst, ap, Bool, true, false, ◌||◌, List, [], ◌∷◌, ◌++◌, Option, none,
  some, length, replicate, ◌==◌, if_rule, if◌then◌else◌, Allocs, grow,
}
use mathlib.Core.List.{append-nil, append_assoc}
use lib_apg.CString.{CStr, str_eq}
use lib_apg.Package.{DepConstraint}
use lib_apg.StrMap.{StrMap, str_map_init, str_map_get, str_map_set}
use lib_apg.StrMap.Insert.{IsValid}
use lib_apg.StrMap.Laws.{
  str_map_get-str_map_set, str_map_set-IsValid, str_map_set_succeeds, str_map_set_unspent,
  str_map_init_lem,
}
use lib_apg.Transaction.{PackageFile}
use lib_apg.Db.{
  StrVec, push_copy, str_vec_push, then_set, set_deps, build_needed_set, is_key, is_provided_key,
  is_needed_in, is_orphan, then_push, push_orphans, list_orphans, db_get_orphans,
}

-- One of the dependencies is on the name.
abbrev pub wants : List DepConstraint → CStr → Bool
wants [] n = false
wants (d ∷ deps) n = str_eq d.name n || wants deps n

-- One of the packages depends on the name.
abbrev pub depended_on : List PackageFile → CStr → Bool
depended_on [] n = false
depended_on (p ∷ all) n = wants p.meta.dependencies n || depended_on all n

abbrev pub any_depended_on : List PackageFile → List CStr → Bool
any_depended_on all [] = false
any_depended_on all (n ∷ names) = depended_on all n || any_depended_on all names

abbrev pub orphan_of : List PackageFile → PackageFile → Option CStr
orphan_of all p = elim p.meta.name [
  | none ↦ none
  | some n ↦
      if p.installed_by_hand
      then none
      else if depended_on all n || any_depended_on all p.meta.provides
      then none
      else some n
]

-- The names of those of the packages that were not installed by hand, and on which, and on what
-- they provide, no installed package depends.
abbrev pub orphans : List PackageFile → List PackageFile → List CStr
orphans all [] = []
orphans all (p ∷ ps) =
    let rest = orphans all ps in elim (orphan_of all p) [ none ↦ rest | some n ↦ n ∷ rest ]

-- The map after names were set in it, with no allocation that fails.
pub record SetAll (m : StrMap) (names : CStr → Bool) (r : Bool × StrMap × Allocs) : Type 0 where
  pub success : r.0 ≡ true
  pub unspent : r.2 ≡ []
  pub valid : IsValid r.1
  pub keys : (n : CStr) → is_key r.1 n ≡ (names n || is_key m n)

abbrev is_key_of : Option ℕ → Bool
is_key_of none = false
is_key_of (some i) = true

then_set-SetAll :
    (m : StrMap) (f g : CStr → Bool) (r : Bool × StrMap × Allocs)
    (next : StrMap → Allocs → Bool × StrMap × Allocs)
    → SetAll m f r
    → ((m' : StrMap) → IsValid m' → SetAll m' g (next m' []))
    → SetAll m (λ n. f n || g n) (then_set r next)
then_set-SetAll m f g (false, m', allocs) next q more = absurd (differ q.success)
  where
    differ : ¬ (false ≡ true)
    differ e = cc
then_set-SetAll m f g (true, m', allocs) next q more =
    subst (λ a. SetAll m (λ n. f n || g n) (next m' a)) (sym q.unspent)
      (record {
        success = then.success;
        unspent = then.unspent;
        valid = then.valid;
        keys = λ n.
            then.keys n
            ∙ subst (λ k. (g n || k) ≡ ((f n || g n) || is_key m n)) (sym (q.keys n))
                (swap (f n) (g n) (is_key m n));
      })
  where
    then : SetAll m' g (next m' [])
    then = more m' q.valid

    swap : (a b c : Bool) → (b || (a || c)) ≡ ((a || b) || c)
    swap true true c = refl
    swap true false c = refl
    swap false true c = refl
    swap false false c = refl

set_name-SetAll : (m : StrMap) (d : CStr) → IsValid m → SetAll m (str_eq d) (str_map_set m d 1 [])
set_name-SetAll m d ok = record {
  success = str_map_set_succeeds d 1 m ok;
  unspent = str_map_set_unspent d 1 m;
  valid = str_map_set-IsValid d 1 m [] ok;
  keys = λ n.
      ap is_key_of (str_map_get-str_map_set d 1 m [] ok (str_map_set_succeeds d 1 m ok) n)
      ∙ by_test (str_eq d n) (str_map_get m n);
}
  where
    by_test : (b : Bool) (o : Option ℕ) → is_key_of (if b then some 1 else o) ≡ (b || is_key_of o)
    by_test true o = refl
    by_test false o = refl

set_deps-SetAll :
    (deps : List DepConstraint) (m : StrMap)
    → IsValid m
    → SetAll m (wants deps) (set_deps deps m [])
unfolding set_deps
set_deps-SetAll [] m ok = record { success = refl; unspent = refl; valid = ok; keys = λ n. refl }
set_deps-SetAll (d ∷ deps) m ok =
    then_set-SetAll m (str_eq d.name) (wants deps) _ _ (set_name-SetAll m d.name ok)
      (λ m' ok'. set_deps-SetAll deps m' ok')

build_needed_set-SetAll :
    (all : List PackageFile) (m : StrMap)
    → IsValid m
    → SetAll m (depended_on all) (build_needed_set all m [])
unfolding build_needed_set
build_needed_set-SetAll [] m ok = record {
  success = refl;
  unspent = refl;
  valid = ok;
  keys = λ n. refl;
}
build_needed_set-SetAll (p ∷ all) m ok =
    then_set-SetAll m (wants p.meta.dependencies) (depended_on all) _ _
      (set_deps-SetAll p.meta.dependencies m ok) (λ m' ok'. build_needed_set-SetAll all m' ok')

str_vec_push-granted :
    (v : StrVec) (n : CStr)
    → (cap : ℕ) × (str_vec_push v n []
        ≡ (true, record { items = v.items ++ (n ∷ []); cap = cap }, []))
unfolding str_vec_push grow
str_vec_push-granted v n =
    if_rule
      (λ (r : Option ℕ × Allocs).
        (cap : ℕ) × (push_copy v n r
          ≡ (true, record { items = v.items ++ (n ∷ []); cap = cap }, [])))
      (length v.items == v.cap) (λ _. (_, refl)) (λ _. (_, refl))

module _ (all : List PackageFile) (m : StrMap)
    (keys : (n : CStr) → is_key m n ≡ depended_on all n) where
  provided-depended_on : (names : List CStr) → is_provided_key names m ≡ any_depended_on all names
  provided-depended_on [] = refl
  provided-depended_on (n ∷ names) = rw (keys n, provided-depended_on names)

  is_orphan-orphan_of : (p : PackageFile) → is_orphan p m ≡ orphan_of all p
  is_orphan-orphan_of p = by_name p.meta.name
    where
      by_name :
          (o : Option CStr)
          → (elim o as (λ _. Option CStr) [
            | none ↦ none
            | some n ↦
                if p.installed_by_hand
                then none
                else if is_needed_in n p.meta.provides m
                then none
                else some n
          ])
            ≡ (elim o as (λ _. Option CStr) [
              | none ↦ none
              | some n ↦
                  if p.installed_by_hand
                  then none
                  else if depended_on all n || any_depended_on all p.meta.provides
                  then none
                  else some n
            ])
      by_name none = refl
      by_name (some n) = rw (keys n, provided-depended_on p.meta.provides)

  push_one-orphans :
      (ps : List PackageFile) (v : StrVec)
      → ((v' : StrVec) → (push_orphans ps m v' []).0.items ≡ v'.items ++ orphans all ps)
      → (o : Option CStr)
      → (elim o as (λ _. StrVec × Allocs) [
        | none ↦ push_orphans ps m v []
        | some n ↦ then_push (str_vec_push v n []) (λ v' rest. push_orphans ps m v' rest)
      ]).0.items
        ≡ v.items
          ++ (elim o as (λ _. List CStr) [ none ↦ orphans all ps | some n ↦ n ∷ orphans all ps ])
  push_one-orphans ps v more none = more v
  push_one-orphans ps v more (some n) =
      let (cap, e) = str_vec_push-granted v n in
      subst
        (λ (r : Bool × StrVec × Allocs).
          (then_push r (λ v' rest. push_orphans ps m v' rest)).0.items
          ≡ v.items ++ (n ∷ orphans all ps))
        (sym e)
        (more (record { items = v.items ++ (n ∷ []); cap = cap })
          ∙ append_assoc v.items (n ∷ []) (orphans all ps))

  push_orphans-orphans :
      (ps : List PackageFile) (v : StrVec)
      → (push_orphans ps m v []).0.items ≡ v.items ++ orphans all ps
  unfolding push_orphans
  push_orphans-orphans [] v = sym (append-nil v.items)
  push_orphans-orphans (p ∷ ps) v =
      subst
        (λ (o : Option CStr).
          (elim o as (λ _. StrVec × Allocs) [
            | none ↦ push_orphans ps m v []
            | some n ↦ then_push (str_vec_push v n []) (λ v' rest. push_orphans ps m v' rest)
          ]).0.items
          ≡ v.items ++ orphans all (p ∷ ps))
        (sym (is_orphan-orphan_of p))
        (push_one-orphans ps v (λ v'. push_orphans-orphans ps v') (orphan_of all p))

list_orphans-orphans :
    (all : List PackageFile) (m : StrMap) (r : Bool × StrMap × Allocs)
    → ((n : CStr) → str_map_get m n ≡ none)
    → SetAll m (depended_on all) r
    → (list_orphans all r).0 ≡ orphans all all
list_orphans-orphans all m (false, needed, allocs) fresh q = absurd (differ q.success)
  where
    differ : ¬ (false ≡ true)
    differ e = cc
list_orphans-orphans all m (true, needed, allocs) fresh q =
    subst
      (λ a. (push_orphans all needed (record { items = []; cap = 0 }) a).0.items ≡ orphans all all)
      (sym q.unspent)
      (push_orphans-orphans all needed
        (λ n.
          q.keys n
          ∙ ap (λ o. depended_on all n || is_key_of o) (fresh n)
          ∙ or_false (depended_on all n))
        all (record { items = []; cap = 0 }))
  where
    or_false : (b : Bool) → (b || false) ≡ b
    or_false true = refl
    or_false false = refl

-- While memory does not run out, `db_get_orphans` returns, in the order of the database, the names of
-- the packages that were not installed by hand, and on which, and on what they provide, no installed package depends,
-- themselves included.
pub db_get_orphans-orphans :
    (all : List PackageFile) → (db_get_orphans (some all) []).0 ≡ orphans all all
unfolding db_get_orphans str_map_init
db_get_orphans-orphans all =
    list_orphans-orphans all new_map (build_needed_set all new_map []) new.1
      (build_needed_set-SetAll all new_map new.0)
  where
    new_map : StrMap
    new_map = record { buckets = replicate 16 []; entry_count = 0 }

    new : IsValid new_map × ((n : CStr) → str_map_get new_map n ≡ none)
    new = str_map_init_lem [] new_map refl
