-- ===== src/StrMap/Laws.antt =====
-- What `str_map_set` does to what `str_map_get` returns, on every branch.
use lib_apg.Base.{
  ℕ, ◌*◌, ◌<◌, ◌≡◌, refl, ap, sym, ◌∙◌, inl, inr, Bool, true, false, List, [], ◌∷◌, Option, none,
  some, set, length, arith, Bool-cases, if◌then◌else◌, length-set, replicate, subst, Allocs,
  granted, later, if_rule,
}
use lib_apg.CString.{CStr, str_eq}
use lib_apg.StrMap.{
  str_hashed, Entry, StrMap, replace_in, str_map_get, str_map_set, set_chain, after_rehash,
  insert_entry, str_map_rehash, crowded, str_map_init,
}
use lib_apg.Chains.{bucket_of, chain}
use lib_apg.Chains.Rehash.{bucket_of-lt, found_in}
use lib_apg.Chains.Valid.{set-IsPlaced, total-set}
use lib_apg.StrMap.Replace.{replace_in-none, replace_in-some}
use lib_apg.StrMap.Insert.{
  IsValid, SetPost, get-found_in, found_in-set, insert_entry-Post, after_rehash-Post,
}
use lib_apg.StrMap.Rehashed.{
  rehashed, length-rehashed, found_in-rehashed, rehashed-SameContents, rehashed-IsValid,
}
use lib_apg.Chains.Fill.{replicate-IsPlaced, found_in-replicate}

module _ (key : CStr) (v : ℕ) (m : StrMap) (ok : IsValid m) where
  rehash-Post :
      (allocs : Allocs)
      → found_in m.buckets key ≡ none
      → SetPost key v m (after_rehash key v (str_map_rehash m (length m.buckets * 2) allocs))
  unfolding str_map_rehash
  rehash-Post allocs new =
      if_rule (λ r. SetPost key v m (after_rehash key v r)) (granted allocs)
        (λ _.
          after_rehash-Post key v m (rehashed m ok count pos) true (later allocs)
            (rehashed-IsValid m ok count pos (omega arith)) (rehashed-SameContents m ok count pos)
            (λ _. rw (length-rehashed m ok count pos) (omega (arith, ok.load, ok.nonempty)))
            (found_in-rehashed m ok count pos key ∙ new))
        (λ _. after_rehash-Post key v m m false (later allocs) ok (λ j. refl) (λ e. cc) new)
    where
      count : ℕ
      count = length m.buckets * 2

      pos : 0 < length m.buckets * 2
      pos = omega (arith, ok.nonempty)

  set_chain-Post :
      (o : Option (List Entry)) (allocs : Allocs)
      → replace_in key v (chain m.buckets key) ≡ o
      → SetPost key v m (set_chain m key v o allocs)
  unfolding set_chain found_in
  set_chain-Post none allocs h =
      let new = replace_in-none key v (chain m.buckets key) h in
      if_rule (SetPost key v m) (crowded m) (λ _. rehash-Post allocs new)
        (λ room.
          insert_entry-Post key v m m allocs ok.buckets_placed ok.nonempty ok.counted ok.load
            (ground arith) (λ j. refl) new)
  set_chain-Post (some es) allocs h =
      let r = replace_in-some key v (chain m.buckets key) es h in
      let k = bucket_of (length m.buckets) key in
      let lt = bucket_of-lt (length m.buckets) key ok.nonempty in
      record {
        valid = record {
          nonempty = rw (length-set m.buckets k es) ok.nonempty;
          buckets_placed =
              set-IsPlaced m.buckets k es ok.buckets_placed lt
                (r.keys (length m.buckets) k (ok.buckets_placed.placed k))
                (r.single (ok.buckets_placed.distinct k));
          counted = omega (arith, total-set m.buckets k es lt, r.size, ok.counted);
          load = rw (length-set m.buckets k es) ok.load;
        };
        done = λ _ j.
            get-found_in (set m.buckets k es) m.entry_count j
            ∙ found_in-set m.buckets key v es ok.nonempty r j
            ∙ ap (λ q. if str_eq key j then some v else q)
                (sym (get-found_in m.buckets m.entry_count j));
        kept = λ e. cc;
      }

pub str_map_set-SetPost :
    (key : CStr) (v : ℕ) (m : StrMap) (allocs : Allocs)
    → IsValid m
    → SetPost key v m (str_map_set m key v allocs)
unfolding str_map_set
str_map_set-SetPost key v m allocs ok = by_buckets m.buckets refl
  where
    by_buckets :
        (bs : List (List Entry))
        → m.buckets ≡ bs
        → SetPost key v m (elim bs [
          | [] ↦ (false, m, allocs)
          | _ ∷ _ ↦ set_chain m key v (replace_in key v (chain m.buckets key)) allocs
        ])
    by_buckets [] e = absurd (omega (arith, ok.nonempty, ap length e))
    by_buckets (b ∷ bs) e =
        set_chain-Post key v m ok (replace_in key v (chain m.buckets key)) allocs refl

-- `str_map_set` keeps a map valid, whether it succeeds or not.
pub str_map_set-IsValid :
    (key : CStr) (v : ℕ) (m : StrMap) (allocs : Allocs)
    → IsValid m
    → IsValid (str_map_set m key v allocs).1
str_map_set-IsValid key v m allocs ok = (str_map_set-SetPost key v m allocs ok).valid

-- After a successful `str_map_set` on a valid map the key maps to the value, and every other key to what it did
-- before, across a rehash too.
pub str_map_get-str_map_set :
    (key : CStr) (v : ℕ) (m : StrMap) (allocs : Allocs)
    → IsValid m
    → (str_map_set m key v allocs).0 ≡ true
    → (j : CStr)
    → str_map_get (str_map_set m key v allocs).1 j
      ≡ (if str_eq key j then some v else str_map_get m j)
str_map_get-str_map_set key v m allocs ok h = (str_map_set-SetPost key v m allocs ok).done h

-- A failed `str_map_set` on a valid map, whichever allocation failed, leaves every key what it maps to.
pub str_map_get-str_map_set_failed :
    (key : CStr) (v : ℕ) (m : StrMap) (allocs : Allocs)
    → IsValid m
    → (str_map_set m key v allocs).0 ≡ false
    → (j : CStr) → str_map_get (str_map_set m key v allocs).1 j ≡ str_map_get m j
str_map_get-str_map_set_failed key v m allocs ok h = (str_map_set-SetPost key v m allocs ok).kept h

str_map_set_succeeds_from :
    (key : CStr) (v : ℕ) (m : StrMap) (o : Option (List Entry)) → (set_chain m key v o []).0 ≡ true
unfolding set_chain after_rehash str_map_rehash insert_entry
str_map_set_succeeds_from key v m none =
    if_rule (λ (r : Bool × StrMap × Allocs). r.0 ≡ true) (crowded m) (λ _. refl) (λ _. refl)
str_map_set_succeeds_from key v m (some es) = refl

-- If memory does not run out, `str_map_set` on a valid map succeeds.
pub str_map_set_succeeds :
    (key : CStr) (v : ℕ) (m : StrMap) → IsValid m → (str_map_set m key v []).0 ≡ true
unfolding str_map_set
str_map_set_succeeds key v m ok = by_buckets m.buckets refl
  where
    by_buckets :
        (bs : List (List Entry))
        → m.buckets ≡ bs
        → (elim bs as (λ _. Bool × StrMap × Allocs) [
          | [] ↦ (false, m, [])
          | _ ∷ _ ↦ set_chain m key v (replace_in key v (chain m.buckets key)) []
        ]).0
          ≡ true
    by_buckets [] e = absurd (omega (arith, ok.nonempty, ap length e))
    by_buckets (b ∷ bs) e =
        str_map_set_succeeds_from key v m (replace_in key v (chain m.buckets key))

set_chain_unspent :
    (key : CStr) (v : ℕ) (m : StrMap) (o : Option (List Entry)) → (set_chain m key v o []).2 ≡ []
unfolding set_chain after_rehash str_map_rehash insert_entry
set_chain_unspent key v m none =
    if_rule (λ (r : Bool × StrMap × Allocs). r.2 ≡ []) (crowded m) (λ _. refl) (λ _. refl)
set_chain_unspent key v m (some es) = refl

-- The allocations after those of `str_map_set`, where none of them fails.
pub str_map_set_unspent : (key : CStr) (v : ℕ) (m : StrMap) → (str_map_set m key v []).2 ≡ []
unfolding str_map_set
str_map_set_unspent key v m = by_buckets m.buckets
  where
    by_buckets :
        (bs : List (List Entry))
        → (elim bs as (λ _. Bool × StrMap × Allocs) [
          | [] ↦ (false, m, [])
          | _ ∷ _ ↦ set_chain m key v (replace_in key v (chain m.buckets key)) []
        ]).2
          ≡ []
    by_buckets [] = refl
    by_buckets (b ∷ bs) = set_chain_unspent key v m (replace_in key v (chain m.buckets key))

-- A new map is valid and holds no key.
pub str_map_init_lem :
    (allocs : Allocs) (m : StrMap)
    → (str_map_init allocs).0 ≡ some m
    → IsValid m × ((key : CStr) → str_map_get m key ≡ none)
unfolding str_map_init
str_map_init_lem allocs m h = elim (Bool-cases (granted allocs)) [
  | inl given ↦
      let is : record { buckets = replicate 16 []; entry_count = 0 } ≡ m = ground arith in
      subst (λ (t : StrMap). IsValid t × ((key : CStr) → str_map_get t key ≡ none)) is
        (
          record {
            nonempty = omega arith;
            buckets_placed = replicate-IsPlaced 16;
            counted = refl;
            load = omega arith;
          },
          λ key. get-found_in (replicate 16 []) 0 key ∙ found_in-replicate 16 key,
        )
  | inr failed ↦ absurd (ground arith)
]
