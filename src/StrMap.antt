-- ===== src/StrMap.antt =====
-- The string-keyed hash map of src/hashmap.c.
pub mod Replace
pub mod Insert
pub mod Rehashed
pub mod Laws
use Prim.Native.Nat.{bit_xor}
use lib_apg.Base.{
  ℕ, ◌+◌, ◌-◌, ◌*◌, ◌/◌, ◌%◌, ◌^◌, Bool, true, false, List, [], ◌∷◌, Option, none, some, get_or,
  set, length, replicate, ltb, if◌then◌else◌, Allocs, granted, later,
}
use lib_apg.CString.{CStr, str_eq, str_eq_sound, str_eq_refl}
use lib_apg.Chains.{
  Hashed, ChainEntry, bucket_of, chain, find_in, push_entry, rehash_chain, rehash_all,
}

abbrev pub Entry : Type 0
Entry = ChainEntry CStr

-- `bucket_count` is the length of `buckets`, and a NULL `buckets` is the empty list. A bucket is
-- its chain of entries.
pub record StrMap : Type 0 where
  pub buckets : List (List Entry)
  pub entry_count : ℕ

-- `size_t` has 64 bits.
unfoldable pub fnv1a_from : ℕ → CStr → ℕ
fnv1a_from h [] = h
fnv1a_from h (c ∷ s) = fnv1a_from (bit_xor h c * 1099511628211 % 2 ^ 64) s

unfoldable pub fnv1a : CStr → ℕ
unfolding fnv1a_from
fnv1a s = fnv1a_from 14695981039346656037 s

-- The keys: FNV-1a, and `strcmp(a, b) == 0`.
instance abbrev pub str_hashed : Hashed CStr
str_hashed = record {
  hash = fnv1a;
  same_key = str_eq;
  same_key_sound = str_eq_sound;
  same_key_refl = str_eq_refl;
}

unfoldable pub str_map_init : Allocs → Option StrMap × Allocs
str_map_init allocs =
    if granted allocs
    then (some (record { buckets = replicate 16 []; entry_count = 0 }), later allocs)
    else (none, later allocs)

unfoldable pub str_map_free : StrMap → StrMap
str_map_free m = elim m.buckets [ [] ↦ m | _ ∷ _ ↦ record { buckets = []; entry_count = 0 } ]

-- `none` is `false`; `some v` is `true` with v in `*out_value`.
unfoldable pub str_map_get : StrMap → CStr → Option ℕ
unfolding find_in
str_map_get m key = elim m.buckets [ [] ↦ none | _ ∷ _ ↦ find_in key (chain m.buckets key) ]

unfoldable pub str_map_rehash : StrMap → ℕ → Allocs → Bool × StrMap × Allocs
unfolding rehash_all
str_map_rehash m new_count allocs =
    if granted allocs
    then (true, record m { buckets = rehash_all m.buckets (replicate new_count []) }, later allocs)
    else (false, m, later allocs)

-- The first loop of `str_map_set`: the chain with the value of the key replaced, if it is there.
unfoldable pub replace_in : CStr → ℕ → List Entry → Option (List Entry)
replace_in key v [] = none
replace_in key v (e ∷ es) =
    if str_eq e.key key
    then some (record e { value = v } ∷ es)
    else elim (replace_in key v es) [ none ↦ none | some es' ↦ some (e ∷ es') ]

-- The end of `str_map_set`: a new entry at the front of its chain.
unfoldable pub insert_entry : StrMap → CStr → ℕ → Allocs → Bool × StrMap × Allocs
unfolding push_entry
insert_entry m key v allocs =
    if granted allocs
    then if granted (later allocs)
      then (
        true,
        record {
          buckets = push_entry (record { key = key; value = v }) m.buckets;
          entry_count = m.entry_count + 1;
        },
        later (later allocs),
      )
      else (false, m, later (later allocs))
    else (false, m, later allocs)

unfoldable pub after_rehash : CStr → ℕ → Bool × StrMap × Allocs → Bool × StrMap × Allocs
unfolding insert_entry
after_rehash key v (true, m, allocs) = insert_entry m key v allocs
after_rehash key v (false, m, allocs) = (false, m, allocs)

-- Is the map too full for one more entry?
abbrev pub crowded : StrMap → Bool
crowded m = ltb (length m.buckets - length m.buckets / 4) (m.entry_count + 1)

unfoldable pub set_chain : StrMap → CStr → ℕ → Option (List Entry) → Allocs → Bool × StrMap × Allocs
unfolding after_rehash str_map_rehash
set_chain m key v (some es) allocs =
    (true, record m { buckets = set m.buckets (bucket_of (length m.buckets) key) es }, allocs)
set_chain m key v none allocs =
    if crowded m
    then after_rehash key v (str_map_rehash m (length m.buckets * 2) allocs)
    else insert_entry m key v allocs

unfoldable pub str_map_set : StrMap → CStr → ℕ → Allocs → Bool × StrMap × Allocs
unfolding set_chain replace_in
str_map_set m key v allocs = elim m.buckets [
  | [] ↦ (false, m, allocs)
  | _ ∷ _ ↦ set_chain m key v (replace_in key v (chain m.buckets key)) allocs
]
