-- ===== src/StrMap/Insert.antt =====
-- The invariant of the map, and the end of `str_map_set` of src/hashmap.c, which adds an entry.
use lib_apg.Base.{
  ℕ, ◌+◌, ◌-◌, ◌/◌, ◌≤◌, ◌<◌, ◌≡◌, refl, ap, sym, ◌∙◌, inl, inr, Bool, true, false, List, [], ◌∷◌,
  none, some, set, length, arith, Bool-cases, if◌then◌else◌, length-set, get_or-set_self,
  get_or-set_ne, Allocs, granted, later, if_rule,
}
use native.Mathlib.Decide.{ℕ_discrete}
use lib_apg.CString.{CStr, str_eq, str_eq_sound}
use lib_apg.StrMap.{str_hashed, Entry, StrMap, str_map_get, after_rehash, insert_entry}
use lib_apg.Chains.{bucket_of, chain, push_entry}
use lib_apg.Chains.Rehash.{bucket_of-lt, found_in, length-push_entry, found_in-push_entry}
use lib_apg.Chains.Valid.{IsPlaced, total, push_entry-IsPlaced, total-push_entry}
use lib_apg.StrMap.Replace.{Replaced}

-- The invariant of a map that is not freed. The load stays at three quarters at most.
pub record IsValid (m : StrMap) : Type 0 where
  pub nonempty : 0 < length m.buckets
  pub buckets_placed : IsPlaced m.buckets
  pub counted : total m.buckets ≡ m.entry_count
  pub load : m.entry_count ≤ length m.buckets - length m.buckets / 4

-- Two maps with the same contents but for one key.
abbrev pub Updated : CStr → ℕ → StrMap → StrMap → Type 0
Updated key v m m' =
    (j : CStr) → str_map_get m' j ≡ (if str_eq key j then some v else str_map_get m j)

abbrev pub SameContents : StrMap → StrMap → Type 0
SameContents m m' = (j : CStr) → str_map_get m' j ≡ str_map_get m j

pub get-found_in :
    (bs : List (List Entry)) (n : ℕ) (j : CStr)
    → str_map_get (record { buckets = bs; entry_count = n }) j ≡ found_in bs j
unfolding str_map_get found_in
get-found_in [] n j = refl
get-found_in (b ∷ bs) n j = refl

-- `found_in` after one chain was replaced.
pub found_in-set :
    (bs : List (List Entry)) (key : CStr) (v : ℕ) (es' : List Entry)
    → 0 < length bs
    → Replaced key v (chain bs key) es'
    → (j : CStr)
    → found_in (set bs (bucket_of (length bs) key) es') j
      ≡ (if str_eq key j then some v else found_in bs j)
unfolding found_in
found_in-set bs key v es' h r j =
    rw (length-set bs (bucket_of (length bs) key) es')
      (elim (ℕ_discrete (bucket_of (length bs) key) (bucket_of (length bs) j)) [
        | yes same ↦
            rw
              (
                ← same,
                get_or-set_self bs (bucket_of (length bs) key) es' []
                    (bucket_of-lt (length bs) key h),
              )
              (r.found j)
        | no other ↦
            let ne : str_eq key j ≡ false = elim (Bool-cases (str_eq key j)) [
              | inl eq ↦ absurd (other (ap (bucket_of (length bs)) (str_eq_sound key j eq)))
              | inr ne ↦ ne
            ] in
            rw (
              get_or-set_ne bs (bucket_of (length bs) key) (bucket_of (length bs) j) es' [] other,
              ne,
            )
      ])

-- What a call of `str_map_set` that returns r leaves behind.
pub record SetPost (key : CStr) (v : ℕ) (m : StrMap) (r : Bool × StrMap × Allocs) : Type 0 where
  pub valid : IsValid r.1
  pub done : r.0 ≡ true → Updated key v m r.1
  pub kept : r.0 ≡ false → SameContents m r.1

module _ (key : CStr) (v : ℕ) where
  pub insert_entry-Post :
      (m0 m : StrMap) (allocs : Allocs)
      → IsPlaced m.buckets
      → 0 < length m.buckets
      → total m.buckets ≡ m.entry_count
      → m.entry_count ≤ length m.buckets - length m.buckets / 4
      → m.entry_count + 1 ≤ length m.buckets - length m.buckets / 4
      → SameContents m0 m
      → found_in m.buckets key ≡ none
      → SetPost key v m0 (insert_entry m key v allocs)
  unfolding insert_entry
  insert_entry-Post m0 m allocs placed h count load room same new =
      if_rule (SetPost key v m0) (granted allocs)
        (λ _.
          if_rule (SetPost key v m0) (granted (later allocs)) (λ _. inserted)
            (λ _. refused (later (later allocs))))
        (λ _. refused (later allocs))
    where
      refused : (a : Allocs) → SetPost key v m0 (false, m, a)
      refused a = record {
        valid = record { nonempty = h; buckets_placed = placed; counted = count; load = load };
        done = λ e. cc;
        kept = λ e. same;
      }

      e : Entry
      e = record { key = key; value = v }

      inserted : SetPost key v m0 (
        true,
        record { buckets = push_entry e m.buckets; entry_count = m.entry_count + 1 },
        later (later allocs),
      )
      inserted = record {
        valid = record {
          nonempty = rw (length-push_entry e m.buckets) h;
          buckets_placed = push_entry-IsPlaced e m.buckets h placed new;
          counted = omega (arith, total-push_entry e m.buckets h, count);
          load = rw (length-push_entry e m.buckets) room;
        };
        done = λ _ j.
            get-found_in (push_entry e m.buckets) (m.entry_count + 1) j
            ∙ found_in-push_entry e m.buckets j h
            ∙ ap (λ o. if str_eq key j then some v else o)
                (sym (get-found_in m.buckets m.entry_count j) ∙ same j);
        kept = λ q. cc;
      }

  pub after_rehash-Post :
      (m0 m : StrMap) (b : Bool) (allocs : Allocs)
      → IsValid m
      → SameContents m0 m
      → (b ≡ true → m.entry_count + 1 ≤ length m.buckets - length m.buckets / 4)
      → found_in m.buckets key ≡ none
      → SetPost key v m0 (after_rehash key v (b, m, allocs))
  unfolding after_rehash
  after_rehash-Post m0 m true allocs ok same room new =
      insert_entry-Post m0 m allocs ok.buckets_placed ok.nonempty ok.counted ok.load (room refl)
        same new
  after_rehash-Post m0 m false allocs ok same room new = record {
    valid = ok;
    done = λ e. cc;
    kept = λ e. same;
  }
