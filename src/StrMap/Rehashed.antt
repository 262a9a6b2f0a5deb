-- ===== src/StrMap/Rehashed.antt =====
-- A rehashed map of src/hashmap.c is valid and has the same contents.
use lib_apg.Base.{ℕ, ◌≤◌, ◌<◌, ◌≡◌, sym, ◌∙◌, [], length, arith, replicate}
use lib_apg.CString.{CStr}
use lib_apg.StrMap.{str_hashed, StrMap}
use lib_apg.Chains.{rehash_all}
use lib_apg.Chains.Fill.{refilled-IsPlaced, found_in-refilled}
use lib_apg.Chains.Rehash.{found_in}
use lib_apg.StrMap.Insert.{IsValid, SameContents, get-found_in}

module _ (m : StrMap) (ok : IsValid m) (count : ℕ) (pos : 0 < count) where
  abbrev pub rehashed : StrMap
  rehashed = record m { buckets = rehash_all m.buckets (replicate count []) }

  pub length-rehashed : length rehashed.buckets ≡ count
  length-rehashed = (refilled-IsPlaced m.buckets ok.buckets_placed ok.nonempty count pos).1

  pub found_in-rehashed : (j : CStr) → found_in rehashed.buckets j ≡ found_in m.buckets j
  found_in-rehashed j = found_in-refilled m.buckets ok.buckets_placed ok.nonempty count pos j

  pub rehashed-SameContents : SameContents m rehashed
  rehashed-SameContents j =
      get-found_in rehashed.buckets m.entry_count j
      ∙ found_in-rehashed j
      ∙ sym (get-found_in m.buckets m.entry_count j)

  pub rehashed-IsValid : length m.buckets ≤ count → IsValid rehashed
  rehashed-IsValid more =
      let (placed, size, tot) =
        refilled-IsPlaced m.buckets ok.buckets_placed ok.nonempty count pos in
      record {
        nonempty = rw size pos;
        buckets_placed = placed;
        counted = tot ∙ ok.counted;
        load = rw size (omega (arith, ok.load));
      }
