-- ===== src/Tests/Maps.antt =====
-- Maps and graphs: src/hashmap.c and src/graph/graph.c.
use lib_apg.Base.{◌≡◌, refl, true, false, [], ◌∷◌, some, replicate, if◌then◌else◌}
use lib_apg.CString.{str_eq}
use lib_apg.StrMap.{fnv1a, StrMap, str_map_init, str_map_get, str_map_set}
use lib_apg.Chains.{bucket_of}
use lib_apg.StrMap.Insert.{IsValid}
use lib_apg.StrMap.Laws.{
  str_map_set-IsValid, str_map_get-str_map_set, str_map_get-str_map_set_failed,
  str_map_set_succeeds, str_map_init_lem,
}

abbrev fresh_map : StrMap
fresh_map = record { buckets = replicate 16 []; entry_count = 0 }

fresh_map_made : (str_map_init []).0 ≡ some fresh_map
unfolding str_map_init
fresh_map_made = refl

fresh_map-IsValid : IsValid fresh_map
fresh_map-IsValid = (str_map_init_lem [] fresh_map fresh_map_made).0

str_map_set-IsValid_example : IsValid (str_map_set fresh_map (b'a' ∷ []) 7 (false ∷ [])).1
str_map_set-IsValid_example =
    str_map_set-IsValid (b'a' ∷ []) 7 fresh_map (false ∷ []) fresh_map-IsValid

str_map_get-str_map_set_example :
    str_map_get (str_map_set fresh_map (b'a' ∷ []) 7 []).1 (b'a' ∷ [])
    ≡ (if str_eq (b'a' ∷ []) (b'a' ∷ []) then some 7 else str_map_get fresh_map (b'a' ∷ []))
str_map_get-str_map_set_example =
    str_map_get-str_map_set (b'a' ∷ []) 7 fresh_map [] fresh_map-IsValid
      (str_map_set_succeeds (b'a' ∷ []) 7 fresh_map fresh_map-IsValid) (b'a' ∷ [])

-- The second allocation, of the copy of the key, fails.
set_failed : (str_map_set fresh_map (b'a' ∷ []) 7 (true ∷ false ∷ [])).0 ≡ false
unfolding str_map_set bucket_of fnv1a
set_failed = refl

str_map_get-str_map_set_failed_example :
    str_map_get (str_map_set fresh_map (b'a' ∷ []) 7 (true ∷ false ∷ [])).1 (b'a' ∷ [])
    ≡ str_map_get fresh_map (b'a' ∷ [])
str_map_get-str_map_set_failed_example =
    str_map_get-str_map_set_failed (b'a' ∷ []) 7 fresh_map (true ∷ false ∷ []) fresh_map-IsValid
      set_failed (b'a' ∷ [])
