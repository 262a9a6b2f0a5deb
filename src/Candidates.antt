-- ===== src/Candidates.antt =====
-- Candidate sets: src/graph/candidates.c.
pub mod Group
pub mod Add
pub mod Members
use lib_apg.Base.{
  ℕ, Bool, true, false, List, [], ◌∷◌, ◌++◌, Option, none, some, get_elem?, set, length,
  if◌then◌else◌, Allocs, granted, later, grow,
}
use lib_apg.CString.{CStr}
use lib_apg.Package.{Package}
use lib_apg.StrMap.{StrMap, str_map_init, str_map_free, str_map_get, str_map_set}

pub record CandidateGroup : Type 0 where
  pub name : CStr
  pub items : List Package
  pub cap : ℕ

pub record CandidateSet : Type 0 where
  pub groups : List CandidateGroup
  pub cap : ℕ
  pub index : StrMap

unfoldable pub candidate_set_init : Allocs → Option CandidateSet × Allocs
candidate_set_init allocs =
    let (made, rest) = str_map_init allocs in
    elim made [
      | none ↦ (none, rest)
      | some index ↦ (some (record { groups = []; cap = 0; index = index }), rest)
    ]

unfoldable pub candidate_set_free : CandidateSet → CandidateSet
unfolding str_map_free
candidate_set_free cs = record { groups = []; cap = 0; index = str_map_free cs.index }

-- The new group, once the map has its name or not.
unfoldable pub index_group :
    CandidateSet → CStr → Bool × StrMap × Allocs → Option ℕ × CandidateSet × Allocs
index_group cs name (false, index, allocs) = (none, record cs { index = index }, allocs)
index_group cs name (true, index, allocs) = (
  some (length cs.groups),
  record cs {
    groups = cs.groups ++ (record { name = name; items = []; cap = 0 } ∷ []);
    index = index;
  },
  allocs,
)

unfoldable pub create_group :
    CandidateSet → CStr → Option ℕ × Allocs → Option ℕ × CandidateSet × Allocs
unfolding index_group
create_group cs name (none, allocs) = (none, cs, allocs)
create_group cs name (some cap, allocs) =
    let cs' = record cs { cap = cap } in
    if granted allocs
    then index_group cs' name (str_map_set cs.index name (length cs.groups) (later allocs))
    else (none, cs', later allocs)

-- The index of the group; `none` is NULL.
unfoldable pub find_or_create_group :
    CandidateSet → CStr → Allocs → Option ℕ × CandidateSet × Allocs
unfolding create_group
find_or_create_group cs name allocs = elim (str_map_get cs.index name) [
  | some k ↦ (some k, cs, allocs)
  | none ↦ create_group cs name (grow (length cs.groups) cs.cap 16 allocs)
]

-- One more item in group k.
unfoldable pub push_item :
    CandidateSet → ℕ → Package → CandidateGroup → Option ℕ × Allocs → Bool × CandidateSet × Allocs
push_item cs k pkg group (none, allocs) = (false, cs, allocs)
push_item cs k pkg group (some cap, allocs) = (
  true,
  record cs {
    groups = set cs.groups k (record group { items = group.items ++ (pkg ∷ []); cap = cap });
  },
  allocs,
)

unfoldable pub add_to : Package → Option ℕ × CandidateSet × Allocs → Bool × CandidateSet × Allocs
unfolding push_item
add_to pkg (none, cs, allocs) = (false, cs, allocs)
add_to pkg (some k, cs, allocs) = elim (get_elem? cs.groups k) [
  | none ↦ (false, cs, allocs)
  | some group ↦ push_item cs k pkg group (grow (length group.items) group.cap 4 allocs)
]

unfoldable pub candidate_set_add :
    CandidateSet → CStr → Package → Allocs → Bool × CandidateSet × Allocs
unfolding add_to find_or_create_group
candidate_set_add cs name pkg allocs = add_to pkg (find_or_create_group cs name allocs)

abbrev pub then_add :
    Bool × CandidateSet × Allocs
    → (CandidateSet → Allocs → Bool × CandidateSet × Allocs)
    → Bool × CandidateSet × Allocs
then_add (true, cs, allocs) next = next cs allocs
then_add (false, cs, allocs) next = (false, cs, allocs)

-- The package under each of the names.
unfoldable pub add_names :
    List CStr → Package → CandidateSet → Allocs → Bool × CandidateSet × Allocs
unfolding candidate_set_add
add_names [] pkg cs allocs = (true, cs, allocs)
add_names (name ∷ names) pkg cs allocs =
    then_add (candidate_set_add cs name pkg allocs) (λ cs' rest. add_names names pkg cs' rest)

-- `name` is `pkg->name`, which the callers check.
unfoldable pub candidate_set_add_package :
    CandidateSet → CStr → Package → Allocs → Bool × CandidateSet × Allocs
unfolding add_names
candidate_set_add_package cs name pkg allocs = add_names (name ∷ pkg.provides) pkg cs allocs

unfoldable pub candidate_set_lookup : CandidateSet → CStr → Option CandidateGroup
candidate_set_lookup cs name = elim (str_map_get cs.index name) [
  | none ↦ none
  | some k ↦ get_elem? cs.groups k
]
