-- ===== src/Tests/Candidates.antt =====
-- Candidate sets: src/graph/candidates.c.
use lib_apg.Base.{◌≡◌, refl, true, false, [], ◌∷◌, some, replicate, grow}
use lib_apg.CString.{CStr}
use lib_apg.Package.{Package}
use lib_apg.StrMap.{fnv1a, str_map_init, str_map_get, str_map_set, set_chain, insert_entry}
use lib_apg.Chains.{bucket_of}
use lib_apg.Candidates.{
  CandidateSet, candidate_set_init, candidate_set_add, find_or_create_group, create_group,
  index_group, add_to, push_item,
}
use lib_apg.Candidates.Group.{IsValid}
use lib_apg.Candidates.Add.{candidate_set_init_lem}

abbrev empty_set : CandidateSet
empty_set = record {
  groups = [];
  cap = 0;
  index = record { buckets = replicate 16 []; entry_count = 0 };
}

abbrev mailer : CStr
mailer = b'm' ∷ []

abbrev postfix : Package
postfix = record {
  addr = 8;
  name = some (b'p' ∷ []);
  version = some (b'3' ∷ []);
  dependencies = [];
  conflicts = [];
  provides = mailer ∷ [];
  replaces = [];
}

empty_set_made : (candidate_set_init []).0 ≡ some empty_set
unfolding candidate_set_init str_map_init
empty_set_made = refl

empty_set-IsValid : IsValid empty_set
empty_set-IsValid = (candidate_set_init_lem [] empty_set empty_set_made).0

-- With enough memory, and with the item array refused after the group was made.
set_runs :
    ((candidate_set_add empty_set mailer postfix []).0 ≡ true)
    × ((candidate_set_add empty_set mailer postfix (true ∷ true ∷ true ∷ true ∷ false ∷ [])).0
        ≡ false)
unfolding candidate_set_add find_or_create_group create_group index_group add_to push_item grow
    str_map_get str_map_set set_chain insert_entry bucket_of fnv1a
set_runs = (refl, refl)
