-- ===== src/Candidates/Group.antt =====
-- The invariant of the candidate sets of src/graph/candidates.c, and their groups.
use lib_apg.Base.{
  ℕ, ◌≡◌, refl, ap, sym, ◌∙◌, inl, inr, Bool, true, false, List, [], ◌∷◌, ◌++◌, Option, none, some,
  get_elem?, length, Bool-cases, get_elem?-append_left, get_elem?-append_last, if_rule, subst,
  Allocs, granted, later, grow,
}
use mathlib.Core.Option.{some-injective}
use lib_apg.CString.{CStr, str_eq, str_eq_sound, str_eq_refl}
use lib_apg.Package.{Package}
use lib_apg.StrMap.{StrMap, str_map_get, str_map_set}
use lib_apg.StrMap.Insert.{IsValid as MapIsValid, SetPost}
use lib_apg.StrMap.Laws.{str_map_set-SetPost}
use lib_apg.Candidates.{
  CandidateGroup, CandidateSet, index_group, create_group, find_or_create_group,
  candidate_set_lookup,
}

-- Every name of the index is that of its group.
pub record IsValid (cs : CandidateSet) : Type 0 where
  pub index_valid : MapIsValid cs.index
  pub indexed :
      (name : CStr) (k : ℕ)
      → str_map_get cs.index name ≡ some k
      → (group : CandidateGroup) × (get_elem? cs.groups k ≡ some group) × (group.name ≡ name)

abbrev pub items_in : Option CandidateGroup → List Package
items_in none = []
items_in (some group) = group.items

-- The candidates for a name.
abbrev pub items_of : CandidateSet → CStr → List Package
items_of cs name = items_in (candidate_set_lookup cs name)

pub items_of-found :
    (cs : CandidateSet) (name : CStr) (k : ℕ)
    → str_map_get cs.index name ≡ some k
    → items_of cs name ≡ items_in (get_elem? cs.groups k)
unfolding candidate_set_lookup
items_of-found cs name k e = rw (e, candidate_set_lookup)

pub items_of-absent :
    (cs : CandidateSet) (name : CStr) → str_map_get cs.index name ≡ none → items_of cs name ≡ []
unfolding candidate_set_lookup
items_of-absent cs name e = rw (e, candidate_set_lookup)

-- What `find_or_create_group` leaves: at most a new group without items.
pub record GroupPost (cs : CandidateSet) (name : CStr) (r : Option ℕ × CandidateSet × Allocs)
    : Type 0 where
  pub valid : IsValid r.1
  pub same_items : (j : CStr) → items_of r.1 j ≡ items_of cs j
  pub found : (k : ℕ) → r.0 ≡ some k → str_map_get r.1.index name ≡ some k

module _ (cs : CandidateSet) (name : CStr) (h : IsValid cs) where
  unchanged :
      (o : Option ℕ) (cap : ℕ) (allocs : Allocs)
      → ((k : ℕ) → o ≡ some k → str_map_get cs.index name ≡ some k)
      → GroupPost cs name (o, record cs { cap = cap }, allocs)
  unfolding candidate_set_lookup
  unchanged o cap allocs f = record {
    valid = record { index_valid = h.index_valid; indexed = h.indexed };
    same_items = λ j. refl;
    found = f;
  }

  index_group-GroupPost :
      (cap : ℕ) (r : Bool × StrMap × Allocs)
      → str_map_get cs.index name ≡ none
      → SetPost name (length cs.groups) cs.index r
      → GroupPost cs name (index_group (record cs { cap = cap }) name r)
  unfolding index_group candidate_set_lookup
  index_group-GroupPost cap (false, index, allocs) new p = record {
    valid = record {
      index_valid = p.valid;
      indexed = λ j k e. h.indexed j k (sym (p.kept refl j) ∙ e);
    };
    same_items = λ j. rw (p.kept refl j, candidate_set_lookup);
    found = λ k e. cc;
  }
  index_group-GroupPost cap (true, index, allocs) new p = record {
    valid = record { index_valid = p.valid; indexed = indexed' };
    same_items = same;
    found = λ k e. own ∙ e;
  }
    where
      group : CandidateGroup
      group = record { name = name; items = []; cap = 0 }

      cs' : CandidateSet
      cs' = record { groups = cs.groups ++ (group ∷ []); cap = cap; index = index }

      own : str_map_get index name ≡ some (length cs.groups)
      own = rw (str_eq_refl name) at (p.done refl name)

      other : (j : CStr) → str_eq name j ≡ false → str_map_get index j ≡ str_map_get cs.index j
      other j e = rw e at (p.done refl j)

      indexed' :
          (j : CStr) (k : ℕ)
          → str_map_get index j ≡ some k
          → (g : CandidateGroup) × (get_elem? (cs.groups ++ (group ∷ [])) k ≡ some g) × (g.name ≡ j)
      indexed' j k e = elim (Bool-cases (str_eq name j)) [
        | inl q ↦
            let same = str_eq_sound name j q in
            let at : str_map_get index name ≡ some k =
              subst (λ n. str_map_get index n ≡ some k) (sym same) e in
            (
              group,
              subst (λ n. get_elem? (cs.groups ++ (group ∷ [])) n ≡ some group)
                  (some-injective _ _ (sym own ∙ at)) (get_elem?-append_last cs.groups group),
              same,
            )
        | inr q ↦
            let (g, at, n) = h.indexed j k (sym (other j q) ∙ e) in
            (g, get_elem?-append_left cs.groups (group ∷ []) k g at, n)
      ]

      same : (j : CStr) → items_of cs' j ≡ items_of cs j
      same j = elim (Bool-cases (str_eq name j)) [
        | inl q ↦
            subst (λ n. items_of cs' n ≡ items_of cs n) (str_eq_sound name j q)
              (items_of-found cs' name (length cs.groups) own
                ∙ ap items_in (get_elem?-append_last cs.groups group)
                ∙ sym (items_of-absent cs name new))
        | inr q ↦ by_old (str_map_get cs.index j) refl (other j q)
      ]
        where
          by_old :
              (o : Option ℕ)
              → str_map_get cs.index j ≡ o
              → str_map_get index j ≡ str_map_get cs.index j
              → items_of cs' j ≡ items_of cs j
          by_old none e f = items_of-absent cs' j (f ∙ e) ∙ sym (items_of-absent cs j e)
          by_old (some k) e f =
              let (g, at, n) = h.indexed j k e in
              items_of-found cs' j k (f ∙ e)
              ∙ ap items_in (get_elem?-append_left cs.groups (group ∷ []) k g at ∙ sym at)
              ∙ sym (items_of-found cs j k e)

  create_group-GroupPost :
      (r : Option ℕ × Allocs)
      → str_map_get cs.index name ≡ none
      → GroupPost cs name (create_group cs name r)
  unfolding create_group
  create_group-GroupPost (none, allocs) new = unchanged none cs.cap allocs (λ k e. cc)
  create_group-GroupPost (some room, allocs) new =
      if_rule (GroupPost cs name) (granted allocs)
        (λ _.
          index_group-GroupPost room (str_map_set cs.index name (length cs.groups) (later allocs))
            new (str_map_set-SetPost name (length cs.groups) cs.index (later allocs) h.index_valid))
        (λ _. unchanged none room (later allocs) (λ k e. cc))

  pub find_or_create_group-GroupPost :
      (allocs : Allocs) → GroupPost cs name (find_or_create_group cs name allocs)
  unfolding find_or_create_group
  find_or_create_group-GroupPost allocs = by_index (str_map_get cs.index name) refl
    where
      by_index :
          (o : Option ℕ)
          → str_map_get cs.index name ≡ o
          → GroupPost cs name (elim o as (λ _. Option ℕ × CandidateSet × Allocs) [
            | some k ↦ (some k, cs, allocs)
            | none ↦ create_group cs name (grow (length cs.groups) cs.cap 16 allocs)
          ])
      by_index (some k) e = unchanged (some k) cs.cap allocs (λ j q. e ∙ q)
      by_index none e = create_group-GroupPost (grow (length cs.groups) cs.cap 16 allocs) e
