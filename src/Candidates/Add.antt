-- ===== src/Candidates/Add.antt =====
-- Adding to a candidate set of src/graph/candidates.c.
use lib_apg.Base.{
  ℕ, ◌≡◌, refl, ap, sym, ◌∙◌, ◌≢◌, inl, inr, Bool, true, false, [], ◌∷◌, ◌++◌, Option, none, some,
  get_elem?, set, length, Bool-cases, get_elem?-lt, get_elem?-set_self, get_elem?-set_ne,
  if◌then◌else◌, subst, Allocs, grow,
}
use mathlib.Core.Option.{some-injective}
use native.Mathlib.Decide.{ℕ_discrete}
use lib_apg.CString.{CStr, str_eq, str_eq_sound, str_eq_refl}
use lib_apg.Package.{Package}
use lib_apg.StrMap.{StrMap, str_map_init, str_map_get}
use lib_apg.StrMap.Insert.{IsValid as MapIsValid}
use lib_apg.StrMap.Laws.{str_map_init_lem}
use lib_apg.Candidates.{
  CandidateGroup, CandidateSet, candidate_set_init, find_or_create_group, push_item, add_to,
  candidate_set_add, candidate_set_lookup,
}
use lib_apg.Candidates.Group.{
  IsValid, items_in, items_of, items_of-found, items_of-absent, GroupPost,
  find_or_create_group-GroupPost,
}

-- What a call of `candidate_set_add` leaves.
record AddPost (cs : CandidateSet) (name : CStr) (pkg : Package) (r : Bool × CandidateSet × Allocs)
    : Type 0 where
  pub valid : IsValid r.1
  pub done :
      r.0 ≡ true
      → (j : CStr)
      → items_of r.1 j ≡ (if str_eq name j then items_of cs name ++ (pkg ∷ []) else items_of cs j)
  pub kept : r.0 ≡ false → (j : CStr) → items_of r.1 j ≡ items_of cs j

module _ (cs : CandidateSet) (name : CStr) (pkg : Package) where
  refused :
      (cs' : CandidateSet) (allocs : Allocs)
      → IsValid cs'
      → ((j : CStr) → items_of cs' j ≡ items_of cs j)
      → AddPost cs name pkg (false, cs', allocs)
  refused cs' allocs h same = record { valid = h; done = λ e. cc; kept = λ _. same }

  push_item-AddPost :
      (cs' : CandidateSet) (k : ℕ) (group : CandidateGroup) (r : Option ℕ × Allocs)
      → IsValid cs'
      → ((j : CStr) → items_of cs' j ≡ items_of cs j)
      → str_map_get cs'.index name ≡ some k
      → get_elem? cs'.groups k ≡ some group
      → AddPost cs name pkg (push_item cs' k pkg group r)
  unfolding push_item
  push_item-AddPost cs' k group (none, allocs) h same e at = refused cs' allocs h same
  push_item-AddPost cs' k group (some room, allocs) h same e at = record {
    valid = record { index_valid = h.index_valid; indexed = indexed' };
    done = λ _. added;
    kept = λ q. cc;
  }
    where
      longer : CandidateGroup
      longer = record group { items = group.items ++ (pkg ∷ []); cap = room }

      pushed : CandidateSet
      pushed = record cs' { groups = set cs'.groups k longer }

      others :
          (i : ℕ) (g : CandidateGroup)
          → k ≢ i
          → get_elem? cs'.groups i ≡ some g
          → get_elem? (set cs'.groups k longer) i ≡ some g
      others i g ne q = get_elem?-set_ne cs'.groups k i longer ne ∙ q

      own : get_elem? (set cs'.groups k longer) k ≡ some longer
      own = get_elem?-set_self cs'.groups k longer (get_elem?-lt cs'.groups k group at)

      indexed' :
          (j : CStr) (i : ℕ)
          → str_map_get cs'.index j ≡ some i
          → (g : CandidateGroup) × (get_elem? (set cs'.groups k longer) i ≡ some g) × (g.name ≡ j)
      indexed' j i q =
          let (g, there, n) = h.indexed j i q in
          elim (ℕ_discrete k i) [
            | yes eq ↦
                let is : group ≡ g =
                  some-injective _ _ (sym at ∙ ap (get_elem? cs'.groups) eq ∙ there) in
                (
                  longer,
                  ap (get_elem? (set cs'.groups k longer)) (sym eq) ∙ own,
                  ap (λ (t : CandidateGroup). t.name) is ∙ n,
                )
            | no ne ↦ (g, others i g ne there, n)
          ]

      was : items_of cs name ≡ group.items
      was = sym (same name) ∙ items_of-found cs' name k e ∙ ap items_in at

      group_name : group.name ≡ name
      group_name =
          let (g, there, n) = h.indexed name k e in
          ap (λ (t : CandidateGroup). t.name) (some-injective _ _ (sym at ∙ there)) ∙ n

      apart : (j : CStr) (i : ℕ) → str_eq name j ≡ false → str_map_get cs'.index j ≡ some i → k ≢ i
      apart j i f q eq =
          let (g, there, n) = h.indexed j i q in
          let is : group ≡ g = some-injective _ _ (sym at ∙ ap (get_elem? cs'.groups) eq ∙ there) in
          let same_name : name ≡ j = sym group_name ∙ ap (λ (t : CandidateGroup). t.name) is ∙ n in
          let yes_eq : str_eq name j ≡ true =
            subst (λ t. str_eq name t ≡ true) same_name (str_eq_refl name) in
          cc

      untouched : (j : CStr) → str_eq name j ≡ false → items_of pushed j ≡ items_of cs' j
      untouched j f = by_index (str_map_get cs'.index j) refl
        where
          by_index :
              (o : Option ℕ) → str_map_get cs'.index j ≡ o → items_of pushed j ≡ items_of cs' j
          by_index none q = items_of-absent pushed j q ∙ sym (items_of-absent cs' j q)
          by_index (some i) q =
              let (g, there, n) = h.indexed j i q in
              items_of-found pushed j i q
              ∙ ap items_in (others i g (apart j i f q) there ∙ sym there)
              ∙ sym (items_of-found cs' j i q)

      added :
          (j : CStr)
          → items_of pushed j
            ≡ (if str_eq name j then items_of cs name ++ (pkg ∷ []) else items_of cs j)
      added j = elim (Bool-cases (str_eq name j)) [
        | inl q ↦
            let n = str_eq_sound name j q in
            rw q (
              ap (items_of pushed) (sym n)
              ∙ items_of-found pushed name k e
              ∙ ap items_in own
              ∙ ap (λ t. t ++ (pkg ∷ [])) (sym was))
        | inr q ↦ rw q (untouched j q ∙ same j)
      ]

  add_to-AddPost :
      (r : Option ℕ × CandidateSet × Allocs)
      → GroupPost cs name r
      → AddPost cs name pkg (add_to pkg r)
  unfolding add_to
  add_to-AddPost (none, cs', allocs) p = refused cs' allocs p.valid p.same_items
  add_to-AddPost (some k, cs', allocs) p = by_group (get_elem? cs'.groups k) refl
    where
      by_group :
          (o : Option CandidateGroup)
          → get_elem? cs'.groups k ≡ o
          → AddPost cs name pkg (elim o as (λ _. Bool × CandidateSet × Allocs) [
            | none ↦ (false, cs', allocs)
            | some group ↦ push_item cs' k pkg group (grow (length group.items) group.cap 4 allocs)
          ])
      by_group none e = refused cs' allocs p.valid p.same_items
      by_group (some group) e =
          push_item-AddPost cs' k group (grow (length group.items) group.cap 4 allocs) p.valid
            p.same_items (p.found k refl) e

  candidate_set_add-AddPost :
      (allocs : Allocs) → IsValid cs → AddPost cs name pkg (candidate_set_add cs name pkg allocs)
  unfolding candidate_set_add
  candidate_set_add-AddPost allocs h =
      add_to-AddPost (find_or_create_group cs name allocs)
        (find_or_create_group-GroupPost cs name h allocs)

  -- Adding a candidate keeps a valid set valid, whether it succeeds or not.
  pub candidate_set_add-IsValid :
      (allocs : Allocs) → IsValid cs → IsValid (candidate_set_add cs name pkg allocs).1
  candidate_set_add-IsValid allocs h = (candidate_set_add-AddPost allocs h).valid

  -- A candidate that is added to a valid set comes last among those for its name; those for every other name
  -- stay.
  pub items_of-candidate_set_add :
      (allocs : Allocs)
      → IsValid cs
      → (candidate_set_add cs name pkg allocs).0 ≡ true
      → (j : CStr)
      → items_of (candidate_set_add cs name pkg allocs).1 j
        ≡ (if str_eq name j then items_of cs name ++ (pkg ∷ []) else items_of cs j)
  items_of-candidate_set_add allocs h e = (candidate_set_add-AddPost allocs h).done e

  -- A candidate that could not be added to a valid set, whichever allocation failed, leaves the candidates for
  -- every name.
  pub items_of-candidate_set_add_failed :
      (allocs : Allocs)
      → IsValid cs
      → (candidate_set_add cs name pkg allocs).0 ≡ false
      → (j : CStr) → items_of (candidate_set_add cs name pkg allocs).1 j ≡ items_of cs j
  items_of-candidate_set_add_failed allocs h e = (candidate_set_add-AddPost allocs h).kept e

-- A new candidate set is valid and has no candidates.
pub candidate_set_init_lem :
    (allocs : Allocs) (cs : CandidateSet)
    → (candidate_set_init allocs).0 ≡ some cs
    → IsValid cs × ((name : CStr) → items_of cs name ≡ [])
unfolding candidate_set_init candidate_set_lookup
candidate_set_init_lem allocs cs e =
    by_map (str_map_init allocs).0 (str_map_init allocs).1 (λ m q. str_map_init_lem allocs m q) e
  where
    differ : (k : ℕ) → ¬ (◌≡◌ {A = Option ℕ} none (some k))
    differ k q = cc

    by_map :
        (o : Option StrMap) (rest : Allocs)
        → ((m : StrMap) → o ≡ some m → MapIsValid m × ((key : CStr) → str_map_get m key ≡ none))
        → (elim o as (λ _. Option CandidateSet × Allocs) [
          | none ↦ (none, rest)
          | some index ↦ (some (record { groups = []; cap = 0; index = index }), rest)
        ]).0
          ≡ some cs
        → IsValid cs × ((name : CStr) → items_of cs name ≡ [])
    by_map none rest f q = cc
    by_map (some index) rest f q =
        let (v, empty) = f index refl in
        let made : CandidateSet = record { groups = []; cap = 0; index = index } in
        subst (λ (t : CandidateSet). IsValid t × ((name : CStr) → items_of t name ≡ []))
          (some-injective _ _ q)
          (
            record {
              index_valid = v;
              indexed = λ name k p. absurd (differ k (sym (empty name) ∙ p));
            },
            λ name. items_of-absent made name (empty name),
          )
