-- ===== src/Chains/Rehash.antt =====
-- Rehashing keeps what the buckets hold.
use lib_apg.Base.{
  ℕ, zero, suc, ◌+◌, ◌<◌, ◌≡◌, refl, ap, sym, ◌∙◌, ◌≢◌, inl, inr, true, List, [], ◌∷◌, Option, none,
  some, get_or, length, arith, All, Bool-cases, if◌then◌else◌, length-set, get_or-set_self,
  get_or-set_ne, subst,
}
use native.Mathlib.Decide.{ℕ_discrete}
use lib_apg.Chains.{
  Hashed, same, same_sound, ChainEntry, bucket_of, chain, find_in, push_entry, rehash_chain,
  rehash_all,
}

abbrev pub or_else : Option ℕ → Option ℕ → Option ℕ
or_else none o = o
or_else (some v) o = some v

module _ {K : Type 0} ⦃keys : Hashed K⦄ where
  pub bucket_of-lt : (n : ℕ) (key : K) → 0 < n → bucket_of n key < n
  unfolding bucket_of
  bucket_of-lt n key h = grind arith

  -- What the buckets hold under a key.
  unfoldable pub found_in : List (List (ChainEntry K)) → K → Option ℕ
  found_in bs key = find_in key (chain bs key)

  pub length-push_entry :
      (e : ChainEntry K) (bs : List (List (ChainEntry K))) → length (push_entry e bs) ≡ length bs
  unfolding push_entry
  length-push_entry e bs = length-set bs (bucket_of (length bs) e.key) (e ∷ chain bs e.key)

  chain-push_entry_eq :
      (e : ChainEntry K) (bs : List (List (ChainEntry K))) (key : K)
      → 0 < length bs
      → bucket_of (length bs) e.key ≡ bucket_of (length bs) key
      → chain (push_entry e bs) key ≡ e ∷ chain bs key
  unfolding push_entry
  chain-push_entry_eq e bs key h same =
      rw (length-set bs (bucket_of (length bs) e.key) (e ∷ chain bs e.key), same)
        (get_or-set_self bs (bucket_of (length bs) key) (e ∷ chain bs key) []
          (bucket_of-lt _ key h))

  chain-push_entry_ne :
      (e : ChainEntry K) (bs : List (List (ChainEntry K))) (key : K)
      → bucket_of (length bs) e.key ≢ bucket_of (length bs) key
      → chain (push_entry e bs) key ≡ chain bs key
  unfolding push_entry
  chain-push_entry_ne e bs key other =
      rw (length-set bs (bucket_of (length bs) e.key) (e ∷ chain bs e.key)) (
        get_or-set_ne bs (bucket_of (length bs) e.key) (bucket_of (length bs) key)
          (e ∷ chain bs e.key) [] other)

  pub found_in-push_entry :
      (e : ChainEntry K) (bs : List (List (ChainEntry K))) (key : K)
      → 0 < length bs
      → found_in (push_entry e bs) key ≡ (if same e.key key then some e.value else found_in bs key)
  unfolding found_in find_in
  found_in-push_entry e bs key h =
      elim (ℕ_discrete (bucket_of (length bs) e.key) (bucket_of (length bs) key)) [
        | yes same ↦ rw (chain-push_entry_eq e bs key h same) refl
        | no other ↦ elim (Bool-cases (same e.key key)) [
          | inl eq ↦ absurd (other (ap (bucket_of (length bs)) (same_sound e.key key eq)))
          | inr ne ↦ rw (ne, chain-push_entry_ne e bs key other) refl
        ]
      ]

  -- No key twice in a chain.
  abbrev pub Distinct : List (ChainEntry K) → Type 0
  Distinct [] = Unit
  Distinct (e ∷ es) = (find_in e.key es ≡ none) × Distinct es

  -- A key that a chain holds at its head and nowhere else.
  find_in_eq :
      (key : K) (e : ChainEntry K) (es : List (ChainEntry K))
      → same e.key key ≡ true
      → find_in e.key es ≡ none
      → find_in key es ≡ none
  find_in_eq key e es eq h = subst (λ k. find_in k es ≡ none) (same_sound e.key key eq) h

  pub length-rehash_chain :
      (es : List (ChainEntry K)) (bs : List (List (ChainEntry K)))
      → length (rehash_chain es bs) ≡ length bs
  unfolding rehash_chain
  length-rehash_chain [] bs = refl
  length-rehash_chain (e ∷ es) bs =
      length-rehash_chain es (push_entry e bs) ∙ length-push_entry e bs

  pub found_in-rehash_chain :
      (es : List (ChainEntry K)) (bs : List (List (ChainEntry K))) (key : K)
      → 0 < length bs
      → Distinct es
      → found_in (rehash_chain es bs) key ≡ or_else (find_in key es) (found_in bs key)
  unfolding rehash_chain find_in
  found_in-rehash_chain [] bs key h d = refl
  found_in-rehash_chain (e ∷ es) bs key h d =
      let ih = found_in-rehash_chain es (push_entry e bs) key (rw (length-push_entry e bs) h) d.1 in
      let pushed = found_in-push_entry e bs key h in
      elim (Bool-cases (same e.key key)) [
        | inl eq ↦ ih ∙ rw (pushed, eq, find_in_eq key e es eq d.0) refl
        | inr ne ↦ ih ∙ rw (pushed, ne) refl
      ]

  -- From bucket i on, every entry stands in the bucket of its key.
  abbrev pub Placed : ℕ → ℕ → List (List (ChainEntry K)) → Type 0
  Placed n i [] = Unit
  Placed n i (c ∷ cs) = All (λ e. bucket_of n e.key ≡ i) c × Placed n (suc i) cs

  pub find_in_elsewhere :
      (n i : ℕ) (key : K) (c : List (ChainEntry K))
      → All (λ e. bucket_of n e.key ≡ i) c
      → bucket_of n key ≢ i
      → find_in key c ≡ none
  unfolding find_in
  find_in_elsewhere n i key [] all ne = refl
  find_in_elsewhere n i key (e ∷ c) all ne = elim (Bool-cases (same e.key key)) [
    | inl eq ↦ absurd (ne (ap (bucket_of n) (sym (same_sound e.key key eq)) ∙ all.0))
    | inr no_match ↦ rw no_match (find_in_elsewhere n i key c all.1 ne)
  ]

  module _ (n : ℕ) (key : K) where
    -- The buckets above that of the key do not matter.
    found_in-rehash_all_above :
        (i : ℕ) (cs bs : List (List (ChainEntry K)))
        → 0 < length bs
        → Placed n i cs
        → All Distinct cs
        → bucket_of n key < i
        → found_in (rehash_all cs bs) key ≡ found_in bs key
    unfolding rehash_all
    found_in-rehash_all_above i [] bs h placed d lt = refl
    found_in-rehash_all_above i (c ∷ cs) bs h placed d lt =
        found_in-rehash_all_above (suc i) cs (rehash_chain c bs) (rw (length-rehash_chain c bs) h)
          placed.1 d.1 (omega arith)
        ∙ found_in-rehash_chain c bs key h d.0
        ∙ rw (find_in_elsewhere n i key c placed.0 (omega arith)) refl

    pub found_in-rehash_all :
        (i j : ℕ) (cs bs : List (List (ChainEntry K)))
        → 0 < length bs
        → Placed n i cs
        → All Distinct cs
        → bucket_of n key ≡ i + j
        → found_in (rehash_all cs bs) key ≡ or_else (find_in key (get_or cs j [])) (found_in bs key)
    unfolding rehash_all find_in
    found_in-rehash_all i j [] bs h placed d e = refl
    found_in-rehash_all i zero (c ∷ cs) bs h placed d e =
        found_in-rehash_all_above (suc i) cs (rehash_chain c bs) (rw (length-rehash_chain c bs) h)
          placed.1 d.1 (omega arith)
        ∙ found_in-rehash_chain c bs key h d.0
    found_in-rehash_all i (suc j) (c ∷ cs) bs h placed d e =
        found_in-rehash_all (suc i) j cs (rehash_chain c bs) (rw (length-rehash_chain c bs) h)
          placed.1 d.1 (omega arith)
        ∙ ap (or_else (find_in key (get_or cs j []))) (
            found_in-rehash_chain c bs key h d.0
            ∙ rw (find_in_elsewhere n i key c placed.0 (omega arith)) refl)
