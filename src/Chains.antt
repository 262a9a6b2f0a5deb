-- ===== src/Chains.antt =====
-- Hash tables with chained buckets, of src/hashmap.c (keyed by strings) and of the variable index of
-- src/graph/sat_model.c (keyed by pointers).
pub mod Rehash
pub mod Valid
pub mod Fill
use lib_apg.Base.{
  ℕ, ◌%◌, ◌≡◌, Bool, true, false, List, [], ◌∷◌, Option, none, some, get_or, set, length,
  if◌then◌else◌, inl, inr, Bool-cases, sym, ◌∙◌, subst,
}

-- A type of keys: its hash function, and its test of equality.
pub record Hashed (K : Type 0) : Type 0 where
  pub hash : K → ℕ
  pub same_key : K → K → Bool
  pub same_key_sound : (a b : K) → same_key a b ≡ true → a ≡ b
  pub same_key_refl : (a : K) → same_key a a ≡ true

pub record ChainEntry (K : Type 0) : Type 0 where
  pub key : K
  pub value : ℕ

module _ {K : Type 0} ⦃keys : Hashed K⦄ where
  abbrev pub same : K → K → Bool
  same = keys.same_key

  pub same_sound : (a b : K) → same a b ≡ true → a ≡ b
  same_sound a b h = keys.same_key_sound a b h

  pub same_refl : (a : K) → same a a ≡ true
  same_refl a = keys.same_key_refl a

  pub same_comm : (a b : K) → same a b ≡ same b a
  same_comm a b = elim (Bool-cases (same a b)) [
    | inl e ↦ elim (Bool-cases (same b a)) [
      | inl f ↦ e ∙ sym f
      | inr f ↦
          absurd (differ (sym (subst (λ c. same b c ≡ false) (same_sound a b e) f) ∙ same_refl b))
    ]
    | inr e ↦ elim (Bool-cases (same b a)) [
      | inl f ↦
          absurd (differ (sym (subst (λ c. same a c ≡ false) (same_sound b a f) e) ∙ same_refl a))
      | inr f ↦ e ∙ sym f
    ]
  ]
    where
      differ : ¬ (◌≡◌ {A = Bool} false true)
      differ q = cc

  -- The hash of the key modulo the number of buckets.
  unfoldable pub bucket_of : ℕ → K → ℕ
  bucket_of count key = keys.hash key % count

  -- The bucket of a key.
  abbrev pub chain : List (List (ChainEntry K)) → K → List (ChainEntry K)
  chain bs key = get_or bs (bucket_of (length bs) key) []

  -- The loop of a lookup over a chain.
  unfoldable pub find_in : K → List (ChainEntry K) → Option ℕ
  find_in key [] = none
  find_in key (e ∷ es) = if same e.key key then some e.value else find_in key es

  -- Moves one entry to the front of its chain among the new buckets.
  unfoldable pub push_entry : ChainEntry K → List (List (ChainEntry K)) → List (List (ChainEntry K))
  push_entry e bs = set bs (bucket_of (length bs) e.key) (e ∷ chain bs e.key)

  unfoldable pub rehash_chain :
      List (ChainEntry K) → List (List (ChainEntry K)) → List (List (ChainEntry K))
  unfolding push_entry
  rehash_chain [] bs = bs
  rehash_chain (e ∷ es) bs = rehash_chain es (push_entry e bs)

  unfoldable pub rehash_all :
      List (List (ChainEntry K)) → List (List (ChainEntry K)) → List (List (ChainEntry K))
  unfolding rehash_chain
  rehash_all [] bs = bs
  rehash_all (c ∷ cs) bs = rehash_all cs (rehash_chain c bs)
