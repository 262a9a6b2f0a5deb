-- ===== src/Chains/Valid.antt =====
-- The invariant of the buckets, and that filling and rehashing keep it.
use lib_apg.Base.{
  ℕ, zero, suc, ◌+◌, ◌<◌, ◌≡◌, refl, sym, ◌∙◌, ◌≢◌, inl, inr, List, [], ◌∷◌, none, get_or, set,
  length, arith, All, Bool-cases, length-set, get_or-set_self, get_or-set_ne, subst,
}
use native.Mathlib.Decide.{ℕ_discrete}
use lib_apg.Chains.{
  Hashed, same, same_comm, ChainEntry, bucket_of, chain, find_in, push_entry, rehash_chain,
  rehash_all,
}
use lib_apg.Chains.Rehash.{
  bucket_of-lt, found_in, length-push_entry, found_in-push_entry, Distinct, Placed,
  length-rehash_chain, found_in-rehash_chain, find_in_elsewhere,
}

module _ {K : Type 0} where
  -- The number of entries in all chains.
  abbrev pub total : List (List (ChainEntry K)) → ℕ
  total [] = 0
  total (c ∷ cs) = length c + total cs

module _ {K : Type 0} ⦃keys : Hashed K⦄ where
  -- Every entry stands in the bucket of its key, and no key stands twice.
  pub record IsPlaced (bs : List (List (ChainEntry K))) : Type 0 where
    pub placed : (i : ℕ) → All (λ e. bucket_of (length bs) e.key ≡ i) (get_or bs i [])
    pub distinct : (i : ℕ) → Distinct (get_or bs i [])

  -- Writing one chain that is placed and distinct keeps the invariant.
  pub set-IsPlaced :
      (bs : List (List (ChainEntry K))) (k : ℕ) (c : List (ChainEntry K))
      → IsPlaced bs
      → k < length bs
      → All (λ e. bucket_of (length bs) e.key ≡ k) c
      → Distinct c
      → IsPlaced (set bs k c)
  set-IsPlaced bs k c ok lt here single = record {
    placed = λ i.
        subst (λ n. All (λ e. bucket_of n e.key ≡ i) (get_or (set bs k c) i []))
          (sym (length-set bs k c))
          (elim (ℕ_discrete k i) [
            | yes e ↦ rw (← e, get_or-set_self bs k c [] lt) here
            | no ne ↦ rw (get_or-set_ne bs k i c [] ne) (ok.placed i)
          ]);
    distinct = λ i. elim (ℕ_discrete k i) [
      | yes e ↦ rw (← e, get_or-set_self bs k c [] lt) single
      | no ne ↦ rw (get_or-set_ne bs k i c [] ne) (ok.distinct i)
    ];
  }

  pub total-set :
      (bs : List (List (ChainEntry K))) (k : ℕ) (c : List (ChainEntry K))
      → k < length bs
      → total (set bs k c) + length (get_or bs k []) ≡ total bs + length c
  total-set [] k c lt = elim lt [ ]
  total-set (b ∷ bs) zero c lt = omega arith
  total-set (b ∷ bs) (suc k) c lt = omega (arith, total-set bs k c (omega arith))

  pub push_entry-IsPlaced :
      (e : ChainEntry K) (bs : List (List (ChainEntry K)))
      → 0 < length bs
      → IsPlaced bs
      → found_in bs e.key ≡ none
      → IsPlaced (push_entry e bs)
  unfolding push_entry found_in
  push_entry-IsPlaced e bs h ok new =
      let k = bucket_of (length bs) e.key in
      set-IsPlaced bs k (e ∷ chain bs e.key) ok (bucket_of-lt (length bs) e.key h)
        (refl, ok.placed k) (new, ok.distinct k)

  pub total-push_entry :
      (e : ChainEntry K) (bs : List (List (ChainEntry K)))
      → 0 < length bs
      → total (push_entry e bs) ≡ suc (total bs)
  unfolding push_entry
  total-push_entry e bs h = omega (
    arith,
    total-set bs (bucket_of (length bs) e.key) (e ∷ chain bs e.key)
        (bucket_of-lt (length bs) e.key h),
  )

  -- None of the entries has a key that the buckets hold.
  abbrev Fresh : List (List (ChainEntry K)) → List (ChainEntry K) → Type 0
  Fresh bs es = All (λ e. found_in bs e.key ≡ none) es

  Fresh-push_entry :
      (e : ChainEntry K) (bs : List (List (ChainEntry K))) (es : List (ChainEntry K))
      → 0 < length bs
      → find_in e.key es ≡ none
      → Fresh bs es
      → Fresh (push_entry e bs) es
  unfolding find_in
  Fresh-push_entry e bs [] h away fresh = tt
  Fresh-push_entry e bs (e' ∷ es) h away fresh = elim (Bool-cases (same e'.key e.key)) [
    | inl eq ↦ cc (rw (eq, find_in) at away)
    | inr ne ↦ (
      found_in-push_entry e bs e'.key h ∙ rw (same_comm e.key e'.key, ne) fresh.0,
      Fresh-push_entry e bs es h (rw (ne, find_in) at away) fresh.1,
    )
  ]

  rehash_chain-IsPlaced :
      (es : List (ChainEntry K)) (bs : List (List (ChainEntry K)))
      → 0 < length bs
      → IsPlaced bs
      → Distinct es
      → Fresh bs es
      → IsPlaced (rehash_chain es bs)
  unfolding rehash_chain
  rehash_chain-IsPlaced [] bs h ok d fresh = ok
  rehash_chain-IsPlaced (e ∷ es) bs h ok d fresh =
      rehash_chain-IsPlaced es (push_entry e bs) (rw (length-push_entry e bs) h)
        (push_entry-IsPlaced e bs h ok fresh.0) d.1 (Fresh-push_entry e bs es h d.0 fresh.1)

  total-rehash_chain :
      (es : List (ChainEntry K)) (bs : List (List (ChainEntry K)))
      → 0 < length bs
      → total (rehash_chain es bs) ≡ length es + total bs
  unfolding rehash_chain
  total-rehash_chain [] bs h = omega arith
  total-rehash_chain (e ∷ es) bs h = omega (
    arith,
    total-rehash_chain es (push_entry e bs) (rw (length-push_entry e bs) h),
    total-push_entry e bs h,
  )

  -- The chains of a list of buckets are fresh.
  abbrev AllFresh : List (List (ChainEntry K)) → List (List (ChainEntry K)) → Type 0
  AllFresh bs cs = All (Fresh bs) cs

  module _ (n : ℕ) where
    Fresh-rehash_chain :
        (i j : ℕ) (c : List (ChainEntry K)) (bs : List (List (ChainEntry K)))
        (es : List (ChainEntry K))
        → 0 < length bs
        → i ≢ j
        → Distinct c
        → All (λ e. bucket_of n e.key ≡ i) c
        → All (λ e. bucket_of n e.key ≡ j) es
        → Fresh bs es
        → Fresh (rehash_chain c bs) es
    Fresh-rehash_chain i j c bs [] h ne d here there fresh = tt
    Fresh-rehash_chain i j c bs (e ∷ es) h ne d here there fresh = (
      found_in-rehash_chain c bs e.key h d
          ∙ rw (find_in_elsewhere n i e.key c here (λ q. ne (sym q ∙ there.0))) fresh.0,
      Fresh-rehash_chain i j c bs es h ne d here there.1 fresh.1,
    )

    AllFresh-rehash_chain :
        (i j : ℕ) (c : List (ChainEntry K)) (bs : List (List (ChainEntry K)))
        (cs : List (List (ChainEntry K)))
        → 0 < length bs
        → i < j
        → Distinct c
        → All (λ e. bucket_of n e.key ≡ i) c
        → Placed n j cs
        → AllFresh bs cs
        → AllFresh (rehash_chain c bs) cs
    AllFresh-rehash_chain i j c bs [] h lt d here there fresh = tt
    AllFresh-rehash_chain i j c bs (es ∷ cs) h lt d here there fresh = (
      Fresh-rehash_chain i j c bs es h (omega arith) d here there.0 fresh.0,
      AllFresh-rehash_chain i (suc j) c bs cs h (omega arith) d here there.1 fresh.1,
    )

    pub rehash_all-IsPlaced :
        (i : ℕ) (cs bs : List (List (ChainEntry K)))
        → 0 < length bs
        → IsPlaced bs
        → Placed n i cs
        → All Distinct cs
        → AllFresh bs cs
        → IsPlaced (rehash_all cs bs)
          × (length (rehash_all cs bs) ≡ length bs)
          × (total (rehash_all cs bs) ≡ total cs + total bs)
    unfolding rehash_all
    rehash_all-IsPlaced i [] bs h ok placed d fresh = (ok, refl, omega arith)
    rehash_all-IsPlaced i (c ∷ cs) bs h ok placed d fresh =
        let len = length-rehash_chain c bs in
        let (ok', len', tot) =
          rehash_all-IsPlaced (suc i) cs (rehash_chain c bs) (rw len h)
            (rehash_chain-IsPlaced c bs h ok d.0 fresh.0) placed.1 d.1
            (AllFresh-rehash_chain i (suc i) c bs cs h (omega arith) d.0 placed.0 placed.1
              fresh.1) in
        (ok', len' ∙ len, omega (arith, tot, total-rehash_chain c bs h))
