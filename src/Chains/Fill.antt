-- ===== src/Chains/Fill.antt =====
-- Empty buckets, and filling them with the entries of others.
use lib_apg.Base.{
  ℕ, zero, suc, ◌+◌, ◌<◌, ◌≡◌, refl, ap, ◌∙◌, List, [], ◌∷◌, Option, none, some, get_or, length,
  arith, All, replicate, subst, length-replicate, get_or-replicate,
}
use lib_apg.Chains.{Hashed, ChainEntry, bucket_of, find_in, rehash_all}
use lib_apg.Chains.Rehash.{found_in, Distinct, Placed, or_else, found_in-rehash_all}
use lib_apg.Chains.Valid.{IsPlaced, total, rehash_all-IsPlaced}
use native.Mathlib.Nat.{add-zero}

pub or_else-none : (o : Option ℕ) → or_else o none ≡ o
or_else-none none = refl
or_else-none (some v) = refl

pub total-replicate : (K : Type 0) (n : ℕ) → total {K = K} (replicate n []) ≡ 0
total-replicate K zero = refl
total-replicate K (suc n) = omega (arith, total-replicate K n)

module _ {K : Type 0} ⦃keys : Hashed K⦄ where
  -- The chains of the buckets, from bucket i on.
  pub Placed-from :
      (n i : ℕ) (cs : List (List (ChainEntry K)))
      → ((j : ℕ) → All (λ e. bucket_of n e.key ≡ i + j) (get_or cs j []))
      → Placed n i cs
  Placed-from n i [] h = tt
  Placed-from n i (c ∷ cs) h = (
    subst (λ k. All (λ e. bucket_of n e.key ≡ k) c) (add-zero i) (h 0),
    Placed-from n (suc i) cs (λ j.
        subst (λ k. All (λ e. bucket_of n e.key ≡ k) (get_or cs j [])) (omega arith) (h (suc j))),
  )

  pub Distinct-All :
      (cs : List (List (ChainEntry K))) → ((j : ℕ) → Distinct (get_or cs j [])) → All Distinct cs
  Distinct-All [] h = tt
  Distinct-All (c ∷ cs) h = (h zero, Distinct-All cs (λ j. h (suc j)))

  pub replicate-IsPlaced : (n : ℕ) → IsPlaced {K = K} (replicate n [])
  replicate-IsPlaced n = record {
    placed = λ i. rw (get_or-replicate {A = List (ChainEntry K)} n i []) tt;
    distinct = λ i. rw (get_or-replicate {A = List (ChainEntry K)} n i []) tt;
  }

  pub found_in-replicate : (n : ℕ) (key : K) → found_in {K = K} (replicate n []) key ≡ none
  unfolding found_in find_in
  found_in-replicate n key = rw (
    length-replicate {A = List (ChainEntry K)} n [],
    get_or-replicate {A = List (ChainEntry K)} n (bucket_of n key) [],
  )

  pub AllFresh-replicate :
      (n : ℕ) (cs : List (List (ChainEntry K)))
      → All (λ c. All (λ e. found_in (replicate n []) e.key ≡ none) c) cs
  AllFresh-replicate n [] = tt
  AllFresh-replicate n (c ∷ cs) = (each c, AllFresh-replicate n cs)
    where
      each : (c : List (ChainEntry K)) → All (λ e. found_in (replicate n []) e.key ≡ none) c
      each [] = tt
      each (e ∷ c) = (found_in-replicate n e.key, each c)

  -- The buckets refilled into `count` new ones.
  module _ (bs : List (List (ChainEntry K))) (ok : IsPlaced bs) (h : 0 < length bs) (count : ℕ)
      (pos : 0 < count) where
    abbrev pub refilled : List (List (ChainEntry K))
    refilled = rehash_all bs (replicate count [])

    pub refilled-IsPlaced :
        IsPlaced refilled × (length refilled ≡ count) × (total refilled ≡ total bs)
    refilled-IsPlaced =
        let (placed, size, tot) =
          rehash_all-IsPlaced (length bs) 0 bs (replicate count [])
            (rw (length-replicate {A = List (ChainEntry K)} count []) pos)
            (replicate-IsPlaced count)
            (Placed-from (length bs) 0 bs (λ j.
              subst (λ k. All (λ e. bucket_of (length bs) e.key ≡ k) (get_or bs j [])) (omega arith)
                (ok.placed j)))
            (Distinct-All bs ok.distinct) (AllFresh-replicate count bs) in
        (
          placed,
          size ∙ length-replicate {A = List (ChainEntry K)} count [],
          omega (arith, tot, total-replicate K count),
        )

    pub found_in-refilled : (j : K) → found_in refilled j ≡ found_in bs j
    unfolding found_in
    found_in-refilled j =
        found_in-rehash_all (length bs) j 0 (bucket_of (length bs) j) bs (replicate count [])
          (rw (length-replicate {A = List (ChainEntry K)} count []) pos)
          (Placed-from (length bs) 0 bs (λ k.
            subst (λ q. All (λ e. bucket_of (length bs) e.key ≡ q) (get_or bs k [])) (omega arith)
              (ok.placed k)))
          (Distinct-All bs ok.distinct) (omega arith)
        ∙ ap (or_else (found_in bs j)) (found_in-replicate count j)
        ∙ or_else-none (found_in bs j)
