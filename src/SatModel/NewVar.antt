-- ===== src/SatModel/NewVar.antt =====
-- `sat_model_var` of src/graph/sat_model.c: it finds the variable of a package or makes one.
use lib_apg.Base.{
  ℕ, suc, ◌-◌, ◌<◌, ◌≡◌, refl, sym, ap, ◌∙◌, ◌≢◌, inl, inr, ◌⊎◌, true, false, List, [], ◌∷◌, ◌++◌,
  Option, none, some, length, replicate, length-replicate, get_elem?, arith, subst, Allocs, granted,
  later, grow, if_rule, if◌then◌else◌, ◌==◌, ==_iff, Bool-cases, length-append,
  get_elem?-append_left, get_elem?-append_cases, get_elem?-append_last,
}
use lib_apg.Package.{Package}
use lib_apg.Chains.{push_entry, rehash_all}
use lib_apg.Chains.Rehash.{found_in-push_entry}
use lib_apg.Chains.Valid.{IsPlaced, push_entry-IsPlaced}
use lib_apg.Chains.Fill.{
  refilled, replicate-IsPlaced, found_in-replicate, refilled-IsPlaced, found_in-refilled,
}
use lib_apg.SatModel.{
  VarEntry, ptr_hashed, SatModel, var_index_rehash, find_var, push_var, index_var, is_crowded,
  new_bucket_count, new_var, sat_model_var,
}
use lib_apg.SatModel.Vars.{
  All-ClauseGood_mono, find_var-found_in, VarOf, IsValid, Grown, Grown-refl,
}

-- A failing allocation is the only way to fail, and without one all calls succeed.
pub granted-nil : (allocs : Allocs) → granted allocs ≡ false → allocs ≢ []
granted-nil [] e = cc
granted-nil (b ∷ allocs) e = λ q. cc

pub later-nil : (allocs : Allocs) → allocs ≡ [] → later allocs ≡ []
later-nil [] e = refl
later-nil (b ∷ allocs) e = cc

pub grow-full :
    (count cap : ℕ) (allocs : Allocs) → (grow count cap 16 allocs).0 ≡ none → allocs ≢ []
unfolding grow
grow-full count cap [] e =
    absurd
      (if_rule (λ (r : Option ℕ × Allocs). ¬ (r.0 ≡ none)) (count == cap) (λ _ q. cc) (λ _ q. cc) e)
grow-full count cap (b ∷ allocs) e = λ q. cc

pub grow-nil : (count cap : ℕ) (allocs : Allocs) → allocs ≡ [] → (grow count cap 16 allocs).1 ≡ []
unfolding grow
grow-nil count cap [] e =
    if_rule (λ (r : Option ℕ × Allocs). r.1 ≡ []) (count == cap) (λ _. refl) (λ _. refl)
grow-nil count cap (b ∷ allocs) e = cc

none-some : {n : ℕ} → ¬ (◌≡◌ {A = Option ℕ} none (some n))
none-some q = cc

some-inj : (a b : ℕ) → ◌≡◌ {A = Option ℕ} (some a) (some b) → a ≡ b
some-inj a b q = cc

is_crowded-pos : (m : SatModel) → is_crowded m ≡ false → 0 < length m.var_buckets
is_crowded-pos m f = ground arith

new_bucket_count-pos : (m : SatModel) → 0 < new_bucket_count m
new_bucket_count-pos m = ground arith

module _ (P : Package → Type 0) where
  -- What a call that asks for the variable of the package at address a leaves behind.
  abbrev pub VarPost : Allocs → SatModel → ℕ → Option ℕ × SatModel × Allocs → Type 0
  VarPost allocs m a (none, m', rest) = allocs ≢ []
  VarPost allocs m a (some v, m', rest) =
      Grown P m m' × (m'.clauses ≡ m.clauses) × VarOf m' a v × (allocs ≡ [] → rest ≡ [])

  module _ (m : SatModel) (ok : IsValid P m) (pkg : Package) (from : P pkg)
      (new : find_var m.var_buckets pkg.addr ≡ none) where
    abbrev entry : VarEntry
    entry = record { key = pkg.addr; value = suc (length m.vars) }

    -- The model with the variable, whatever its buckets are.
    module _ (bs : List (List VarEntry)) (cap : ℕ) (h : 0 < length bs) (placed : IsPlaced bs)
        (same : (a : ℕ) → find_var bs a ≡ find_var m.var_buckets a) where
      abbrev made : SatModel
      made = record m {
        vars = m.vars ++ (pkg ∷ []);
        var_cap = cap;
        var_buckets = push_entry entry bs;
      }

      find_var-made :
          (a : ℕ)
          → find_var (push_entry entry bs) a
            ≡ (if pkg.addr == a then some (suc (length m.vars)) else find_var m.var_buckets a)
      find_var-made a =
          find_var-found_in (push_entry entry bs) a
          ∙ found_in-push_entry entry bs a h
          ∙ ap (λ o. if pkg.addr == a then some (suc (length m.vars)) else o)
              (sym (find_var-found_in bs a) ∙ same a)

      made-indexed :
          (i : ℕ) (p : Package)
          → (get_elem? m.vars i ≡ some p) ⊎ (i ≡ length m.vars) × (p ≡ pkg)
          → VarOf made p.addr (suc i)
      made-indexed i p (inl old) = find_var-made p.addr ∙ elim (Bool-cases (pkg.addr == p.addr)) [
        | inl same_addr ↦
            let clash : find_var m.var_buckets pkg.addr ≡ some (suc i) =
              subst (λ a. VarOf m a (suc i)) (sym ((==_iff pkg.addr p.addr).0 same_addr))
                (ok.indexed i p old) in
            absurd (none-some (sym new ∙ clash))
        | inr other ↦ rw other (ok.indexed i p old)
      ]
      made-indexed i p (inr (here, s)) =
          find_var-made p.addr ∙ rw (s, (==_iff pkg.addr pkg.addr).1 refl, here) refl

      made-found :
          (a v : ℕ)
          → ((pkg.addr == a) ≡ true) ⊎ ((pkg.addr == a) ≡ false)
          → (if pkg.addr == a then some (suc (length m.vars)) else find_var m.var_buckets a)
            ≡ some v
          → (0 < v) × (p : Package) × (get_elem? made.vars (v - 1) ≡ some p) × (p.addr ≡ a)
      made-found a v (inl e) q =
          let last : suc (length m.vars) ≡ v = some-inj _ _ (rw e at q) in
          let before : length m.vars ≡ v - 1 = omega (arith, last) in
          (
            omega (arith, last),
            pkg,
            subst (λ k. get_elem? (m.vars ++ (pkg ∷ [])) k ≡ some pkg) before
                (get_elem?-append_last m.vars pkg),
            (==_iff pkg.addr a).0 e,
          )
      made-found a v (inr e) q =
          let (pos, p, at, s) = ok.found a v (rw e at q) in
          (pos, p, get_elem?-append_left m.vars (pkg ∷ []) (v - 1) p at, s)

      made-Grown : Grown P m made
      made-Grown = record {
        valid = record {
          buckets_placed =
              push_entry-IsPlaced entry bs h placed
                (sym (find_var-found_in bs pkg.addr) ∙ same pkg.addr ∙ new);
          indexed = λ i p at. made-indexed i p (get_elem?-append_cases m.vars pkg i p at);
          found = λ a v q. made-found a v (Bool-cases (pkg.addr == a)) (sym (find_var-made a) ∙ q);
          origin = λ i p at. elim (get_elem?-append_cases m.vars pkg i p at) [
            | inl old ↦ ok.origin i p old
            | inr (_, s) ↦ subst P (sym s) from
          ];
          clauses_good =
              All-ClauseGood_mono (suc (length m.vars)) (suc (length (m.vars ++ (pkg ∷ []))))
                m.clauses (omega (arith, length-append m.vars (pkg ∷ []))) ok.clauses_good;
        };
        larger = omega (arith, length-append m.vars (pkg ∷ []));
        keeps = λ i p at. get_elem?-append_left m.vars (pkg ∷ []) i p at;
      }

    push_var-VarPost :
        (bs : List (List VarEntry)) (cap : ℕ) (allocs0 allocs : Allocs)
        → (allocs0 ≡ [] → allocs ≡ [])
        → 0 < length bs
        → IsPlaced bs
        → ((a : ℕ) → find_var bs a ≡ find_var m.var_buckets a)
        → VarPost allocs0 m pkg.addr
            (push_var pkg (record m { var_cap = cap; var_buckets = bs }) allocs)
    unfolding push_var
    push_var-VarPost bs cap allocs0 allocs nil h placed same =
        if_rule (VarPost allocs0 m pkg.addr) (granted allocs)
          (λ _. (
            made-Grown bs cap h placed same,
            refl,
            find_var-made bs cap h placed same pkg.addr
                ∙ rw ((==_iff pkg.addr pkg.addr).1 refl) refl,
            λ q. later-nil allocs (nil q),
          ))
          (λ f q. granted-nil allocs f (nil q))

    nowhere : (a : ℕ) → none ≡ find_var [] a
    unfolding find_var
    nowhere a = refl

    refilled-same :
        (count : ℕ)
        → 0 < count
        → (bs : List (List VarEntry)) → IsPlaced bs
        → (0 < length (rehash_all bs (replicate count [])))
          × IsPlaced (rehash_all bs (replicate count []))
          × ((a : ℕ) → find_var (rehash_all bs (replicate count [])) a ≡ find_var bs a)
    unfolding rehash_all
    refilled-same count pos [] placed = (
      rw (length-replicate {A = List VarEntry} count []) pos,
      replicate-IsPlaced count,
      λ a. find_var-found_in (replicate count []) a ∙ found_in-replicate count a ∙ nowhere a,
    )
    refilled-same count pos (b ∷ bs) placed =
        let (placed', size, _) = refilled-IsPlaced (b ∷ bs) placed (omega arith) count pos in
        (
          rw size pos,
          placed',
          λ a.
              find_var-found_in (refilled (b ∷ bs) placed (omega arith) count pos) a
              ∙ found_in-refilled (b ∷ bs) placed (omega arith) count pos a
              ∙ sym (find_var-found_in (b ∷ bs) a),
        )

    new_var-VarPost :
        (allocs0 : Allocs) (r : Option ℕ × Allocs)
        → (r.0 ≡ none → allocs0 ≢ [])
        → (allocs0 ≡ [] → r.1 ≡ [])
        → VarPost allocs0 m pkg.addr (new_var pkg m r)
    unfolding new_var var_index_rehash index_var
    new_var-VarPost allocs0 (none, allocs) full nil = full refl
    new_var-VarPost allocs0 (some room, allocs) full nil =
        if_rule (VarPost allocs0 m pkg.addr) (is_crowded m)
          (λ _.
            if_rule (λ r. VarPost allocs0 m pkg.addr (index_var pkg r)) (granted allocs)
              (λ _.
                let (h, placed, same) =
                  refilled-same (new_bucket_count m) (new_bucket_count-pos m) m.var_buckets
                    ok.buckets_placed in
                push_var-VarPost (rehash_all m.var_buckets (replicate (new_bucket_count m) [])) room
                  allocs0 (later allocs) (λ q. later-nil allocs (nil q)) h placed same)
              (λ f q. granted-nil allocs f (nil q)))
          (λ f.
            push_var-VarPost m.var_buckets room allocs0 allocs nil (is_crowded-pos m f)
              ok.buckets_placed (λ a. refl))

  -- Asking a valid model for the variable of a package fails only if an allocation does. Otherwise the model stays
  -- valid, keeps its variables and clauses, and the variable that it returns is the one that the index has
  -- for the address of the package.
  pub sat_model_var-VarPost :
      (m : SatModel) (pkg : Package) (allocs : Allocs)
      → IsValid P m
      → P pkg
      → VarPost allocs m pkg.addr (sat_model_var m pkg allocs)
  unfolding sat_model_var
  sat_model_var-VarPost m pkg allocs ok from = by_index (find_var m.var_buckets pkg.addr) refl
    where
      by_index :
          (o : Option ℕ)
          → find_var m.var_buckets pkg.addr ≡ o
          → VarPost allocs m pkg.addr (elim o as (λ _. Option ℕ × SatModel × Allocs) [
            | some v ↦ (some v, m, allocs)
            | none ↦ new_var pkg m (grow (length m.vars) m.var_cap 16 allocs)
          ])
      by_index (some v) q = (Grown-refl P m ok, refl, q, λ nil. nil)
      by_index none q =
          new_var-VarPost m ok pkg from q allocs (grow (length m.vars) m.var_cap 16 allocs)
            (grow-full (length m.vars) m.var_cap allocs) (grow-nil (length m.vars) m.var_cap allocs)
