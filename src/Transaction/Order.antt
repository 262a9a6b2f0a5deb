-- ===== src/Transaction/Order.antt =====
-- The order of the removals: `push_removals_in_order` of src/transaction/prepare.c.
use lib_apg.Base.{
  ℕ, zero, suc, ◌+◌, ◌<◌, ◌≡◌, refl, sym, ap, ◌∙◌, ◌≢◌, ◌⊎◌, inl, inr, Bool, true, false, not, ◌&&◌,
  ◌||◌, List, [], ◌∷◌, Option, none, some, length, get_or, set, replicate, arith, subst, ◌==◌,
  if◌then◌else◌,
}
use native.Mathlib.Decide.{ℕ_discrete}
use lib_apg.Transaction.{PackageFile}
use lib_apg.Transaction.Removals.{depends_on, needed_from, is_needed, first_of, pick_from}
use lib_apg.Transaction.Needs.{Depends, depends_on_iff}

-- How many packages are not done.
abbrev pub undone : List Bool → ℕ
undone [] = 0
undone (true ∷ done) = undone done
undone (false ∷ done) = suc (undone done)

pub undone-set :
    (done : List Bool) (k : ℕ)
    → get_or done k true ≡ false
    → suc (undone (set done k true)) ≡ undone done
undone-set [] k e = cc
undone-set (true ∷ done) zero e = cc
undone-set (false ∷ done) zero e = refl
undone-set (true ∷ done) (suc k) e = undone-set done k e
undone-set (false ∷ done) (suc k) e = ap suc (undone-set done k e)

pub undone-zero : (done : List Bool) (k : ℕ) → undone done ≡ 0 → get_or done k true ≡ true
undone-zero [] k e = refl
undone-zero (true ∷ done) zero e = refl
undone-zero (true ∷ done) (suc k) e = undone-zero done k e
undone-zero (false ∷ done) k e = absurd (omega (arith, e))

undone-some :
    (done : List Bool)
    → 0 < undone done
    → (k : ℕ) × (get_or done k true ≡ false) × (k < length done)
undone-some [] h = absurd (omega arith)
undone-some (false ∷ done) h = (zero, refl, omega arith)
undone-some (true ∷ done) h = let (k, e, lt) = undone-some done h in (suc k, e, omega (arith, lt))

pub undone-replicate : (n : ℕ) → undone (replicate n false) ≡ n
undone-replicate zero = refl
undone-replicate (suc n) = ap suc (undone-replicate n)

unequal : (a b : ℕ) → (a == b) ≡ false → a ≢ b
unequal a b e = ground arith

different : (a b : ℕ) → a ≢ b → (a == b) ≡ false
different a b e = ground arith

or-false_right : (a b : Bool) → (a || b) ≡ false → b ≡ false
or-false_right true b e = cc
or-false_right false b e = e

pub get_or-lt : (done : List Bool) (k : ℕ) → get_or done k true ≡ false → k < length done
get_or-lt [] k e = cc
get_or-lt (b ∷ done) zero e = omega arith
get_or-lt (b ∷ done) (suc k) e = omega (arith, get_or-lt done k e)

differ : ¬ (false ≡ true)
differ q = cc

-- All numbers up to i, and i.
up_to : (i : ℕ) (P : ℕ → Type 0) → ((x : ℕ) → x < i → P x) → P i → (x : ℕ) → x < suc i → P x
up_to i P before here x lt = elim (ℕ_discrete x i) [
  | yes e ↦ subst P (sym e) here
  | no ne ↦ before x (omega (arith, lt, ne))
]

module _ (pkgs : List (Option PackageFile)) where
  -- Another package that is not done depends on package i.
  abbrev pub IsNeeded : List Bool → ℕ → Type 0
  IsNeeded done i =
      (j : ℕ) × (j ≢ i)
      × (get_or done j true ≡ false)
      × Depends (get_or pkgs j none) (get_or pkgs i none)

  -- The packages that are not done, in an order in which each comes before those that it depends on, as
  -- long as that is possible: a package that is still needed comes only where all that are left are.
  abbrev pub IsRemovalOrder : List Bool → List ℕ → Type 0
  IsRemovalOrder done [] = (i : ℕ) → get_or done i true ≡ true
  IsRemovalOrder done (k ∷ ks) =
      (get_or done k true ≡ false)
      × ((¬ IsNeeded done k) ⊎ ((i : ℕ) → get_or done i true ≡ false → IsNeeded done i))
      × IsRemovalOrder (set done k true) ks

  needed_from-true :
      (n j : ℕ) (done : List Bool) (i : ℕ) → needed_from pkgs n j done i ≡ true → IsNeeded done i
  unfolding needed_from
  needed_from-true zero j done i e = cc
  needed_from-true (suc n) j done i e =
      by_parts (j == i) refl (get_or done j true) refl
        (depends_on (get_or pkgs j none) (get_or pkgs i none)) refl
        (λ h. needed_from-true n (suc j) done i h) e
    where
      by_parts :
          (a : Bool)
          → (j == i) ≡ a
          → (b : Bool) → get_or done j true ≡ b
          → (c : Bool) → depends_on (get_or pkgs j none) (get_or pkgs i none) ≡ c
          → (needed_from pkgs n (suc j) done i ≡ true → IsNeeded done i)
          → (((not a && not b) && c) || needed_from pkgs n (suc j) done i) ≡ true
          → IsNeeded done i
      by_parts true p b q c r rec h = rec h
      by_parts false p true q c r rec h = rec h
      by_parts false p false q false r rec h = rec h
      by_parts false p false q true r rec h =
          (j, unequal j i p, q, (depends_on_iff (get_or pkgs j none) (get_or pkgs i none)).0 r)

  needed_from-false :
      (n j : ℕ) (done : List Bool) (i : ℕ)
      → needed_from pkgs n j done i ≡ false
      → (k : ℕ) → k < n
      → j + k ≢ i
      → get_or done (j + k) true ≡ false
      → depends_on (get_or pkgs (j + k) none) (get_or pkgs i none) ≡ false
  unfolding needed_from
  needed_from-false zero j done i e k lt = absurd (omega (arith, lt))
  needed_from-false (suc n) j done i e k lt =
      by_index k lt (λ h k' lt'. needed_from-false n (suc j) done i h k' lt')
    where
      here :
          (a b c d : Bool)
          → (((not a && not b) && c) || d) ≡ false
          → a ≡ false
          → b ≡ false
          → c ≡ false
      here false false false d h p q = refl
      here false false true d h p q = cc
      here true b c d h p q = cc
      here false true c d h p q = cc

      by_index :
          (k : ℕ)
          → k < suc n
          → (needed_from pkgs n (suc j) done i ≡ false
              → (k' : ℕ) → k' < n
              → suc j + k' ≢ i
              → get_or done (suc j + k') true ≡ false
              → depends_on (get_or pkgs (suc j + k') none) (get_or pkgs i none) ≡ false)
          → j + k ≢ i
          → get_or done (j + k) true ≡ false
          → depends_on (get_or pkgs (j + k) none) (get_or pkgs i none) ≡ false
      by_index zero lt' rec ne open_ =
          let at : j ≡ j + 0 = omega arith in
          subst (λ x. depends_on (get_or pkgs x none) (get_or pkgs i none) ≡ false) at
            (here (j == i) (get_or done j true)
              (depends_on (get_or pkgs j none) (get_or pkgs i none))
              (needed_from pkgs n (suc j) done i) e (different j i (subst (λ x. x ≢ i) (sym at) ne))
              (subst (λ x. get_or done x true ≡ false) (sym at) open_))
      by_index (suc k') lt' rec ne open_ =
          let at : suc j + k' ≡ j + suc k' = omega arith in
          subst (λ x. depends_on (get_or pkgs x none) (get_or pkgs i none) ≡ false) at
            (rec
              (or-false_right
                ((not (j == i) && not (get_or done j true))
                  && depends_on (get_or pkgs j none) (get_or pkgs i none))
                (needed_from pkgs n (suc j) done i) e)
              k' (omega (arith, lt')) (subst (λ x. x ≢ i) (sym at) ne)
              (subst (λ x. get_or done x true ≡ false) (sym at) open_))

  is_needed-IsNeeded : (done : List Bool) (i : ℕ) → is_needed pkgs done i ≡ true → IsNeeded done i
  unfolding is_needed
  is_needed-IsNeeded done i e = needed_from-true (length pkgs) 0 done i e

  not-IsNeeded :
      (done : List Bool) (i : ℕ)
      → length done ≡ length pkgs
      → is_needed pkgs done i ≡ false
      → ¬ IsNeeded done i
  unfolding is_needed
  not-IsNeeded done i size e (j, ne, left, dep) =
      let at : j ≡ 0 + j = omega arith in
      let free =
        needed_from-false (length pkgs) 0 done i e j (omega (arith, get_or-lt done j left, size))
          (subst (λ x. x ≢ i) at ne) (subst (λ x. get_or done x true ≡ false) at left) in
      differ (
        sym
          (subst (λ x. depends_on (get_or pkgs x none) (get_or pkgs i none) ≡ false) (sym at) free)
        ∙ (depends_on_iff (get_or pkgs j none) (get_or pkgs i none)).1 dep)

  module _ (done : List Bool) (size : length done ≡ length pkgs) where
    FbOk : ℕ → Option ℕ → Type 0
    FbOk i none = (x : ℕ) → x < i → get_or done x true ≡ true
    FbOk i (some k) = get_or done k true ≡ false

    PickOk : ℕ → Option ℕ → Type 0
    PickOk top none = (x : ℕ) → x < top → get_or done x true ≡ true
    PickOk top (some k) =
        (get_or done k true ≡ false)
        × ((¬ IsNeeded done k) ⊎ ((x : ℕ) → x < top → get_or done x true ≡ false → IsNeeded done x))

    FbOk-next : (i : ℕ) (o : Option ℕ) → FbOk i o → get_or done i true ≡ true → FbOk (suc i) o
    unfolding FbOk
    FbOk-next i none fb e = up_to i (λ x. get_or done x true ≡ true) fb e
    FbOk-next i (some k) fb e = fb

    FbOk-first :
        (i : ℕ) (o : Option ℕ)
        → FbOk i o
        → get_or done i true ≡ false
        → FbOk (suc i) (first_of pkgs o i)
    unfolding FbOk
    FbOk-first i none fb e = e
    FbOk-first i (some k) fb e = fb

    pick_from-PickOk :
        (n i top : ℕ) (fallback : Option ℕ)
        → i + n ≡ top
        → ((x : ℕ) → x < i → get_or done x true ≡ false → IsNeeded done x)
        → FbOk i fallback
        → PickOk top (pick_from pkgs n i done fallback)
    unfolding pick_from FbOk PickOk
    pick_from-PickOk zero i top none e before fb = λ x lt. fb x (omega (arith, e, lt))
    pick_from-PickOk zero i top (some k) e before fb =
        (fb, inr (λ x lt. before x (omega (arith, e, lt))))
    pick_from-PickOk (suc n) i top fallback e before fb =
        by_done (get_or done i true) refl (is_needed pkgs done i) refl
          (λ f before' fb'. pick_from-PickOk n (suc i) top f (omega (arith, e)) before' fb')
      where
        by_done :
            (b : Bool)
            → get_or done i true ≡ b
            → (c : Bool) → is_needed pkgs done i ≡ c
            → ((f : Option ℕ)
                → ((x : ℕ) → x < suc i → get_or done x true ≡ false → IsNeeded done x)
                → FbOk (suc i) f
                → PickOk top (pick_from pkgs n (suc i) done f))
            → PickOk top (
                if b
                then pick_from pkgs n (suc i) done fallback
                else if c
                then pick_from pkgs n (suc i) done (first_of pkgs fallback i)
                else some i)
        by_done true p c q rec =
            rec fallback
              (up_to i (λ x. get_or done x true ≡ false → IsNeeded done x) before
                (λ h. absurd (differ (sym h ∙ p))))
              (FbOk-next i fallback fb p)
        by_done false p false q rec = (p, inl (not-IsNeeded done i size q))
        by_done false p true q rec =
            rec (first_of pkgs fallback i)
              (up_to i (λ x. get_or done x true ≡ false → IsNeeded done x) before
                (λ h. is_needed-IsNeeded done i q))
              (FbOk-first i fallback fb p)

    -- What is picked is not done.
    pub pick-left :
        (k : ℕ) → pick_from pkgs (length pkgs) 0 done none ≡ some k → get_or done k true ≡ false
    unfolding FbOk PickOk
    pick-left k e =
        (subst (PickOk (length pkgs)) e (
          pick_from-PickOk (length pkgs) 0 (length pkgs) none (omega arith)
            (λ x lt. absurd (omega (arith, lt))) (λ x lt. absurd (omega (arith, lt))))).0

    -- As long as a package is left, one is picked.
    pub pick-IsRemoval :
        0 < undone done
        → (k : ℕ) × (pick_from pkgs (length pkgs) 0 done none ≡ some k)
          × (get_or done k true ≡ false)
          × ((¬ IsNeeded done k) ⊎ ((i : ℕ) → get_or done i true ≡ false → IsNeeded done i))
    unfolding FbOk PickOk
    pick-IsRemoval left = by_pick (pick_from pkgs (length pkgs) 0 done none) refl (
        pick_from-PickOk (length pkgs) 0 (length pkgs) none (omega arith)
          (λ x lt. absurd (omega (arith, lt))) start)
      where
        start : FbOk 0 none
        start x lt = absurd (omega (arith, lt))

        by_pick :
            (o : Option ℕ)
            → pick_from pkgs (length pkgs) 0 done none ≡ o
            → PickOk (length pkgs) o
            → (k : ℕ) × (pick_from pkgs (length pkgs) 0 done none ≡ some k)
              × (get_or done k true ≡ false)
              × ((¬ IsNeeded done k) ⊎ ((i : ℕ) → get_or done i true ≡ false → IsNeeded done i))
        by_pick none e h =
            let (k, open_, lt) = undone-some done left in
            absurd (differ (sym open_ ∙ h k (omega (arith, lt, size))))
        by_pick (some k) e h = (
          k,
          e,
          h.0,
          elim h.1 [
            | inl free ↦ inl free
            | inr all ↦ inr (λ i q. all i (omega (arith, get_or-lt done i q, size)) q)
          ],
        )
