-- ===== src/Transaction/Removed.antt =====
-- What `push_removals_in_order` of src/transaction/prepare.c adds to the plan.
use lib_apg.Base.{
  ℕ, zero, suc, ◌*◌, ◌≡◌, refl, sym, ap, ◌∙◌, Bool, true, false, List, [], ◌∷◌, ◌++◌, Option, none,
  some, length, get_or, set, replicate, map, arith, ◌==◌, Allocs, Bool-cases, inl, inr,
  length-replicate, length-set,
}
use lib_apg.CString.{CStr}
use lib_apg.Transaction.{TransError, trans_ok, PackageFile, remove, TransStep, Trans, copy_string}
use lib_apg.Transaction.Push.{then_trans, both_arrays, plan_room, push_step, plan_push}
use lib_apg.Transaction.Removals.{remove_loop, push_removals_in_order}
use lib_apg.Transaction.Order.{
  undone, undone-set, undone-zero, undone-replicate, IsRemovalOrder, pick-IsRemoval,
}

-- The step that removes a package.
abbrev pub removal : CStr → TransStep
removal name = record { op = remove; pkg_name = name; pkg_version = none; explicit = true }

-- With enough memory.
plan_room-nil : (t : Trans) → (room : ℕ) × (plan_room t [] ≡ (some room, []))
unfolding plan_room both_arrays
plan_room-nil t = elim (Bool-cases (t.plan_cap == 0)) [
  | inl e ↦ (8, rw (e, plan_room) refl)
  | inr e ↦ elim (Bool-cases (length t.plan == t.plan_cap)) [
    | inl f ↦ (t.plan_cap * 2, rw (e, f, plan_room) refl)
    | inr f ↦ (t.plan_cap, rw (e, f, plan_room) refl)
  ]
]

plan_push-removal :
    (t : Trans) (name : CStr)
    → (t' : Trans) × (plan_push t remove name none true none [] ≡ (trans_ok, t', []))
      × (t'.plan ≡ t.plan ++ (removal name ∷ []))
unfolding plan_push push_step copy_string
plan_push-removal t name =
    let (room, e) = plan_room-nil t in
    (
      record t {
        plan_cap = room;
        plan = t.plan ++ (removal name ∷ []);
        plan_pkgs = t.plan_pkgs ++ (none ∷ []);
      },
      ap (push_step t remove name none true none) e,
      refl,
    )

-- The plan after the removals at the indices.
abbrev pub removals_at : List CStr → List ℕ → List TransStep
removals_at names [] = []
removals_at names (k ∷ ks) = removal (get_or names k []) ∷ removals_at names ks

append_nil : (xs : List TransStep) → xs ++ [] ≡ xs
append_nil [] = refl
append_nil (x ∷ xs) = ap (◌∷◌ x) (append_nil xs)

append_assoc :
    (xs : List TransStep) (y : TransStep) (zs : List TransStep)
    → (xs ++ (y ∷ [])) ++ zs ≡ xs ++ (y ∷ zs)
append_assoc [] y zs = refl
append_assoc (x ∷ xs) y zs = ap (◌∷◌ x) (append_assoc xs y zs)

module _ (pkgs : List (Option PackageFile)) (names : List CStr) where
  abbrev Removed : List Bool → Trans → TransError × Trans × Allocs → Type 0
  Removed done t r =
      (t' : Trans) × (ks : List ℕ) × (r ≡ (trans_ok, t', []))
      × IsRemovalOrder pkgs done ks
      × (t'.plan ≡ t.plan ++ removals_at names ks)

  remove_loop-Removed :
      (n : ℕ) (done : List Bool) (t : Trans)
      → length done ≡ length pkgs
      → undone done ≡ n
      → Removed done t (remove_loop pkgs names n done t [])
  unfolding remove_loop
  remove_loop-Removed zero done t size count =
      (t, [], refl, (λ i. undone-zero done i count), sym (append_nil t.plan))
  remove_loop-Removed (suc n) done t size count =
      let (k, e, left, order) = pick-IsRemoval pkgs done size (omega (arith, count)) in
      let (t', pushed, plan) = plan_push-removal t (get_or names k []) in
      let count' : undone (set done k true) ≡ n = omega (arith, undone-set done k left, count) in
      let (t'', ks, rest, ordered, plan') =
        remove_loop-Removed n (set done k true) t' (length-set done k true ∙ size) count' in
      (
        t'',
        k ∷ ks,
        rw (e, remove_loop)
            (ap
                (λ r.
                  then_trans r (λ u allocs. remove_loop pkgs names n (set done k true) u allocs))
                pushed
              ∙ rest),
        (left, order, ordered),
        plan'
            ∙ ap (λ p. p ++ removals_at names ks) plan
            ∙ append_assoc t.plan (removal (get_or names k [])) (removals_at names ks),
      )

module _ (db_get : CStr → Option PackageFile) (names : List CStr) (t : Trans) where
  -- With enough memory, push_removals_in_order adds a step for each of the names, in an order of removal of
  -- their packages: a package that another one of them still depends on is removed only where every package
  -- that is left is needed by another.
  pub push_removals_in_order-IsRemovalOrder :
      (t' : Trans) × (ks : List ℕ) × (push_removals_in_order db_get names t [] ≡ (trans_ok, t', []))
      × IsRemovalOrder (map db_get names) (replicate (length names) false) ks
      × (t'.plan ≡ t.plan ++ removals_at names ks)
  unfolding push_removals_in_order
  push_removals_in_order-IsRemovalOrder = by_names names
    where
      length-map : (ns : List CStr) → length ns ≡ length (map db_get ns)
      length-map [] = refl
      length-map (n ∷ ns) = ap suc (length-map ns)

      by_names :
          (ns : List CStr)
          → (t' : Trans) × (ks : List ℕ) × (push_removals_in_order db_get ns t []
              ≡ (trans_ok, t', []))
            × IsRemovalOrder (map db_get ns) (replicate (length ns) false) ks
            × (t'.plan ≡ t.plan ++ removals_at ns ks)
      by_names [] = (t, [], refl, (λ i. refl), sym (append_nil t.plan))
      by_names (n ∷ ns) =
          remove_loop-Removed (map db_get (n ∷ ns)) (n ∷ ns) (length (n ∷ ns))
            (replicate (length (n ∷ ns)) false) t
            (length-replicate (length (n ∷ ns)) false ∙ length-map (n ∷ ns))
            (undone-replicate (length (n ∷ ns)))
