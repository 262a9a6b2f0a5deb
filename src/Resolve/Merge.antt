-- ===== src/Resolve/Merge.antt =====
-- The merge of the orders in `dep_graph_resolve_parallel` of src/graph/resolve.c.
use lib_apg.Base.{
  ℕ, ◌≡◌, refl, sym, ◌∙◌, ◌⊎◌, inl, inr, ◌↔◌, Bool, true, false, List, [], ◌∷◌, ◌++◌, Option, none,
  some, Bool-cases, subst, Allocs, Memᴰ-append_left, Memᴰ-append_last, Memᴰ-append_cases,
}
use mathlib.Core.List.{Memᴰ}
use lib_apg.CString.{CStr, str_eq, str_eq_sound, str_eq_refl}
use lib_apg.StrMap.{StrMap, str_map_get, str_map_set}
use lib_apg.StrMap.Insert.{IsValid as MapIsValid, SetPost}
use lib_apg.StrMap.Laws.{str_map_set-SetPost}
use lib_apg.Resolve.Runs.{Merge, take_name, merge_name, then_merge, merge_order, merge_orders}

-- No name twice.
abbrev pub IsOnce : List CStr → Type 0
IsOnce [] = Unit
IsOnce (x ∷ xs) = (¬ Memᴰ x xs) × IsOnce xs

-- A name of one of the orders.
abbrev pub InSome : List (List CStr) → CStr → Type 0
InSome [] name = ⊥
InSome (o ∷ os) name = Memᴰ name o ⊎ InSome os name

IsOnce-append : (x : CStr) (xs : List CStr) → IsOnce xs → ¬ Memᴰ x xs → IsOnce (xs ++ (x ∷ []))
IsOnce-append x [] once new = ((λ m. elim m [ ]), tt)
IsOnce-append x (y ∷ ys) once new = (
  λ m. elim (Memᴰ-append_cases y x ys m) [ inl n ↦ once.0 n | inr e ↦ new (Memᴰ.head (sym e)) ],
  IsOnce-append x ys once.1 (λ m. new (Memᴰ.tail m)),
)

-- `seen` has exactly the names of `merged`, and those are different.
pub record IsMerge (t : Merge) : Type 0 where
  pub seen_valid : MapIsValid t.seen
  pub listed : (j : CStr) (v : ℕ) → str_map_get t.seen j ≡ some v → Memᴰ j t.merged
  pub unlisted : (j : CStr) → str_map_get t.seen j ≡ none → ¬ Memᴰ j t.merged
  pub once : IsOnce t.merged

-- The names that a step adds.
pub record Grows (t : Merge) (P : CStr → Type 0) (t' : Merge) : Type 0 where
  pub merge : IsMerge t'
  pub only : (j : CStr) → Memᴰ j t'.merged → Memᴰ j t.merged ⊎ P j
  pub old : (j : CStr) → Memᴰ j t.merged → Memᴰ j t'.merged
  pub new : (j : CStr) → P j → Memᴰ j t'.merged

abbrev pub MergePost : Merge → (CStr → Type 0) → Option Merge × Allocs → Type 0
MergePost t P (none, allocs) = Unit
MergePost t P (some t', allocs) = Grows t P t'

take_name-MergePost :
    (t : Merge) (name : CStr) (r : Bool × StrMap × Allocs)
    → IsMerge t
    → str_map_get t.seen name ≡ none
    → SetPost name 1 t.seen r
    → MergePost t (λ j. j ≡ name) (take_name t name r)
unfolding take_name
take_name-MergePost t name (false, seen, allocs) h e p = tt
take_name-MergePost t name (true, seen, allocs) h e p = record {
  merge = record {
    seen_valid = p.valid;
    listed = λ j v q. elim (Bool-cases (str_eq name j)) [
      | inl s ↦
          subst (λ n. Memᴰ n (t.merged ++ (name ∷ []))) (str_eq_sound name j s)
            (Memᴰ-append_last name t.merged)
      | inr s ↦ Memᴰ-append_left j name t.merged (h.listed j v (sym (rw s at (p.done refl j)) ∙ q))
    ];
    unlisted = λ j q m. elim (Bool-cases (str_eq name j)) [
      | inl s ↦ differ (sym q ∙ rw s at (p.done refl j))
      | inr s ↦ elim (Memᴰ-append_cases j name t.merged m) [
        | inl n ↦ h.unlisted j (sym (rw s at (p.done refl j)) ∙ q) n
        | inr same ↦ apart j same s
      ]
    ];
    once = IsOnce-append name t.merged h.once (h.unlisted name e);
  };
  only = λ j m. Memᴰ-append_cases j name t.merged m;
  old = λ j m. Memᴰ-append_left j name t.merged m;
  new =
      λ j q. subst (λ n. Memᴰ n (t.merged ++ (name ∷ []))) (sym q) (Memᴰ-append_last name t.merged);
}
  where
    differ : ¬ (◌≡◌ {A = Option ℕ} none (some 1))
    differ q = cc

    apart : (j : CStr) → j ≡ name → ¬ (str_eq name j ≡ false)
    apart j same s =
        let yes_eq : str_eq name j ≡ true =
          subst (λ n. str_eq name n ≡ true) (sym same) (str_eq_refl name) in
        cc

merge_name-MergePost :
    (t : Merge) (name : CStr) (allocs : Allocs)
    → IsMerge t
    → MergePost t (λ j. j ≡ name) (merge_name t name allocs)
unfolding merge_name
merge_name-MergePost t name allocs h = by_seen (str_map_get t.seen name) refl
  where
    by_seen :
        (o : Option ℕ)
        → str_map_get t.seen name ≡ o
        → MergePost t
            (λ j. j ≡ name)
            (elim o as (λ _. Option Merge × Allocs) [
              | some _ ↦ (some t, allocs)
              | none ↦ take_name t name (str_map_set t.seen name 1 allocs)
            ])
    by_seen (some v) e = record {
      merge = h;
      only = λ j m. inl m;
      old = λ j m. m;
      new = λ j q. subst (λ n. Memᴰ n t.merged) (sym q) (h.listed name v e);
    }
    by_seen none e =
        take_name-MergePost t name (str_map_set t.seen name 1 allocs) h e
          (str_map_set-SetPost name 1 t.seen allocs h.seen_valid)

-- A step, and the rest.
then_merge-MergePost :
    (t : Merge) (P Q R : CStr → Type 0) (r : Option Merge × Allocs)
    (next : Merge → Allocs → Option Merge × Allocs)
    → ((j : CStr) → R j ↔ (P j ⊎ Q j))
    → MergePost t P r
    → ((t' : Merge) (rest : Allocs) → IsMerge t' → MergePost t' Q (next t' rest))
    → MergePost t R (then_merge r next)
then_merge-MergePost t P Q R (none, allocs) next split p f = tt
then_merge-MergePost t P Q R (some t', allocs) next split p f =
    by_next (next t' allocs) (f t' allocs p.merge)
  where
    by_next : (r : Option Merge × Allocs) → MergePost t' Q r → MergePost t R r
    by_next (none, rest) q = tt
    by_next (some t'', rest) q = record {
      merge = q.merge;
      only = λ j m. elim (q.only j m) [
        | inr b ↦ inr ((split j).1 (inr b))
        | inl n ↦ elim (p.only j n) [ inl old ↦ inl old | inr a ↦ inr ((split j).1 (inl a)) ]
      ];
      old = λ j m. q.old j (p.old j m);
      new = λ j s. elim ((split j).0 s) [ inl a ↦ q.old j (p.new j a) | inr b ↦ q.new j b ];
    }

nothing_added : (t : Merge) (P : CStr → Type 0) → IsMerge t → ((j : CStr) → ¬ P j) → Grows t P t
nothing_added t P h nothing = record {
  merge = h;
  only = λ j m. inl m;
  old = λ j m. m;
  new = λ j p. absurd (nothing j p);
}

merge_order-MergePost :
    (names : List CStr) (t : Merge) (allocs : Allocs)
    → IsMerge t
    → MergePost t (λ j. Memᴰ j names) (merge_order names t allocs)
unfolding merge_order
merge_order-MergePost [] t allocs h = nothing_added t (λ j. Memᴰ j []) h (λ j m. elim m [ ])
merge_order-MergePost (name ∷ names) t allocs h =
    then_merge-MergePost t (λ j. j ≡ name) (λ j. Memᴰ j names) (λ j. Memᴰ j (name ∷ names))
      (merge_name t name allocs) (λ t' rest. merge_order names t' rest) (λ j. (split j, join j))
      (merge_name-MergePost t name allocs h) (λ t' rest h'. merge_order-MergePost names t' rest h')
  where
    split : (j : CStr) → Memᴰ j (name ∷ names) → (j ≡ name) ⊎ Memᴰ j names
    split j (Memᴰ.head e) = inl e
    split j (Memᴰ.tail m) = inr m

    join : (j : CStr) → (j ≡ name) ⊎ Memᴰ j names → Memᴰ j (name ∷ names)
    join j (inl e) = Memᴰ.head e
    join j (inr m) = Memᴰ.tail m

pub merge_orders-MergePost :
    (orders : List (List CStr)) (t : Merge) (allocs : Allocs)
    → IsMerge t
    → MergePost t (InSome orders) (merge_orders orders t allocs)
unfolding merge_orders
merge_orders-MergePost [] t allocs h = nothing_added t (InSome []) h (λ j m. m)
merge_orders-MergePost (names ∷ orders) t allocs h =
    then_merge-MergePost t (λ j. Memᴰ j names) (InSome orders) (InSome (names ∷ orders))
      (merge_order names t allocs) (λ t' rest. merge_orders orders t' rest)
      (λ j. ((λ s. s), (λ s. s))) (merge_order-MergePost names t allocs h)
      (λ t' rest h'. merge_orders-MergePost orders t' rest h')
