-- ===== src/Candidates/Members.antt =====
-- The candidates of the packages that `candidate_set_add_package` of src/graph/candidates.c adds.
use lib_apg.Base.{
  ◌≡◌, refl, sym, ◌⊎◌, inl, inr, ◌↔◌, Bool, true, false, List, [], ◌∷◌, ◌++◌, Bool-cases, subst,
  Allocs, if◌then◌else◌, Memᴰ-append_left, Memᴰ-append_last, Memᴰ-append_cases,
}
use mathlib.Core.List.{Memᴰ}
use lib_apg.CString.{CStr, str_eq, str_eq_sound, str_eq_refl}
use lib_apg.Package.{Package}
use lib_apg.Candidates.{
  CandidateSet, candidate_set_add, then_add, add_names, candidate_set_add_package,
}
use lib_apg.Candidates.Group.{IsValid, items_of}
use lib_apg.Candidates.Add.{candidate_set_add-IsValid, items_of-candidate_set_add}

-- A set that has the package too, under the names that `P` accepts.
pub record Joined (cs : CandidateSet) (pkg : Package) (P : CStr → Type 0) (cs' : CandidateSet)
    : Type 0 where
  pub valid : IsValid cs'
  pub split :
      (j : CStr) (c : Package) → Memᴰ c (items_of cs' j) → Memᴰ c (items_of cs j) ⊎ (c ≡ pkg) × P j
  pub old : (j : CStr) (c : Package) → Memᴰ c (items_of cs j) → Memᴰ c (items_of cs' j)
  pub new : (j : CStr) → P j → Memᴰ pkg (items_of cs' j)

candidate_set_add-Joined :
    (cs : CandidateSet) (name : CStr) (pkg : Package) (allocs : Allocs)
    → IsValid cs
    → (candidate_set_add cs name pkg allocs).0 ≡ true
    → Joined cs pkg (λ j. j ≡ name) (candidate_set_add cs name pkg allocs).1
candidate_set_add-Joined cs name pkg allocs ok e =
    let items = items_of-candidate_set_add cs name pkg allocs ok e in
    record {
      valid = candidate_set_add-IsValid cs name pkg allocs ok;
      split = λ j c m. split_at j c (Bool-cases (str_eq name j)) (subst (Memᴰ c) (items j) m);
      old = λ j c m. subst (Memᴰ c) (sym (items j)) (old_at j c (Bool-cases (str_eq name j)) m);
      new = λ j q. subst (Memᴰ pkg) (sym (items j)) (new_at j q);
    }
  where
    split_at :
        (j : CStr) (c : Package)
        → (str_eq name j ≡ true) ⊎ (str_eq name j ≡ false)
        → Memᴰ c (if str_eq name j then items_of cs name ++ (pkg ∷ []) else items_of cs j)
        → Memᴰ c (items_of cs j) ⊎ (c ≡ pkg) × (j ≡ name)
    split_at j c (inr n) m = inl (rw n at m)
    split_at j c (inl s) m = elim (Memᴰ-append_cases c pkg (items_of cs name) (rw s at m)) [
      | inl old ↦ inl (subst (λ n. Memᴰ c (items_of cs n)) (str_eq_sound name j s) old)
      | inr new ↦ inr (new, sym (str_eq_sound name j s))
    ]

    old_at :
        (j : CStr) (c : Package)
        → (str_eq name j ≡ true) ⊎ (str_eq name j ≡ false)
        → Memᴰ c (items_of cs j)
        → Memᴰ c (if str_eq name j then items_of cs name ++ (pkg ∷ []) else items_of cs j)
    old_at j c (inr n) m = rw n m
    old_at j c (inl s) m = rw s (
        Memᴰ-append_left c pkg (items_of cs name)
          (subst (λ n. Memᴰ c (items_of cs n)) (sym (str_eq_sound name j s)) m))

    new_at :
        (j : CStr)
        → j ≡ name
        → Memᴰ pkg (if str_eq name j then items_of cs name ++ (pkg ∷ []) else items_of cs j)
    new_at j q =
        let s : str_eq name j ≡ true =
          subst (λ n. str_eq name n ≡ true) (sym q) (str_eq_refl name) in
        rw s (Memᴰ-append_last pkg (items_of cs name))

abbrev pub JoinPost :
    CandidateSet → Package → (CStr → Type 0) → Bool × CandidateSet × Allocs → Type 0
JoinPost cs pkg P (false, cs', rest) = Unit
JoinPost cs pkg P (true, cs', rest) = Joined cs pkg P cs'

then_add-JoinPost :
    (cs : CandidateSet) (pkg : Package) (P Q R : CStr → Type 0) (r : Bool × CandidateSet × Allocs)
    (next : CandidateSet → Allocs → Bool × CandidateSet × Allocs)
    → ((j : CStr) → R j ↔ (P j ⊎ Q j))
    → (r.0 ≡ true → Joined cs pkg P r.1)
    → ((cs' : CandidateSet) (rest : Allocs) → IsValid cs' → JoinPost cs' pkg Q (next cs' rest))
    → JoinPost cs pkg R (then_add r next)
then_add-JoinPost cs pkg P Q R (false, cs', rest) next split p f = tt
then_add-JoinPost cs pkg P Q R (true, cs', rest) next split p f =
    by_next (p refl) (next cs' rest) (f cs' rest (p refl).valid)
  where
    by_next :
        Joined cs pkg P cs'
        → (r : Bool × CandidateSet × Allocs) → JoinPost cs' pkg Q r
        → JoinPost cs pkg R r
    by_next p (false, cs'', rest') q = tt
    by_next p (true, cs'', rest') q = record {
      valid = q.valid;
      split = λ j c m. elim (q.split j c m) [
        | inr b ↦ inr (b.0, (split j).1 (inr b.1))
        | inl n ↦ elim (p.split j c n) [
          | inl old ↦ inl old
          | inr a ↦ inr (a.0, (split j).1 (inl a.1))
        ]
      ];
      old = λ j c m. q.old j c (p.old j c m);
      new = λ j s. elim ((split j).0 s) [ inl a ↦ q.old j pkg (p.new j a) | inr b ↦ q.new j b ];
    }

add_names-JoinPost :
    (names : List CStr) (pkg : Package) (cs : CandidateSet) (allocs : Allocs)
    → IsValid cs
    → JoinPost cs pkg (λ j. Memᴰ j names) (add_names names pkg cs allocs)
unfolding add_names
add_names-JoinPost [] pkg cs allocs ok = record {
  valid = ok;
  split = λ j c m. inl m;
  old = λ j c m. m;
  new = λ j m. elim m [ ];
}
add_names-JoinPost (name ∷ names) pkg cs allocs ok =
    then_add-JoinPost cs pkg (λ j. j ≡ name) (λ j. Memᴰ j names) (λ j. Memᴰ j (name ∷ names))
      (candidate_set_add cs name pkg allocs) (λ cs' rest. add_names names pkg cs' rest)
      (λ j. (split j, join j)) (candidate_set_add-Joined cs name pkg allocs ok)
      (λ cs' rest ok'. add_names-JoinPost names pkg cs' rest ok')
  where
    split : (j : CStr) → Memᴰ j (name ∷ names) → (j ≡ name) ⊎ Memᴰ j names
    split j (Memᴰ.head e) = inl e
    split j (Memᴰ.tail m) = inr m

    join : (j : CStr) → (j ≡ name) ⊎ Memᴰ j names → Memᴰ j (name ∷ names)
    join j (inl e) = Memᴰ.head e
    join j (inr m) = Memᴰ.tail m

-- A package that is added is a candidate for its name and for the names that it provides.
pub candidate_set_add_package-JoinPost :
    (cs : CandidateSet) (name : CStr) (pkg : Package) (allocs : Allocs)
    → IsValid cs
    → JoinPost cs pkg
        (λ j. Memᴰ j (name ∷ pkg.provides))
        (candidate_set_add_package cs name pkg allocs)
unfolding candidate_set_add_package
candidate_set_add_package-JoinPost cs name pkg allocs ok =
    add_names-JoinPost (name ∷ pkg.provides) pkg cs allocs ok
