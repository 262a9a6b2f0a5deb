-- ===== src/Base/Members.antt =====
-- Members of lists.
use Prim.Native.Nat.{ℕ, zero, suc}
use mathlib.Core.Option.{some}
use mathlib.Core.Path.{◌≡◌, refl, sym, subst}
use mathlib.Core.Logic.{◌⊎◌, inl, inr}
use mathlib.Core.List.{List, [], ◌∷◌, ◌++◌, Memᴰ}
use lib_apg.Base.Lists.{All, get_elem?}

module _ {ℓ} {A : Type ℓ} where
  pub Memᴰ-append_left : (j x : A) (xs : List A) → Memᴰ j xs → Memᴰ j (xs ++ (x ∷ []))
  Memᴰ-append_left j x [] m = elim m [ ]
  Memᴰ-append_left j x (y ∷ ys) (Memᴰ.head e) = Memᴰ.head e
  Memᴰ-append_left j x (y ∷ ys) (Memᴰ.tail m) = Memᴰ.tail (Memᴰ-append_left j x ys m)

  pub Memᴰ-append_last : (x : A) (xs : List A) → Memᴰ x (xs ++ (x ∷ []))
  Memᴰ-append_last x [] = Memᴰ.head refl
  Memᴰ-append_last x (y ∷ ys) = Memᴰ.tail (Memᴰ-append_last x ys)

  pub Memᴰ-append_cases : (j x : A) (xs : List A) → Memᴰ j (xs ++ (x ∷ [])) → Memᴰ j xs ⊎ (j ≡ x)
  Memᴰ-append_cases j x [] (Memᴰ.head e) = inr e
  Memᴰ-append_cases j x [] (Memᴰ.tail m) = elim m [ ]
  Memᴰ-append_cases j x (y ∷ ys) (Memᴰ.head e) = inl (Memᴰ.head e)
  Memᴰ-append_cases j x (y ∷ ys) (Memᴰ.tail m) = elim (Memᴰ-append_cases j x ys m) [
    | inl n ↦ inl (Memᴰ.tail n)
    | inr e ↦ inr e
  ]

  pub All-of {κ} : (P : A → Type κ) (xs : List A) → ((x : A) → Memᴰ x xs → P x) → All P xs
  All-of P [] h = tt
  All-of P (x ∷ xs) h = (h x (Memᴰ.head refl), All-of P xs (λ y m. h y (Memᴰ.tail m)))

  pub All-Memᴰ {κ} : (P : A → Type κ) (x : A) (xs : List A) → All P xs → Memᴰ x xs → P x
  All-Memᴰ P x [] all m = elim m [ ]
  All-Memᴰ P x (y ∷ ys) all (Memᴰ.head e) = subst P (sym e) all.0
  All-Memᴰ P x (y ∷ ys) all (Memᴰ.tail m) = All-Memᴰ P x ys all.1 m

  pub All-of_get {κ} :
      (P : A → Type κ) (xs : List A) → ((i : ℕ) (x : A) → get_elem? xs i ≡ some x → P x) → All P xs
  All-of_get P [] h = tt
  All-of_get P (x ∷ xs) h = (h zero x refl, All-of_get P xs (λ i y e. h (suc i) y e))
