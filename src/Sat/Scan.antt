-- ===== src/Sat/Scan.antt =====
-- What the scan of one clause says of the total assignments that extend a partial one.
use mathlib.Core.Logic.{⊎_elim}
use lib_apg.Base.{
  ◌≢◌, ℕ, suc, ◌+◌, ◌≤◌, ◌≡◌, refl, ◌⊎◌, inl, inr, Bool, true, false, List, [], ◌∷◌, Option, some,
  All, arith,
}
use lib_apg.Sat.Clause.{
  Lit, pos, neg, var, Value, undef, yea, nay, Clause, agrees, satisfied, counted, value, scan,
}

-- A total assignment makes a literal true.
abbrev pub Holds : (ℕ → Bool) → Lit → Type 0
Holds ρ (pos v) = ρ v ≡ true
Holds ρ (neg v) = ρ v ≡ false

abbrev pub HoldsSome : (ℕ → Bool) → List Lit → Type 0
HoldsSome ρ [] = ⊥
HoldsSome ρ (l ∷ ls) = Holds ρ l ⊎ HoldsSome ρ ls

-- A total assignment satisfies every clause.
abbrev pub Satisfies : (ℕ → Bool) → List Clause → Type 0
Satisfies ρ cs = All (λ c. HoldsSome ρ c.lits) cs

abbrev pub Fits : Value → Bool → Type 0
Fits undef b = Unit
Fits yea b = b ≡ true
Fits nay b = b ≡ false

-- A total assignment extends a partial one.
abbrev pub Extends : (ℕ → Bool) → List Value → Type 0
Extends ρ a = (v : ℕ) → Fits (value a v) (ρ v)

-- The partial assignment makes a literal of the clause true.
abbrev pub TrueSome : List Value → List Lit → Type 0
TrueSome a [] = ⊥
TrueSome a (l ∷ ls) = (agrees l (value a (var l)) ≡ true) ⊎ TrueSome a ls

not-Holds :
    (ρ : ℕ → Bool) (l : Lit) (x : Value)
    → x ≢ undef
    → agrees l x ≡ false
    → Fits x (ρ (var l))
    → ¬ Holds ρ l
not-Holds ρ (pos v) undef ne h f = absurd (ne refl)
not-Holds ρ (pos v) yea ne h f = λ p. cc
not-Holds ρ (pos v) nay ne h f = λ p. cc
not-Holds ρ (neg v) undef ne h f = absurd (ne refl)
not-Holds ρ (neg v) yea ne h f = λ p. cc
not-Holds ρ (neg v) nay ne h f = λ p. cc

-- The three ways in which the scan passes a literal.
Literal-cases :
    (l : Lit) (x : Value) → (x ≡ undef) ⊎ (agrees l x ≡ true) ⊎ ((x ≢ undef) × (agrees l x ≡ false))
Literal-cases l undef = inl refl
Literal-cases (pos v) yea = inr (inl refl)
Literal-cases (pos v) nay = inr (inr ((λ e. cc), refl))
Literal-cases (neg v) yea = inr (inr ((λ e. cc), refl))
Literal-cases (neg v) nay = inr (inl refl)

pub scan-satisfied :
    (a : List Value) (ls : List Lit) (k : ℕ) (last : Option Lit)
    → scan a ls k last ≡ satisfied
    → TrueSome a ls
unfolding scan
scan-satisfied a [] k last h = cc
scan-satisfied a (l ∷ ls) k last h =
    ground (arith, scan-satisfied a ls (k + 1) (some l), scan-satisfied a ls k last)

-- The count of the undefined literals only grows.
pub scan-le :
    (a : List Value) (ls : List Lit) (k : ℕ) (last : Option Lit) (n : ℕ) (last' : Option Lit)
    → scan a ls k last ≡ counted n last'
    → k ≤ n
unfolding scan
scan-le a [] k last n last' h = ground arith
scan-le a (l ∷ ls) k last n last' h =
    ground (arith, scan-le a ls (k + 1) (some l) n last', scan-le a ls k last n last')

scan_last :
    (a : List Value) (ls : List Lit) (k : ℕ) (last : Option Lit) (n : ℕ) (last' : Option Lit)
    → scan a ls k last ≡ counted n last'
    → n ≡ k
    → last' ≡ last
unfolding scan
scan_last a [] k last n last' h e = ground arith
scan_last a (l ∷ ls) k last n last' h e =
    ground (arith, scan-le a ls (k + 1) (some l) n last', scan_last a ls k last n last')

-- With no undefined literal no extension satisfies the clause.
pub scan_none :
    (ρ : ℕ → Bool) (a : List Value) (ls : List Lit) (k : ℕ) (last : Option Lit) (n : ℕ)
    (last' : Option Lit)
    → scan a ls k last ≡ counted n last'
    → n ≡ k
    → Extends ρ a
    → ¬ HoldsSome ρ ls
unfolding scan
scan_none ρ a [] k last n last' h e ext = λ p. p
scan_none ρ a (l ∷ ls) k last n last' h e ext = elim (Literal-cases l (value a (var l))) [
  | inl unset ↦ absurd (ground (arith, scan-le a ls (k + 1) (some l) n last'))
  | inr (inl holds) ↦ absurd (ground arith)
  | inr (inr (given, off)) ↦
      ⊎_elim (not-Holds ρ l (value a (var l)) given off (ext (var l)))
        (scan_none ρ a ls k last n last' (ground arith) e ext)
]

-- With one undefined literal every extension that satisfies the clause makes that one true.
pub scan_one {ℓ} :
    (P : Lit → Type ℓ) (a : List Value) (ls : List Lit) (k : ℕ) (last : Option Lit) (n : ℕ)
    (last' : Option Lit)
    → scan a ls k last ≡ counted n last'
    → n ≡ suc k
    → All P ls
    → (l : Lit) × (last' ≡ some l)
      × P l
      × (value a (var l) ≡ undef)
      × ((ρ : ℕ → Bool) → Extends ρ a → HoldsSome ρ ls → Holds ρ l)
unfolding scan
scan_one P a [] k last n last' h e all = absurd (ground arith)
scan_one P a (l ∷ ls) k last n last' h e all = elim (Literal-cases l (value a (var l))) [
  | inl unset ↦
      let h' : scan a ls (k + 1) (some l) ≡ counted n last' = ground arith in
      (
        l,
        scan_last a ls (k + 1) (some l) n last' h' (omega arith),
        all.0,
        unset,
        λ ρ ext.
            ⊎_elim (λ p. p)
              (λ p. absurd ((scan_none ρ a ls (k + 1) (some l) n last' h' (omega arith) ext) p)),
      )
  | inr (inl holds) ↦ absurd (ground arith)
  | inr (inr (given, off)) ↦
      let (x, is, px, unset, sound) = scan_one P a ls k last n last' (ground arith) e all.1 in
      (
        x,
        is,
        px,
        unset,
        λ ρ ext.
            ⊎_elim (λ p. absurd (not-Holds ρ l (value a (var l)) given off (ext (var l)) p))
              (sound ρ ext),
      )
]

-- If no literal is undefined, the count stays.
pub scan_total :
    (a : List Value) (ls : List Lit) (k : ℕ) (last : Option Lit) (n : ℕ) (last' : Option Lit)
    → scan a ls k last ≡ counted n last'
    → All (λ l. value a (var l) ≢ undef) ls
    → n ≡ k
unfolding scan
scan_total a [] k last n last' h all = ground arith
scan_total a (l ∷ ls) k last n last' h all = ground (arith, scan_total a ls k last n last')
