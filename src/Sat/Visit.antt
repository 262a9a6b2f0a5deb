-- ===== src/Sat/Visit.antt =====
-- One visit of a clause in `propagate` of src/graph/sat_solve.c.
use native.Mathlib.Decide.{ℕ_discrete}
use lib_apg.Base.{
  ℕ, zero, suc, ◌≤◌, ◌<◌, ◌≡◌, refl, ◌≢◌, ◌⊎◌, inl, inr, Bool, true, false, List, [], ◌∷◌, Option,
  none, some, get_or, set, length, get_or-set_self, get_or-set_ne, arith, sym, ◌∙◌, subst, All,
  Bool-cases, ◌==◌,
}
use lib_apg.Sat.Clause.{
  Lit, pos, neg, var, wanted, Value, undef, value, Clause, Model, Scan, scan, satisfied, counted,
}
use lib_apg.Sat.Search.{
  Search, imply, Visit, quiet, implied, clashing, blame, visit_counted, visit, forced_at,
}
use lib_apg.Sat.Scan.{Holds, HoldsSome, Fits, Extends, scan_none, scan_one}
use lib_apg.Sat.Trail.{Grew, stay, push, Grew-trans, Grew-undefs, undefs, InRange, antecedent-set}

-- The variable of a literal is the index of a cell of `assign`, and not of cell 0.
abbrev pub LitOk : ℕ → Lit → Type 0
LitOk size l = (0 < var l) × (var l < size)

abbrev pub ClausesOk : ℕ → List Clause → Type 0
ClausesOk size cs = All (λ c. All (LitOk size) c.lits) cs

-- The clause has a true literal, or two undefined ones.
abbrev pub Settled : List Value → Clause → Type 0
Settled a cl =
    (scan a cl.lits 0 none ≡ satisfied)
    ⊎ ((n : ℕ) × (last : Option Lit) × (scan a cl.lits 0 none ≡ counted n last) × (2 ≤ n))

-- What propagation does to the state, whatever it finds.
pub record Advances (total : ℕ) (s s' : Search) : Type 0 where
  pub grew : Grew s.assign s.trail s'.assign s'.trail
  pub decisions : s'.decisions ≡ s.decisions
  pub timed_out : s'.timed_out ≡ s.timed_out
  pub aborted : s'.aborted ≡ s.aborted
  pub in_range : InRange total s → InRange total s'

pub Advances-refl : (total : ℕ) (s : Search) → Advances total s s
Advances-refl total s = record {
  grew = stay;
  decisions = refl;
  timed_out = refl;
  aborted = refl;
  in_range = λ r. r;
}

pub Advances-trans :
    (total : ℕ) (s t u : Search) → Advances total s t → Advances total t u → Advances total s u
Advances-trans total s t u p q = record {
  grew = Grew-trans p.grew q.grew;
  decisions = q.decisions ∙ p.decisions;
  timed_out = q.timed_out ∙ p.timed_out;
  aborted = q.aborted ∙ p.aborted;
  in_range = λ r. q.in_range (p.in_range r);
}

-- A total assignment that agrees with the new value extends the new assignment.
pub Extends-set :
    (ρ : ℕ → Bool) (a : List Value) (v : ℕ) (x : Value)
    → v < length a
    → Extends ρ a
    → Fits x (ρ v)
    → Extends ρ (set a v x)
Extends-set ρ a v x lt ext h w = elim (ℕ_discrete v w) [
  | yes e ↦
      subst (λ w. Fits (value (set a v x) w) (ρ w)) e
        (subst (λ y. Fits y (ρ v)) (sym (get_or-set_self a v x undef lt)) h)
  | no ne ↦ subst (λ y. Fits y (ρ w)) (sym (get_or-set_ne a v w x undef ne)) (ext w)
]

Fits-wanted : (ρ : ℕ → Bool) (l : Lit) → Holds ρ l → Fits (wanted l) (ρ (var l))
Fits-wanted ρ (pos w) p = p
Fits-wanted ρ (neg w) p = p

wanted-ne-undef : (l : Lit) → wanted l ≢ undef
wanted-ne-undef (pos v) = λ e. cc
wanted-ne-undef (neg v) = λ e. cc

module _ (m : Model) where
  abbrev pub total : ℕ
  total = length m.clauses

  -- The blamed clause is a clause of the model.
  blame-lt :
      (ls : List Lit) (ante : List (Option ℕ)) (c : ℕ)
      → c < total
      → ((v k : ℕ) → get_or ante v none ≡ some k → k < total)
      → blame m ls ante c < total
  unfolding blame
  blame-lt [] ante c lt all = lt
  blame-lt (l ∷ ls) ante c lt all =
      by_antecedent (get_or ante (var l) none) (all (var l)) (blame-lt ls ante c lt all)
    where
      by_antecedent :
          (o : Option ℕ)
          → ((k : ℕ) → o ≡ some k → k < total)
          → blame m ls ante c < total
          → (elim o [
            | none ↦ blame m ls ante c
            | some k ↦ elim (forced_at m k) [ true ↦ blame m ls ante c | false ↦ k ]
          ])
            < total
      by_antecedent none h ih = ih
      by_antecedent (some k) h ih = elim (Bool-cases (forced_at m k)) [
        | inl e ↦ ground (arith, h k refl)
        | inr e ↦ ground (arith, h k refl)
      ]

  abbrev pub VisitPost : ℕ → Clause → Search → Visit → Type 0
  VisitPost c cl s quiet = Settled s.assign cl
  VisitPost c cl s (implied s') =
      Advances total s s'
      × (undefs s'.assign < undefs s.assign)
      × ((ρ : ℕ → Bool) → Extends ρ s.assign → HoldsSome ρ cl.lits → Extends ρ s'.assign)
  VisitPost c cl s (clashing s') =
      Advances total s s'
      × ((ρ : ℕ → Bool) → Extends ρ s.assign → ¬ HoldsSome ρ cl.lits)
      × ((k : ℕ) × (s'.clash ≡ some k))

  imply-Post :
      (c : ℕ) (cl : Clause) (s : Search) (l : Lit)
      → c < total
      → LitOk (length s.assign) l
      → value s.assign (var l) ≡ undef
      → ((ρ : ℕ → Bool) → Extends ρ s.assign → HoldsSome ρ cl.lits → Holds ρ l)
      → VisitPost c cl s (implied (imply c l s))
  imply-Post c cl s l lt good unset sound =
      let grew : Grew s.assign s.trail (set s.assign (var l) (wanted l)) (var l ∷ s.trail) =
        push (var l) (wanted l) stay unset good.1 (wanted-ne-undef l) in
      (
        record {
          grew = grew;
          decisions = refl;
          timed_out = refl;
          aborted = refl;
          in_range = λ r. record {
            antecedent_lt =
                antecedent-set total s.antecedent (var l) (some c) r.antecedent_lt
                  (λ k h. ground arith);
            clash_lt = r.clash_lt;
          };
        },
        omega (arith, Grew-undefs grew),
        λ ρ ext holds.
            Extends-set ρ s.assign (var l) (wanted l) good.1 ext
              (Fits-wanted ρ l (sound ρ ext holds)),
      )

  pub visit-Post :
      (c : ℕ) (cl : Clause) (s : Search)
      → c < total
      → All (LitOk (length s.assign)) cl.lits
      → VisitPost c cl s (visit m c cl s)
  unfolding visit visit_counted
  visit-Post c cl s lt good = by_scan (scan s.assign cl.lits 0 none) refl
    where
      by_scan :
          (r : Scan)
          → scan s.assign cl.lits 0 none ≡ r
          → VisitPost c cl s
              (elim r [ satisfied ↦ quiet | counted n last ↦ visit_counted m c cl s n last ])
      by_scan satisfied e = inl e
      by_scan (counted zero last) e = (
        record {
          grew = stay;
          decisions = refl;
          timed_out = refl;
          aborted = refl;
          in_range = λ r. record {
            antecedent_lt = r.antecedent_lt;
            clash_lt = λ k h. ground (arith, blame-lt cl.lits s.antecedent c lt r.antecedent_lt);
          };
        },
        λ ρ ext. scan_none ρ s.assign cl.lits 0 none zero last e refl ext,
        (blame m cl.lits s.antecedent c, refl),
      )
      by_scan (counted (suc zero) last) e =
          let (l, is, good_l, unset, sound) =
            scan_one (LitOk (length s.assign)) s.assign cl.lits 0 none (suc zero) last e refl
              good in
          subst (λ o. VisitPost c cl s (visit_counted m c cl s 1 o)) (sym is)
            (imply-Post c cl s l lt good_l unset sound)
      by_scan (counted (suc (suc n)) last) e =
          let not_none : (suc (suc n) == 0) ≡ false = ground arith in
          let not_one : (suc (suc n) == 1) ≡ false = ground arith in
          rw (not_none, not_one) (inr (suc (suc n), last, e, omega arith))
