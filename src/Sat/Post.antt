-- ===== src/Sat/Post.antt =====
-- What one call of `dpll` of src/graph/sat_solve.c promises.
use lib_apg.Base.{ℕ, suc, ◌≤◌, ◌<◌, ◌≡◌, ◌≢◌, Bool, false, List, some, length, All}
use lib_apg.Sat.Clause.{Value, undef, value, Model}
use lib_apg.Sat.Search.{Search, Verdict, found, failed, out_of_fuel, var_count}
use lib_apg.Sat.Scan.{Satisfies, Extends}
use lib_apg.Sat.Trail.{Grew, undefs, InRange}
use lib_apg.Sat.Visit.{Settled, total}

module _ (m : Model) (budget : ℕ) (reverse_order prefer_false : Bool) where
  -- No variable is undefined.
  abbrev pub Complete : List Value → Type 0
  Complete a = (v : ℕ) → 0 < v → v < suc (var_count m) → value a v ≢ undef

  pub record FoundPost (s s' : Search) : Type 0 where
    pub grew : Grew s.assign s.trail s'.assign s'.trail
    pub settled : All (Settled s'.assign) m.clauses
    pub complete : Complete s'.assign
    pub decisions : s.decisions ≤ budget → s'.decisions ≤ budget

  pub record FailedPost (s s' : Search) : Type 0 where
    pub assign : s'.assign ≡ s.assign
    pub trail : s'.trail ≡ s.trail
    pub decisions : s.decisions ≤ budget → s'.decisions ≤ budget
    pub in_range : InRange (total m) s → InRange (total m) s'
    pub refuted :
        s'.timed_out ≡ false
        → s'.aborted ≡ false
        → ((ρ : ℕ → Bool) → Extends ρ s.assign → ¬ Satisfies ρ m.clauses)
          × ((k : ℕ) × (s'.clash ≡ some k))

  abbrev pub Post : Search → Verdict × Search → Type 0
  Post s (found, s') = FoundPost s s'
  Post s (failed, s') = FailedPost s s'
  Post s (out_of_fuel, s') = ⊥

  abbrev pub Sized : Search → Type 0
  Sized s = length s.assign ≡ suc (var_count m)

  abbrev pub RecOk : ℕ → (Search → Verdict × Search) → Type 0
  RecOk fuel rec = (t : Search) → Sized t → undefs t.assign < fuel → Post t (rec t)
