-- ===== src/Sat/Sound.antt =====
-- The answers of the solver are right, and it always answers.
use lib_apg.Base.{
  ℕ, suc, ◌≤◌, ◌<◌, ◌≡◌, refl, ◌≢◌, inl, inr, Bool, true, false, List, [], ◌∷◌, Option, none, some,
  arith, replicate, length-replicate, get_or-replicate, ◌&&◌, sym, subst, All, Allocs, granted,
  later, ◌==◌, ==_iff, if◌then◌else◌,
}
use mathlib.Core.Logic.{⊎_elim}
use lib_apg.Sat.Clause.{Lit, pos, neg, var, agrees, Value, undef, yea, value, Clause, Model}
use lib_apg.Sat.Search.{Search, Verdict, found, failed, out_of_fuel, var_count, dpll}
use lib_apg.Sat.Scan.{
  Holds, HoldsSome, Satisfies, Fits, Extends, TrueSome, scan-satisfied, scan_total,
}
use lib_apg.Sat.Trail.{undefs-le}
use lib_apg.Sat.Visit.{LitOk, ClausesOk, Settled}
use lib_apg.Sat.Post.{Post}
use lib_apg.Sat.Dpll.{dpll-Post}
use lib_apg.Sat.Solve.{
  SatResult, Message, satisfiable, unsatisfiable, budget_exceeded, error, stuck, initial, conclude,
  solve_core, explanation,
}

-- The model that `sat_model_build` and `sat_model_force` make: literals of its variables, and no
-- empty clause.
pub record ModelOk (m : Model) : Type 0 where
  pub clauses_ok : ClausesOk (suc (var_count m)) m.clauses
  pub nonempty : All (λ c. c.lits ≢ []) m.clauses

abbrev pub is_yea : Value → Bool
is_yea yea = true
is_yea _ = false

-- The total assignment that the solver returns: `assignment[v] == 1`.
abbrev pub chosen : Option (List Value) → ℕ → Bool
chosen none v = false
chosen (some a) v = is_yea (value a v)

TrueSome-HoldsSome :
    (a : List Value) (ls : List Lit) → TrueSome a ls → HoldsSome (chosen (some a)) ls
TrueSome-HoldsSome a [] h = h
TrueSome-HoldsSome a (l ∷ ls) h =
    ⊎_elim (λ p. inl (by_sign l p)) (λ p. inr (TrueSome-HoldsSome a ls p)) h
  where
    by_sign : (k : Lit) → agrees k (value a (var k)) ≡ true → Holds (chosen (some a)) k
    by_sign (pos v) p = ground arith
    by_sign (neg v) p = ground arith

module _ (m : Model) where
  All-defined :
      (a : List Value) (ls : List Lit)
      → ((v : ℕ) → 0 < v → v < suc (var_count m) → value a v ≢ undef)
      → All (LitOk (suc (var_count m))) ls
      → All (λ l. value a (var l) ≢ undef) ls
  All-defined a [] full good = tt
  All-defined a (l ∷ ls) full good = (full (var l) good.0.0 good.0.1, All-defined a ls full good.1)

  Settled-HoldsSome :
      (a : List Value) (cl : Clause)
      → ((v : ℕ) → 0 < v → v < suc (var_count m) → value a v ≢ undef)
      → All (LitOk (suc (var_count m))) cl.lits
      → Settled a cl
      → HoldsSome (chosen (some a)) cl.lits
  Settled-HoldsSome a cl full good (inl e) =
      TrueSome-HoldsSome a cl.lits (scan-satisfied a cl.lits 0 none e)
  Settled-HoldsSome a cl full good (inr (n, last, e, two)) =
      absurd (omega (arith, scan_total a cl.lits 0 none n last e (All-defined a cl.lits full good)))

  Settled-Satisfies :
      (a : List Value) (cs : List Clause)
      → ((v : ℕ) → 0 < v → v < suc (var_count m) → value a v ≢ undef)
      → ClausesOk (suc (var_count m)) cs
      → All (Settled a) cs
      → Satisfies (chosen (some a)) cs
  Settled-Satisfies a [] full good h = tt
  Settled-Satisfies a (cl ∷ cs) full good h =
      (Settled-HoldsSome a cl full good.0 h.0, Settled-Satisfies a cs full good.1 h.1)

  -- With no variable there is no clause.
  none-Satisfies :
      (cs : List Clause)
      → var_count m ≡ 0
      → ClausesOk (suc (var_count m)) cs
      → All (λ c. c.lits ≢ []) cs
      → Satisfies (chosen none) cs
  none-Satisfies [] e good full = tt
  none-Satisfies (cl ∷ cs) e good full =
      (absurd (full.0 (no_lits cl.lits good.0)), none-Satisfies cs e good.1 full.1)
    where
      no_lits : (ls : List Lit) → All (LitOk (suc (var_count m))) ls → ls ≡ []
      no_lits [] h = refl
      no_lits (l ∷ ls) h = absurd (omega arith)

  -- The first call of `dpll`.
  module _ (ok : ModelOk m) (budget : ℕ) (reverse_order prefer_false : Bool)
      (cancel : List Bool) where
    abbrev run : Verdict × Search
    run = dpll m budget reverse_order prefer_false (suc (suc (var_count m))) (initial m cancel)

    pub run-Post : Post m budget reverse_order prefer_false (initial m cancel) run
    run-Post =
        let size = length-replicate (suc (var_count m)) undef in
        dpll-Post m budget reverse_order prefer_false (suc (suc (var_count m))) (initial m cancel)
          ok.clauses_ok size (omega (arith, undefs-le (replicate (suc (var_count m)) undef), size))

    Extends-initial : (ρ : ℕ → Bool) → Extends ρ (replicate (suc (var_count m)) undef)
    Extends-initial ρ v =
        subst (λ x. Fits x (ρ v)) (sym (get_or-replicate (suc (var_count m)) v undef)) tt

    -- What each answer means.
    abbrev Meaning : SatResult → Type 0
    Meaning (satisfiable o) = Satisfies (chosen o) m.clauses
    Meaning (unsatisfiable e) = (ρ : ℕ → Bool) → ¬ Satisfies ρ m.clauses
    Meaning budget_exceeded = Unit
    Meaning error = Unit
    Meaning stuck = ⊥

    flags-Meaning :
        (a b : Bool) (r : SatResult)
        → (a ≡ false → b ≡ false → Meaning r)
        → Meaning (if a then error else if b then budget_exceeded else r)
    flags-Meaning true b r h = tt
    flags-Meaning false true r h = tt
    flags-Meaning false false r h = h refl refl

    conclude-Meaning :
        (allocs : Allocs) (r : Verdict × Search)
        → Post m budget reverse_order prefer_false (initial m cancel) r
        → Meaning (conclude m allocs r)
    unfolding conclude
    conclude-Meaning allocs (found, s) p =
        flags-Meaning s.aborted s.timed_out (satisfiable (some s.assign))
          (λ _ _. Settled-Satisfies s.assign m.clauses p.complete ok.clauses_ok p.settled)
    conclude-Meaning allocs (failed, s) p =
        flags-Meaning s.aborted s.timed_out (unsatisfiable (explanation m allocs s))
          (λ f e ρ. (p.refuted e f).0 ρ (Extends-initial ρ))
    conclude-Meaning allocs (out_of_fuel, s) p = p

    solve_core-Meaning :
        (allocs : Allocs) → Meaning (solve_core m budget cancel reverse_order prefer_false allocs)
    unfolding solve_core
    solve_core-Meaning allocs = by_vars (var_count m == 0) refl
      where
        by_vars :
            (b : Bool)
            → (var_count m == 0) ≡ b
            → Meaning (
                if b
                then satisfiable none
                else if granted allocs && granted (later allocs) && granted (later (later allocs))
                then conclude m (later (later (later allocs))) run
                else error)
        by_vars true e =
            none-Satisfies m.clauses ((==_iff (var_count m) 0).0 e) ok.clauses_ok ok.nonempty
        by_vars false e =
            elim (granted allocs && granted (later allocs) && granted (later (later allocs)))
              as (λ b.
                Meaning (if b then conclude m (later (later (later allocs))) run else error)) [
                  | true ↦ conclude-Meaning (later (later (later allocs))) run run-Post
                  | false ↦ tt
                ]

    -- If the solver answers SATISFIABLE to a model that is `ModelOk`, the assignment that it
    -- returns satisfies every clause, for every budget, variable order, polarity, cancellation and outcome of the allocations.
    pub solve_core-satisfiable :
        (allocs : Allocs) (o : Option (List Value))
        → solve_core m budget cancel reverse_order prefer_false allocs ≡ satisfiable o
        → Satisfies (chosen o) m.clauses
    solve_core-satisfiable allocs o e = subst Meaning e (solve_core-Meaning allocs)

    -- If the solver answers UNSATISFIABLE to a model that is `ModelOk`, no assignment satisfies every clause.
    pub solve_core-unsatisfiable :
        (allocs : Allocs) (e : Option Message)
        → solve_core m budget cancel reverse_order prefer_false allocs ≡ unsatisfiable e
        → (ρ : ℕ → Bool) → ¬ Satisfies ρ m.clauses
    solve_core-unsatisfiable allocs e h = subst Meaning h (solve_core-Meaning allocs)

    -- On a model that is `ModelOk` the solver does not run out of fuel: its recursion has a fuel of two more than the
    -- number of variables, and so has the loop of each propagation.
    pub solve_core_terminates :
        (allocs : Allocs) → solve_core m budget cancel reverse_order prefer_false allocs ≢ stuck
    solve_core_terminates allocs h = subst Meaning h (solve_core-Meaning allocs)

    -- On a model that is `ModelOk` the search makes no more decisions than the budget allows.
    pub decisions-le-budget : run.1.decisions ≤ budget
    decisions-le-budget = by_verdict run run-Post
      where
        by_verdict :
            (r : Verdict × Search)
            → Post m budget reverse_order prefer_false (initial m cancel) r
            → r.1.decisions ≤ budget
        by_verdict (found, s) p = p.decisions (omega arith)
        by_verdict (failed, s) p = p.decisions (omega arith)
        by_verdict (out_of_fuel, s) p = absurd p
