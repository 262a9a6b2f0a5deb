-- ===== src/Sat/Parallel.antt =====
-- The portfolio of `sat_solve_parallel` and its workers, src/graph/sat_solve.c.
use lib_apg.Base.{
  ℕ, ◌/◌, ◌%◌, ◌≡◌, refl, sym, ap, ◌∙◌, ◌≢◌, inl, inr, Bool, true, false, not, ◌&&◌, List, [], ◌∷◌,
  Option, arith, Bool-cases, Allocs, granted, later, ◌==◌, leb, if◌then◌else◌, if_rule, subst, ◌<◌,
}
use lib_apg.Sat.Clause.{Value, Model}
use lib_apg.Sat.Scan.{Satisfies}
use lib_apg.Sat.Solve.{
  SatResult, Message, satisfiable, unsatisfiable, budget_exceeded, error, stuck, solve_core,
  sat_solve,
}
use lib_apg.Sat.Sound.{
  ModelOk, chosen, solve_core-satisfiable, solve_core-unsatisfiable, solve_core_terminates,
}

-- A worker that has returned from `solve_core`: its number, what its loads of the cancel flag
-- returned, and the outcomes of its allocations.
pub record Finish : Type 0 where
  pub worker : ℕ
  pub cancel : List Bool
  pub allocs : Allocs

-- What the workers share under `result_lock`.
pub record Shared : Type 0 where
  pub result_set : Bool
  pub final_result : SatResult

abbrev pub is_decided : SatResult → Bool
is_decided (satisfiable o) = true
is_decided (unsatisfiable e) = true
is_decided _ = false

-- The critical section of `sat_worker_fn`.
unfoldable pub commit : SatResult → Shared → Shared
commit r sh =
    if is_decided r && not sh.result_set then record { result_set = true; final_result = r } else sh

commit-kept : (r : SatResult) (sh : Shared) → sh.result_set ≡ true → commit r sh ≡ sh
unfolding commit
commit-kept r sh e = ground arith

commit-decided :
    (r : SatResult) (sh : Shared)
    → is_decided r ≡ true
    → sh.result_set ≡ false
    → commit r sh ≡ record { result_set = true; final_result = r }
unfolding commit
commit-decided r sh d e = rw (d, e)

commit-undecided : (r : SatResult) (sh : Shared) → is_decided r ≡ false → commit r sh ≡ sh
unfolding commit
commit-undecided r sh d = rw d

module _ (m : Model) (budget : ℕ) where
  -- `reverse_order = (i & 1) != 0` and `prefer_false = (i & 2) != 0`
  unfoldable pub worker_result : Finish → SatResult
  worker_result f =
      solve_core m budget f.cancel (f.worker % 2 == 1) (f.worker / 2 % 2 == 1) f.allocs

  -- The workers in the order in which they take the lock.
  unfoldable pub run_workers : List Finish → Shared → Shared
  run_workers [] sh = sh
  run_workers (f ∷ fs) sh = run_workers fs (commit (worker_result f) sh)

  unfoldable pub outcome : Shared → SatResult
  outcome sh = if sh.result_set then sh.final_result else budget_exceeded

  abbrev pub no_result : Shared
  no_result = record { result_set = false; final_result = error }

  -- A thread count that is not above 1 is 0 or 1 here.
  unfoldable pub sat_solve_parallel : ℕ → List Finish → Allocs → SatResult
  unfolding run_workers outcome worker_result commit sat_solve
  sat_solve_parallel thread_count finishes allocs =
      if leb thread_count 1
      then sat_solve m budget allocs
      else if granted allocs && granted (later allocs) && granted (later (later allocs))
      then outcome (run_workers finishes no_result)
      else sat_solve m budget (later (later (later allocs)))

  module _ (ok : ModelOk m) where
    -- What an answer means.
    abbrev pub Right : SatResult → Type 0
    Right (satisfiable o) = Satisfies (chosen o) m.clauses
    Right (unsatisfiable e) = (ρ : ℕ → Bool) → ¬ Satisfies ρ m.clauses
    Right budget_exceeded = Unit
    Right error = Unit
    Right stuck = ⊥

    solve_core-Right :
        (cancel : List Bool) (reverse_order prefer_false : Bool) (allocs : Allocs)
        → Right (solve_core m budget cancel reverse_order prefer_false allocs)
    solve_core-Right cancel reverse_order prefer_false allocs =
        by_result (solve_core m budget cancel reverse_order prefer_false allocs) refl
      where
        by_result :
            (r : SatResult)
            → solve_core m budget cancel reverse_order prefer_false allocs ≡ r
            → Right r
        by_result (satisfiable o) e =
            solve_core-satisfiable m ok budget reverse_order prefer_false cancel allocs o e
        by_result (unsatisfiable c) e =
            solve_core-unsatisfiable m ok budget reverse_order prefer_false cancel allocs c e
        by_result budget_exceeded e = tt
        by_result error e = tt
        by_result stuck e =
            solve_core_terminates m ok budget reverse_order prefer_false cancel allocs e

    sat_solve-Right : (allocs : Allocs) → Right (sat_solve m budget allocs)
    unfolding sat_solve
    sat_solve-Right allocs = solve_core-Right [] false false allocs

    commit-Right :
        (r : SatResult) (sh : Shared)
        → Right r
        → Right sh.final_result
        → Right (commit r sh).final_result
    unfolding commit
    commit-Right r sh p q = elim (Bool-cases (is_decided r && not sh.result_set)) [
      | inl e ↦ rw (e, commit) p
      | inr e ↦ rw (e, commit) q
    ]

    run_workers-Right :
        (fs : List Finish) (sh : Shared)
        → Right sh.final_result
        → Right (run_workers fs sh).final_result
    unfolding run_workers worker_result
    run_workers-Right [] sh p = p
    run_workers-Right (f ∷ fs) sh p = run_workers-Right fs (commit (worker_result f) sh) (
        commit-Right (worker_result f) sh
          (solve_core-Right f.cancel (f.worker % 2 == 1) (f.worker / 2 % 2 == 1) f.allocs) p)

    outcome-Right : (sh : Shared) → Right sh.final_result → Right (outcome sh)
    unfolding outcome
    outcome-Right sh p = elim (Bool-cases sh.result_set) [
      | inl e ↦ rw (e, outcome) p
      | inr e ↦ rw (e, outcome) tt
    ]

    sat_solve_parallel-Right :
        (thread_count : ℕ) (finishes : List Finish) (allocs : Allocs)
        → Right (sat_solve_parallel thread_count finishes allocs)
    unfolding sat_solve_parallel
    sat_solve_parallel-Right thread_count finishes allocs =
        if_rule Right (leb thread_count 1) (λ _. sat_solve-Right allocs)
          (λ _.
            if_rule Right
              (granted allocs && granted (later allocs) && granted (later (later allocs)))
              (λ _.
                outcome-Right (run_workers finishes no_result)
                  (run_workers-Right finishes no_result tt))
              (λ _. sat_solve-Right (later (later (later allocs)))))

    module _ (thread_count : ℕ) (finishes : List Finish) (allocs : Allocs) where
      -- If the portfolio answers SATISFIABLE to a model that is `ModelOk`, its assignment satisfies every clause, whatever the
      -- thread count, the order in which the workers finish, what they read from the cancel flag and
      -- which allocations fail.
      pub sat_solve_parallel-satisfiable :
          (o : Option (List Value))
          → sat_solve_parallel thread_count finishes allocs ≡ satisfiable o
          → Satisfies (chosen o) m.clauses
      sat_solve_parallel-satisfiable o h =
          subst Right h (sat_solve_parallel-Right thread_count finishes allocs)

      -- If the portfolio answers UNSATISFIABLE to a model that is `ModelOk`, no assignment satisfies every clause.
      pub sat_solve_parallel-unsatisfiable :
          (e : Option Message)
          → sat_solve_parallel thread_count finishes allocs ≡ unsatisfiable e
          → (ρ : ℕ → Bool) → ¬ Satisfies ρ m.clauses
      sat_solve_parallel-unsatisfiable e h =
          subst Right h (sat_solve_parallel-Right thread_count finishes allocs)

      pub sat_solve_parallel_terminates : sat_solve_parallel thread_count finishes allocs ≢ stuck
      sat_solve_parallel_terminates h =
          subst Right h (sat_solve_parallel-Right thread_count finishes allocs)

  -- The answer of the first worker that decided, in the order of the lock.
  pub first_decided : List Finish → SatResult
  first_decided [] = budget_exceeded
  first_decided (f ∷ fs) =
      if is_decided (worker_result f) then worker_result f else first_decided fs

  run_workers-kept :
      (fs : List Finish) (sh : Shared) → sh.result_set ≡ true → run_workers fs sh ≡ sh
  unfolding run_workers
  run_workers-kept [] sh e = refl
  run_workers-kept (f ∷ fs) sh e =
      let kept : commit (worker_result f) sh ≡ sh = commit-kept (worker_result f) sh e in
      rw kept (run_workers-kept fs sh e)

  outcome-first_decided :
      (fs : List Finish) (sh : Shared)
      → sh.result_set ≡ false
      → outcome (run_workers fs sh) ≡ first_decided fs
  unfolding run_workers outcome first_decided
  outcome-first_decided [] sh e = rw e
  outcome-first_decided (f ∷ fs) sh e = elim (Bool-cases (is_decided (worker_result f))) [
    | inl d ↦
        let won : commit (worker_result f) sh
            ≡ record { result_set = true; final_result = worker_result f } =
          commit-decided (worker_result f) sh d e in
        let first : first_decided (f ∷ fs) ≡ worker_result f = rw (d, first_decided) in
        ap (λ t. outcome (run_workers fs t)) won
        ∙ ap outcome (
            run_workers-kept fs (record { result_set = true; final_result = worker_result f }) refl)
        ∙ sym first
    | inr n ↦
        let lost : commit (worker_result f) sh ≡ sh = commit-undecided (worker_result f) sh n in
        let next : first_decided (f ∷ fs) ≡ first_decided fs = rw (n, first_decided) in
        ap (λ t. outcome (run_workers fs t)) lost ∙ outcome-first_decided fs sh e ∙ sym next
  ]

  -- With enough threads and memory the portfolio's answer is that of the first worker to take the
  -- lock that decided, and BUDGET_EXCEEDED if none did: later answers are dropped.
  pub sat_solve_parallel-first_decided :
      (thread_count : ℕ) (finishes : List Finish)
      → 1 < thread_count
      → sat_solve_parallel thread_count finishes [] ≡ first_decided finishes
  unfolding sat_solve_parallel
  sat_solve_parallel-first_decided thread_count finishes h =
      let many : leb thread_count 1 ≡ false = ground arith in
      rw many (outcome-first_decided finishes no_result refl)
