-- ===== src/Sat/Solve.antt =====
-- The solver's entry points, `solve_core`, `explain_conflict`, `sat_solve` and
-- `sat_solve_parallel` of src/graph/sat_solve.c.
use lib_apg.Base.{
  ℕ, suc, ◌-◌, Bool, false, ◌&&◌, List, [], ◌∷◌, Option, none, some, get_elem?, replicate, ◌==◌,
  if◌then◌else◌, Allocs, granted, later,
}
use lib_apg.CString.{CStr}
use lib_apg.Sat.Clause.{Lit, var, Value, undef, dependency, conflict, forced, Clause, Model}
use lib_apg.Sat.Search.{Search, Verdict, found, failed, out_of_fuel, var_count, dpll}

-- The text of an explanation: the format and its arguments.
pub data Message : Type 0 where
  empty_clause : Message
  requires conflicts : CStr → CStr → Message
  required : CStr → Message

-- `satisfiable none` is SATISFIABLE with a NULL assignment, and `unsatisfiable none` has no text.
-- The last one is the model's own: the search ran out of fuel.
pub data SatResult : Type 0 where
  satisfiable : Option (List Value) → SatResult
  unsatisfiable : Option Message → SatResult
  budget_exceeded error stuck : SatResult

abbrev pub unknown : CStr
unknown = b'?' ∷ []

abbrev pub text_or_unknown : Option CStr → CStr
text_or_unknown none = unknown
text_or_unknown (some t) = t

module _ (m : Model) where
  -- `pkg_name_or_unknown(m->vars[v - 1])`; `none` is a read outside the array.
  unfoldable pub name_of : ℕ → Option CStr
  name_of v = elim (get_elem? m.vars (v - 1)) [
    | none ↦ none
    | some p ↦ some (text_or_unknown p.name)
  ]

  -- `var` of the second literal of a conflict clause.
  unfoldable pub explain_pair : CStr → List Lit → Option Message
  explain_pair name0 [] = none
  explain_pair name0 (l ∷ _) = elim (name_of (var l)) [
    | none ↦ none
    | some name1 ↦ some (conflicts name0 name1)
  ]

  unfoldable pub explain_named : Clause → List Lit → CStr → Option Message
  explain_named cl rest name0 = elim cl.kind [
    | dependency ↦ some (requires name0 (text_or_unknown cl.dep_name))
    | conflict ↦ explain_pair name0 rest
    | forced ↦ some (required name0)
  ]

  unfoldable pub explain_clause : Clause → List Lit → Option Message
  explain_clause cl [] = some empty_clause
  explain_clause cl (l ∷ rest) = elim (name_of (var l)) [
    | none ↦ none
    | some name0 ↦ explain_named cl rest name0
  ]

  -- `none` is a read outside an array.
  unfoldable pub explain_conflict : ℕ → Option Message
  unfolding explain_clause explain_named explain_pair name_of
  explain_conflict k = elim (get_elem? m.clauses k) [
    | none ↦ none
    | some cl ↦ explain_clause cl cl.lits
  ]

  -- The text for `*out_conflict`: NULL without a conflict, or if `fmt` cannot allocate.
  unfoldable pub explanation : Allocs → Search → Option Message
  explanation allocs s = elim s.clash [
    | none ↦ none
    | some k ↦ if granted allocs then explain_conflict k else none
  ]

  -- `calloc`, and the loop that sets every antecedent to SIZE_MAX.
  abbrev pub initial : List Bool → Search
  initial cancel = record {
    assign = replicate (suc (var_count m)) undef;
    antecedent = replicate (suc (var_count m)) none;
    trail = [];
    decisions = 0;
    timed_out = false;
    clash = none;
    aborted = false;
    cancel = cancel;
  }

  unfoldable pub conclude : Allocs → Verdict × Search → SatResult
  conclude allocs (out_of_fuel, s) = stuck
  conclude allocs (found, s) =
      if s.aborted
      then error
      else if s.timed_out
      then budget_exceeded
      else satisfiable (some s.assign)
  conclude allocs (failed, s) =
      if s.aborted
      then error
      else if s.timed_out
      then budget_exceeded
      else unsatisfiable (explanation allocs s)

  -- Fuel: a call of `dpll` below another one has one undefined variable less.
  unfoldable pub solve_core : ℕ → List Bool → Bool → Bool → Allocs → SatResult
  unfolding conclude
  solve_core budget cancel reverse_order prefer_false allocs =
      if var_count m == 0
      then satisfiable none
      else if granted allocs && granted (later allocs) && granted (later (later allocs))
      then conclude (later (later (later allocs)))
          (dpll m budget reverse_order prefer_false (suc (suc (var_count m))) (initial cancel))
      else error

  unfoldable pub sat_solve : ℕ → Allocs → SatResult
  sat_solve budget allocs = solve_core budget [] false false allocs
