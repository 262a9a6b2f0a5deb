-- ===== src/Tests/SatRuns.antt =====
-- Runs of the solver of src/graph/sat_solve.c.
use lib_apg.Base.{
  ℕ, ◌≤◌, ◌≡◌, refl, ◌≢◌, Bool, true, false, List, [], ◌∷◌, none, some, arith, All, length,
}
use lib_apg.CString.{CStr}
use lib_apg.Package.{Package}
use lib_apg.Sat.Clause.{
  Lit, pos, neg, Value, undef, yea, nay, dependency, conflict, forced, Model, scan,
}
use lib_apg.Sat.Scan.{Satisfies}
use lib_apg.Sat.Search.{
  dpll, enter, explore, propagate, sweep, visit, visit_counted, decide, pick_var, undo_from, blame,
}
use lib_apg.Sat.Solve.{
  Message, requires, satisfiable, unsatisfiable, stuck, initial, solve_core, explanation,
  explain_conflict,
}
use lib_apg.Sat.Sound.{
  ModelOk, chosen, solve_core-satisfiable, solve_core-unsatisfiable, solve_core_terminates,
  decisions-le-budget,
}
use lib_apg.Sat.Parallel.{
  Finish, sat_solve_parallel, worker_result, sat_solve_parallel-satisfiable,
  sat_solve_parallel-unsatisfiable, sat_solve_parallel-first_decided, first_decided,
}
use lib_apg.Sat.Explain.{solve_core_explains}

nonempty_lits : (l : Lit) (ls : List Lit) → (l ∷ ls) ≢ []
nonempty_lits l ls e = cc

abbrev bare_package : ℕ → CStr → Package
bare_package addr name = record {
  addr = addr;
  name = some name;
  version = none;
  dependencies = [];
  conflicts = [];
  provides = [];
  replaces = [];
}

abbrev app : Package
app = bare_package 8 (b'a' ∷ [])

abbrev lib1 : Package
lib1 = bare_package 16 (b'l' ∷ [])

abbrev lib2 : Package
lib2 = bare_package 24 (b'm' ∷ [])

-- The application needs one of two libraries, and conflicts with the first.
abbrev two_libs : Model
two_libs = record {
  vars = app ∷ lib1 ∷ lib2 ∷ [];
  clauses =
      record { lits = pos 1 ∷ []; kind = forced; dep_name = none }
      ∷ record { lits = neg 1 ∷ pos 2 ∷ pos 3 ∷ []; kind = dependency; dep_name = some (b'l' ∷ []) }
      ∷ record { lits = neg 1 ∷ neg 2 ∷ []; kind = conflict; dep_name = none }
      ∷ [];
}

two_libs-ModelOk : ModelOk two_libs
two_libs-ModelOk = record {
  clauses_ok = ground arith;
  nonempty = (nonempty_lits _ _, (nonempty_lits _ _, (nonempty_lits _ _, tt)));
}

-- The application needs the library that it conflicts with.
abbrev one_lib : Model
one_lib = record {
  vars = app ∷ lib1 ∷ [];
  clauses =
      record { lits = pos 1 ∷ []; kind = forced; dep_name = none }
      ∷ record { lits = neg 1 ∷ pos 2 ∷ []; kind = dependency; dep_name = some (b'l' ∷ []) }
      ∷ record { lits = neg 1 ∷ neg 2 ∷ []; kind = conflict; dep_name = none }
      ∷ [];
}

one_lib-ModelOk : ModelOk one_lib
one_lib-ModelOk = record {
  clauses_ok = ground arith;
  nonempty = (nonempty_lits _ _, (nonempty_lits _ _, (nonempty_lits _ _, tt)));
}

abbrev selection : List Value
selection = undef ∷ yea ∷ nay ∷ yea ∷ []

two_libs_run : solve_core two_libs 100 [] false false [] ≡ satisfiable (some selection)
unfolding solve_core dpll enter explore propagate sweep visit scan visit_counted decide pick_var
two_libs_run = refl

abbrev broken_dependency : Message
broken_dependency = requires (b'a' ∷ []) (b'l' ∷ [])

one_lib_pairs : All (λ c. c.kind ≡ conflict → 2 ≤ length c.lits) one_lib.clauses
one_lib_pairs = ((λ e. cc), ((λ e. cc), ((λ e. omega arith), tt)))

one_lib_run : solve_core one_lib 100 [] false false [] ≡ unsatisfiable (some broken_dependency)
unfolding solve_core dpll enter explore propagate sweep visit scan visit_counted undo_from
    explanation explain_conflict blame
one_lib_run = refl

solve_core-satisfiable_example : Satisfies (chosen (some selection)) two_libs.clauses
solve_core-satisfiable_example =
    solve_core-satisfiable two_libs two_libs-ModelOk 100 false false [] [] (some selection)
      two_libs_run

abbrev all_true : ℕ → Bool
all_true v = true

solve_core-unsatisfiable_example : ¬ Satisfies all_true one_lib.clauses
solve_core-unsatisfiable_example =
    solve_core-unsatisfiable one_lib one_lib-ModelOk 100 false false [] [] (some broken_dependency)
      one_lib_run all_true

solve_core_terminates_example : solve_core two_libs 0 [] true true [] ≢ stuck
solve_core_terminates_example = solve_core_terminates two_libs two_libs-ModelOk 0 true true [] []

decisions-le-budget_example :
    (dpll two_libs 1 true true 5 (initial two_libs (false ∷ []))).1.decisions ≤ 1
decisions-le-budget_example = decisions-le-budget two_libs two_libs-ModelOk 1 true true (false ∷ [])

solve_core_explains_example : (t : Message) × (some broken_dependency ≡ some t)
solve_core_explains_example =
    solve_core_explains one_lib one_lib-ModelOk one_lib_pairs 100 false false []
      (some broken_dependency) one_lib_run

-- Three workers; the second one is cancelled before it starts.
abbrev three_workers : List Finish
three_workers =
    record { worker = 1; cancel = true ∷ []; allocs = [] }
    ∷ record { worker = 2; cancel = []; allocs = [] }
    ∷ record { worker = 0; cancel = []; allocs = [] }
    ∷ []

sat_solve_parallel-first_decided_example :
    sat_solve_parallel two_libs 100 3 three_workers [] ≡ first_decided two_libs 100 three_workers
sat_solve_parallel-first_decided_example =
    sat_solve_parallel-first_decided two_libs 100 3 three_workers (omega arith)

-- The first worker that is not cancelled, number 2, tries `false` first.
abbrev other_selection : List Value
other_selection = undef ∷ yea ∷ nay ∷ yea ∷ []

two_libs_portfolio :
    sat_solve_parallel two_libs 100 3 three_workers [] ≡ satisfiable (some other_selection)
unfolding sat_solve_parallel worker_result solve_core dpll enter explore propagate sweep visit scan
    visit_counted decide pick_var
two_libs_portfolio = refl

sat_solve_parallel-satisfiable_example : Satisfies (chosen (some other_selection)) two_libs.clauses
sat_solve_parallel-satisfiable_example =
    sat_solve_parallel-satisfiable two_libs 100 two_libs-ModelOk 3 three_workers []
      (some other_selection) two_libs_portfolio

one_lib_portfolio :
    sat_solve_parallel one_lib 100 3 three_workers [] ≡ unsatisfiable (some broken_dependency)
unfolding sat_solve_parallel worker_result solve_core dpll enter explore propagate sweep visit scan
    visit_counted undo_from explanation explain_conflict blame
one_lib_portfolio = refl

sat_solve_parallel-unsatisfiable_example : ¬ Satisfies all_true one_lib.clauses
sat_solve_parallel-unsatisfiable_example =
    sat_solve_parallel-unsatisfiable one_lib 100 one_lib-ModelOk 3 three_workers []
      (some broken_dependency) one_lib_portfolio all_true
