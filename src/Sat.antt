-- ===== src/Sat.antt =====
-- The satisfiability model of src/graph/sat_model_priv.h and the search of src/graph/sat_solve.c.
pub mod Clause
pub mod Search
pub mod Scan
pub mod Trail
pub mod Visit
pub mod Sweep
pub mod Pick
pub mod Post
pub mod Branch
pub mod Dpll
pub mod Solve
pub mod Sound
pub mod Parallel
pub mod Explain
