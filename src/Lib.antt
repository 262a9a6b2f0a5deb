-- ===== src/Lib.antt =====
-- Models and proofs for libapg, the package library of NurOS: versions and dependency constraints,
-- the string map, the dependency graph, the installation order, conflicts, and the SAT solver that
-- selects packages.
--
-- A client fills a dependency graph with the metadata of packages (src/graph/graph.c), which finds
-- packages by name, by preference and by the names that they provide or replace, through two
-- string maps (src/hashmap.c). The resolver (src/graph/resolve.c) orders a package and what it
-- depends on, and src/graph/conflict.c finds the installed packages that a new one breaks.
-- Dependencies carry version constraints (src/version/version.c). The solver
-- (src/graph/sat_solve.c) reads a model of clauses over one variable for each candidate package
-- and answers with an assignment, a refutation with its explanation, or an exhausted budget; it
-- runs alone or as a portfolio of threads that race. src/graph/sat.c puts them together: it collects
-- the candidates for every name (src/graph/candidates.c), has their dependencies and conflicts and
-- the required packages written as clauses (src/graph/sat_model.c), and reads the selection off the
-- assignment. A transaction (src/transaction) queues packages, and trans_prepare makes a plan of it with
-- the graph, the resolver and the search for conflicts.
--
-- Files and code:
--   CString     NUL-terminated strings as lists of bytes, and strcmp.
--   Package     struct package_metadata of include/apg/package.h, struct dep_constraint and ver_op_t
--               of include/apg/version.h.
--   Version     ver_compare and ver_satisfies of src/version/version.c. Version/Constraint has
--               dep_constraint_parse and dep_constraint_to_str.
--   Chains      hash tables with chained buckets over any type of keys, for src/hashmap.c and
--               src/graph/sat_model.c.
--   StrMap      src/hashmap.c: str_map_init, str_map_free, str_map_get, str_map_rehash, str_map_set.
--   Graph       src/graph/graph.c: dep_graph_new, dep_graph_find, dep_graph_lookup, add_alias,
--               add_node, dep_graph_add, dep_graph_add_installed. Graph/Prefer has
--               dep_graph_prefer.
--   Resolve     src/graph/resolve.c: dfs and dep_graph_resolve. Resolve/Runs has
--               dep_graph_resolve_parallel and dep_graph_has_cycle.
--   Candidates  src/graph/candidates.c: candidate_set_init, find_or_create_group,
--               candidate_set_add, candidate_set_add_package, candidate_set_lookup.
--   Conflict    src/graph/conflict.c: dep_graph_find_breaks.
--   SatModel    src/graph/sat_model.c: sat_model_var, add_clause, sat_model_force,
--               add_dependency_clauses, add_conflict_clauses, sat_model_build.
--   SatResolve  src/graph/sat.c: dep_graph_resolve_sat.
--   Sat         src/graph/sat_solve.c: Sat/Clause and Sat/Search have propagate, undo_to, pick_var and
--               dpll; Sat/Solve has solve_core, explain_conflict and sat_solve; Sat/Parallel has
--               sat_worker_fn and sat_solve_parallel.
--   Transaction src/transaction/transaction.c: trans_new, trans_set_policy and the reading of the results;
--               Transaction/Queue has the calls that queue packages. src/transaction/prepare.c:
--               Transaction/Push has plan_push and its kin, Transaction/Removals has
--               push_removals_in_order, and Transaction/Prepare, Changes and Planned have the phases of
--               trans_prepare. src/transaction/commit.c: Transaction/Commit has rollback_committed,
--               Transaction/Commit/Steps the branches of trans_commit that install and upgrade, and
--               Transaction/Commit/Run the one that removes, the loop and the checks before it.
--   Db          src/db/str_vec.c: str_vec_push; src/db/orphans.c: db_get_orphans, over what db_list
--               returns.
--   Base        helpers: Boolean tests, lists over native numbers, integers, allocation outcomes.
--   Tests       runs at concrete inputs.
--
-- How the code is rendered. A struct is a record, an enum a data type; an array with a count is a
-- list, SIZE_MAX and NULL are `none`. The outcomes of malloc, calloc, realloc and strdup are a list of
-- Booleans that the functions consume in the order of the calls, so that every out-of-memory branch
-- is a branch of the model. The value that a thread loads from the cancel flag is a list of Booleans,
-- one for each load. A mutex makes a critical section one step; the workers of the portfolio are
-- listed in the order in which they take the lock. Which memory is freed is not tracked, and arithmetic on
-- counts does not overflow: an array with 2^64 elements does not fit in memory. The hash is modulo
-- 2^64, and strtol saturates at the bounds of a 64-bit long.
--
-- trans_prepare reads the database through an interface, `Sources`, and the outcomes of its
-- allocations come in five parts, `Memory`, since two of its phases run in threads.
-- trans_commit acts on the database, the file system, the journal, the scripts and the keys through
-- `World`, whose state it passes from call to call. The progress callback and the text of the last
-- error are left out. What its rollback relies on in the database is the record `IsDatabase` of
-- Transaction/Commit/Laws, which an instance in Tests/Commits fills.
--
-- Fuel. The loop of ver_compare gets one round more than the two strings have bytes; the recursion
-- of dfs gets one call more than there are nodes; that of dpll, and the loop `while (changed)` of
-- propagate, get two more than there are variables. The results below show that these are enough.
--
-- Not modelled: the copies of strings in dep_constraint_parse and dep_constraint_to_str succeed; the
-- files that trans_prepare collects are not kept in the packages; the parts of the library that
-- call LMDB, libarchive, a JSON library, libsodium or the file system are left out.
pub mod Base
pub mod CString
pub mod Chains
pub mod StrMap
pub mod Package
pub mod Version
pub mod Graph
pub mod Conflict
pub mod Candidates
pub mod SatModel
pub mod SatResolve
pub mod Transaction
pub mod Db
pub mod Resolve
pub mod Tests
pub mod Sat
