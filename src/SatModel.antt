-- ===== src/SatModel.antt =====
-- The SAT model of src/graph/sat_model.c: a variable for each package, and clauses for dependencies,
-- conflicts and forced packages.
pub mod Vars
pub mod NewVar
pub mod Meaning
pub mod Clauses
pub mod Lits
pub mod Dependencies
pub mod Conflicts
pub mod Built
use Prim.Native.Nat.{bit_xor}
use lib_apg.Base.{
  ℕ, suc, ◌+◌, ◌-◌, ◌*◌, ◌/◌, ◌%◌, ◌^◌, ◌≡◌, Bool, true, false, not, ◌&&◌, List, [], ◌∷◌, ◌++◌,
  Option, none, some, length, replicate, ltb, ◌==◌, ==_iff, refl, if◌then◌else◌, Allocs, granted,
  later, grow,
}
use lib_apg.CString.{CStr}
use lib_apg.Package.{is_any, DepConstraint, Package}
use lib_apg.Version.{ver_satisfies}
use lib_apg.Chains.{Hashed, ChainEntry, chain, find_in, push_entry, rehash_all}
use lib_apg.Candidates.{CandidateGroup, CandidateSet, candidate_set_lookup}
use lib_apg.Sat.Clause.{Lit, pos, neg, Kind, dependency, conflict, forced, Clause, Model}

-- A pointer is its address; `uintptr_t` has 64 bits.
unfoldable pub ptr_hash : ℕ → ℕ
ptr_hash p =
    let v = bit_xor p (p / 2 ^ 16) * 11400714819323198485 % 2 ^ 64 in bit_xor v (v / 2 ^ 32)

abbrev pub VarEntry : Type 0
VarEntry = ChainEntry ℕ

instance abbrev pub ptr_hashed : Hashed ℕ
ptr_hashed = record {
  hash = ptr_hash;
  same_key = ◌==◌;
  same_key_sound = λ a b e. (==_iff a b).0 e;
  same_key_refl = λ a. (==_iff a a).1 refl;
}

-- The struct with what only the construction of a model needs. The counts are the lengths of the
-- lists; they stay in the range of `int`.
pub record SatModel : Type 0 where
  pub vars : List Package
  pub var_cap : ℕ
  pub var_buckets : List (List VarEntry)
  pub clauses : List Clause
  pub clause_cap : ℕ

-- What the solver reads of it.
abbrev pub solver_model : SatModel → Model
solver_model m = record { vars = m.vars; clauses = m.clauses }

unfoldable pub sat_model_init : SatModel
sat_model_init = record { vars = []; var_cap = 0; var_buckets = []; clauses = []; clause_cap = 0 }

unfoldable pub sat_model_free : SatModel → SatModel
sat_model_free m = record { vars = []; var_cap = 0; var_buckets = []; clauses = []; clause_cap = 0 }

unfoldable pub var_index_rehash : SatModel → ℕ → Allocs → Bool × SatModel × Allocs
var_index_rehash m new_bucket_count allocs =
    if granted allocs
    then (
      true,
      record m { var_buckets = rehash_all m.var_buckets (replicate new_bucket_count []) },
      later allocs,
    )
    else (false, m, later allocs)

-- The lookup of `sat_model_var`.
unfoldable pub find_var : List (List VarEntry) → ℕ → Option ℕ
find_var [] addr = none
find_var (b ∷ bs) addr = find_in addr (chain (b ∷ bs) addr)

-- The new variable and its entry; `none` is 0.
unfoldable pub push_var : Package → SatModel → Allocs → Option ℕ × SatModel × Allocs
push_var pkg m allocs =
    if granted allocs
    then (
      some (suc (length m.vars)),
      record m {
        vars = m.vars ++ (pkg ∷ []);
        var_buckets =
            push_entry (record { key = pkg.addr; value = suc (length m.vars) }) m.var_buckets;
      },
      later allocs,
    )
    else (none, m, later allocs)

unfoldable pub index_var : Package → Bool × SatModel × Allocs → Option ℕ × SatModel × Allocs
unfolding push_var
index_var pkg (true, m, allocs) = push_var pkg m allocs
index_var pkg (false, m, allocs) = (none, m, allocs)

abbrev pub is_crowded : SatModel → Bool
is_crowded m = ltb (length m.var_buckets - length m.var_buckets / 4) (suc (length m.vars))

abbrev pub new_bucket_count : SatModel → ℕ
new_bucket_count m = if length m.var_buckets == 0 then 16 else length m.var_buckets * 2

unfoldable pub new_var : Package → SatModel → Option ℕ × Allocs → Option ℕ × SatModel × Allocs
unfolding index_var var_index_rehash
new_var pkg m (none, allocs) = (none, m, allocs)
new_var pkg m (some room, allocs) =
    let m' = record m { var_cap = room } in
    if is_crowded m'
    then index_var pkg (var_index_rehash m' (new_bucket_count m') allocs)
    else push_var pkg m' allocs

unfoldable pub sat_model_var : SatModel → Package → Allocs → Option ℕ × SatModel × Allocs
unfolding new_var find_var
sat_model_var m pkg allocs = elim (find_var m.var_buckets pkg.addr) [
  | some v ↦ (some v, m, allocs)
  | none ↦ new_var pkg m (grow (length m.vars) m.var_cap 16 allocs)
]

-- The copy of the literals, which an empty clause does not need.
unfoldable pub copy_lits : List Lit → Allocs → Bool × Allocs
copy_lits [] allocs = (true, allocs)
copy_lits (_ ∷ _) allocs = (granted allocs, later allocs)

unfoldable pub push_clause : Clause → SatModel → Bool × Allocs → Bool × SatModel × Allocs
push_clause cl m (false, allocs) = (false, m, allocs)
push_clause cl m (true, allocs) = (true, record m { clauses = m.clauses ++ (cl ∷ []) }, allocs)

unfoldable pub clause_room : Clause → SatModel → Option ℕ × Allocs → Bool × SatModel × Allocs
unfolding push_clause copy_lits
clause_room cl m (none, allocs) = (false, m, allocs)
clause_room cl m (some room, allocs) =
    push_clause cl (record m { clause_cap = room }) (copy_lits cl.lits allocs)

unfoldable pub add_clause : Clause → SatModel → Allocs → Bool × SatModel × Allocs
unfolding clause_room
add_clause cl m allocs = clause_room cl m (grow (length m.clauses) m.clause_cap 16 allocs)

-- A variable, and what is done with it unless it is 0.
abbrev pub with_var :
    Option ℕ × SatModel × Allocs
    → (ℕ → SatModel → Allocs → Bool × SatModel × Allocs)
    → Bool × SatModel × Allocs
with_var (none, m, allocs) next = (false, m, allocs)
with_var (some v, m, allocs) next = next v m allocs

abbrev pub then_build :
    Bool × SatModel × Allocs
    → (SatModel → Allocs → Bool × SatModel × Allocs)
    → Bool × SatModel × Allocs
then_build (true, m, allocs) next = next m allocs
then_build (false, m, allocs) next = (false, m, allocs)

unfoldable pub sat_model_force : SatModel → Package → Allocs → Bool × SatModel × Allocs
unfolding add_clause sat_model_var
sat_model_force m pkg allocs =
    with_var (sat_model_var m pkg allocs) (λ v m' rest.
      add_clause (record { lits = pos v ∷ []; kind = forced; dep_name = none }) m' rest)

-- Is the candidate passed over for the dependency?
unfoldable pub is_unfit : DepConstraint → Package → Bool
is_unfit dep cand = not (is_any dep.op) && not (ver_satisfies cand.version dep.op dep.version)

-- `g->items` of the group of a name, and none without a group.
abbrev pub group_items : Option CandidateGroup → List Package
group_items none = []
group_items (some group) = group.items

abbrev pub with_lit :
    Option ℕ × SatModel × Allocs
    → (ℕ → SatModel → Allocs → Option (List Lit) × SatModel × Allocs)
    → Option (List Lit) × SatModel × Allocs
with_lit (none, m, allocs) next = (none, m, allocs)
with_lit (some v, m, allocs) next = next v m allocs

-- The loop over the candidates of a dependency; `none` is `ok == false`.
unfoldable pub candidate_lits :
    DepConstraint
    → List Package
    → List Lit
    → SatModel
    → Allocs
    → Option (List Lit) × SatModel × Allocs
unfolding sat_model_var is_unfit
candidate_lits dep [] lits m allocs = (some lits, m, allocs)
candidate_lits dep (cand ∷ items) lits m allocs = elim (is_unfit dep cand) [
  | true ↦ candidate_lits dep items lits m allocs
  | false ↦
      with_lit (sat_model_var m cand allocs)
        (λ v m' rest. candidate_lits dep items (lits ++ (pos v ∷ [])) m' rest)
]

unfoldable pub dependency_clause :
    DepConstraint → Option (List Lit) × SatModel × Allocs → Bool × SatModel × Allocs
unfolding add_clause
dependency_clause dep (none, m, allocs) = (false, m, allocs)
dependency_clause dep (some lits, m, allocs) =
    add_clause (record { lits = lits; kind = dependency; dep_name = some dep.name }) m allocs

-- The loop over the dependencies of the package of a variable.
unfoldable pub dependency_clauses :
    CandidateSet → ℕ → List DepConstraint → SatModel → Allocs → Bool × SatModel × Allocs
unfolding dependency_clause candidate_lits candidate_set_lookup
dependency_clauses cs v [] m allocs = (true, m, allocs)
dependency_clauses cs v (dep ∷ deps) m allocs = elim (granted allocs) [
  | false ↦ (false, m, later allocs)
  | true ↦
      then_build
        (dependency_clause dep (
          candidate_lits dep (group_items (candidate_set_lookup cs dep.name)) (neg v ∷ []) m
            (later allocs)))
        (λ m' rest. dependency_clauses cs v deps m' rest)
]

unfoldable pub add_dependency_clauses :
    CandidateSet → Package → SatModel → Allocs → Bool × SatModel × Allocs
unfolding dependency_clauses sat_model_var
add_dependency_clauses cs pkg m allocs =
    with_var (sat_model_var m pkg allocs)
      (λ v m' rest. dependency_clauses cs v pkg.dependencies m' rest)

-- The loop over a group for a conflict of the package.
unfoldable pub group_conflicts :
    Package → ℕ → List Package → SatModel → Allocs → Bool × SatModel × Allocs
unfolding add_clause sat_model_var
group_conflicts pkg v [] m allocs = (true, m, allocs)
group_conflicts pkg v (other ∷ items) m allocs = elim (other.addr == pkg.addr) [
  | true ↦ group_conflicts pkg v items m allocs
  | false ↦ with_var (sat_model_var m other allocs) (λ w m' rest.
      then_build
        (add_clause (record { lits = neg v ∷ neg w ∷ []; kind = conflict; dep_name = none }) m'
          rest)
        (λ m'' rest'. group_conflicts pkg v items m'' rest'))
]

-- The loop over the conflicts; a name without a group adds nothing.
unfoldable pub conflict_clauses :
    CandidateSet → Package → ℕ → List CStr → SatModel → Allocs → Bool × SatModel × Allocs
unfolding group_conflicts candidate_set_lookup
conflict_clauses cs pkg v [] m allocs = (true, m, allocs)
conflict_clauses cs pkg v (name ∷ names) m allocs =
    then_build (group_conflicts pkg v (group_items (candidate_set_lookup cs name)) m allocs)
      (λ m' rest. conflict_clauses cs pkg v names m' rest)

unfoldable pub add_conflict_clauses :
    CandidateSet → Package → SatModel → Allocs → Bool × SatModel × Allocs
unfolding conflict_clauses sat_model_var
add_conflict_clauses cs pkg m allocs =
    with_var (sat_model_var m pkg allocs)
      (λ v m' rest. conflict_clauses cs pkg v pkg.conflicts m' rest)

unfoldable pub sat_model_build :
    CandidateSet → List Package → SatModel → Allocs → Bool × SatModel × Allocs
unfolding add_dependency_clauses add_conflict_clauses
sat_model_build cs [] m allocs = (true, m, allocs)
sat_model_build cs (pkg ∷ pkgs) m allocs =
    then_build (add_dependency_clauses cs pkg m allocs) (λ m' rest.
      then_build (add_conflict_clauses cs pkg m' rest)
        (λ m'' rest'. sat_model_build cs pkgs m'' rest'))
