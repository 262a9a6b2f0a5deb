-- ===== src/Tests/Resolution.antt =====
-- Runs of the SAT resolution of src/graph/sat.c, and of the model that src/graph/sat_model.c makes for it.
use lib_apg.Base.{
  ℕ, ◌≡◌, refl, subst, Bool, true, false, List, [], ◌∷◌, none, some, All, ◌==◌, grow,
}
use mathlib.Core.List.{Memᴰ}
use lib_apg.CString.{CStr, str_eq}
use lib_apg.Package.{VerOp, DepConstraint, Package}
use lib_apg.StrMap.{fnv1a, str_map_init, str_map_get, str_map_set}
use lib_apg.Chains.{bucket_of}
use lib_apg.Candidates.{CandidateSet}
use lib_apg.Candidates.Group.{items_of}
use lib_apg.SatModel.{ptr_hash, sat_model_init, sat_model_var, sat_model_build}
use lib_apg.SatModel.NewVar.{VarPost, sat_model_var-VarPost}
use lib_apg.SatModel.Meaning.{BuildPost}
use lib_apg.SatModel.Built.{IsSelection, sat_model_init-IsValid, sat_model_build-BuildPost}
use lib_apg.Sat.Clause.{scan}
use lib_apg.Sat.Search.{
  dpll, enter, explore, propagate, sweep, visit, visit_counted, decide, pick_var, undo_from, blame,
}
use lib_apg.Sat.Solve.{Message, solve_core, explanation, explain_conflict}
use lib_apg.SatResolve.{selected, unsatisfiable, dep_graph_resolve_sat}
use lib_apg.SatResolve.Candidacy.{IsConsistent}
use lib_apg.SatResolve.Right.{
  HasRoots, IsResolution, dep_graph_resolve_sat-selected, dep_graph_resolve_sat-unsatisfiable,
}

abbrev lib_name : CStr
lib_name = b'l' ∷ []

-- It depends on a library, and conflicts with the name of one of them.
abbrev app : Package
app = record {
  addr = 4096;
  name = some (b'a' ∷ []);
  version = none;
  dependencies = record { name = lib_name; op = VerOp.any; version = none } ∷ [];
  conflicts = (b'm' ∷ []) ∷ [];
  provides = [];
  replaces = [];
}

abbrev library : ℕ → CStr → Package
library addr name = record {
  addr = addr;
  name = some name;
  version = none;
  dependencies = [];
  conflicts = [];
  provides = lib_name ∷ [];
  replaces = [];
}

abbrev pool : List Package
pool = app ∷ library 8192 (b'm' ∷ []) ∷ library 12288 (b'n' ∷ []) ∷ []

pool_run :
    dep_graph_resolve_sat pool (app ∷ []) 10 1 [] [] []
    ≡ selected (app ∷ library 12288 (b'n' ∷ []) ∷ [])
unfolding dep_graph_resolve_sat str_map_init str_map_get str_map_set bucket_of fnv1a grow str_eq
    ptr_hash solve_core dpll enter explore propagate sweep visit scan visit_counted decide pick_var
pool_run = refl

-- Only the library that the application conflicts with.
abbrev one_library : List Package
one_library = app ∷ library 8192 (b'm' ∷ []) ∷ []

one_library_run :
    dep_graph_resolve_sat one_library (app ∷ []) 10 1 [] [] []
    ≡ unsatisfiable (some (Message.requires (b'a' ∷ []) lib_name))
unfolding dep_graph_resolve_sat str_map_init str_map_get str_map_set bucket_of fnv1a grow str_eq
    ptr_hash solve_core dpll enter explore propagate sweep visit scan visit_counted undo_from blame
    explanation explain_conflict
one_library_run = refl

dep_graph_resolve_sat-selected_example :
    IsResolution pool (app ∷ []) (app ∷ library 12288 (b'n' ∷ []) ∷ [])
dep_graph_resolve_sat-selected_example =
    dep_graph_resolve_sat-selected pool (app ∷ []) 10 1 [] [] []
      (app ∷ library 12288 (b'n' ∷ []) ∷ []) pool_run

-- The library alone.
abbrev library_only : ℕ → Bool
library_only a = a == 8192

library_only-IsConsistent : IsConsistent one_library library_only
library_only-IsConsistent = record {
  closed = λ p d here on dep. absurd (library_lacks p here on d dep);
  compatible =
      λ p c name here on bad there goes ne. absurd (library_lacks_conflicts p here on name bad);
}
  where
    true_false : ¬ (false ≡ true)
    true_false e = cc

    no_member : {T : Type 0} (x : T) → ¬ Memᴰ x []
    no_member x m = elim m [ ]

    library_lacks :
        (p : Package)
        → Memᴰ p one_library
        → library_only p.addr ≡ true
        → (d : DepConstraint) → ¬ Memᴰ d p.dependencies
    library_lacks p (Memᴰ.head e) on d dep =
        absurd (true_false (subst (λ (q : Package). library_only q.addr ≡ true) e on))
    library_lacks p (Memᴰ.tail (Memᴰ.head e)) on d dep =
        no_member d (subst (λ (q : Package). Memᴰ d q.dependencies) e dep)
    library_lacks p (Memᴰ.tail (Memᴰ.tail m)) on d dep = elim m [ ]

    library_lacks_conflicts :
        (p : Package)
        → Memᴰ p one_library
        → library_only p.addr ≡ true
        → (name : CStr) → ¬ Memᴰ name p.conflicts
    library_lacks_conflicts p (Memᴰ.head e) on d dep =
        absurd (true_false (subst (λ (q : Package). library_only q.addr ≡ true) e on))
    library_lacks_conflicts p (Memᴰ.tail (Memᴰ.head e)) on d dep =
        no_member d (subst (λ (q : Package). Memᴰ d q.conflicts) e dep)
    library_lacks_conflicts p (Memᴰ.tail (Memᴰ.tail m)) on d dep = elim m [ ]

dep_graph_resolve_sat-unsatisfiable_example : ¬ HasRoots (app ∷ []) library_only
dep_graph_resolve_sat-unsatisfiable_example =
    dep_graph_resolve_sat-unsatisfiable one_library (app ∷ []) 10 1 [] [] []
      (some (Message.requires (b'a' ∷ []) lib_name)) one_library_run library_only
      library_only-IsConsistent

abbrev AnyPackage : Package → Type 0
AnyPackage p = Unit

sat_model_var-VarPost_example :
    VarPost AnyPackage
      (true ∷ false ∷ [])
      sat_model_init
      4096
      (sat_model_var sat_model_init app (true ∷ false ∷ []))
sat_model_var-VarPost_example =
    sat_model_var-VarPost AnyPackage sat_model_init app (true ∷ false ∷ [])
      (sat_model_init-IsValid AnyPackage) tt

-- One group: the library for its name.
abbrev one_group : CandidateSet
one_group = record {
  groups = record { name = lib_name; items = library 8192 (b'm' ∷ []) ∷ []; cap = 4 } ∷ [];
  cap = 16;
  index = record { buckets = (record { key = lib_name; value = 0 } ∷ []) ∷ []; entry_count = 1 };
}

any_items : (items : List Package) → All AnyPackage items
any_items [] = tt
any_items (p ∷ items) = (tt, any_items items)

sat_model_build-BuildPost_example :
    BuildPost AnyPackage [] sat_model_init
      (IsSelection one_group (app ∷ []))
      (sat_model_build one_group (app ∷ []) sat_model_init [])
sat_model_build-BuildPost_example =
    sat_model_build-BuildPost AnyPackage one_group (λ name. any_items (items_of one_group name))
      (app ∷ []) sat_model_init [] (sat_model_init-IsValid AnyPackage) (tt, tt)
