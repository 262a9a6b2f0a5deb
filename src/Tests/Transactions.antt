-- ===== src/Tests/Transactions.antt =====
-- Runs of the transactions of src/transaction.
use lib_apg.Base.{
  ℕ, ◌≡◌, refl, sym, subst, ◌⊎◌, true, false, List, [], ◌∷◌, ◌++◌, none, some, map, replicate,
  length, if◌then◌else◌, grow,
}
use mathlib.Core.List.{Memᴰ}
use lib_apg.CString.{CStr, str_eq}
use lib_apg.Package.{VerOp, DepConstraint}
use lib_apg.Chains.{bucket_of}
use lib_apg.StrMap.{str_map_init, str_map_get, str_map_set, fnv1a}
use lib_apg.Graph.{dep_graph_lookup}
use lib_apg.Transaction.{TransOp, TransError, trans_ok, PackageFile, Trans, new_trans}
use lib_apg.Transaction.Removals.{push_removals_in_order}
use lib_apg.Transaction.Prepare.{Sources, Memory}
use lib_apg.Transaction.Planned.{trans_prepare}
use lib_apg.Transaction.Justified.{Justified}
use lib_apg.Transaction.Order.{IsRemovalOrder}
use lib_apg.Transaction.Removed.{removal, removals_at, push_removals_in_order-IsRemovalOrder}
use lib_apg.Transaction.Result.{trans_prepare-Justified}

abbrev pub lib_name : CStr
lib_name = b'l' ∷ []

abbrev pub app_name : CStr
app_name = b'a' ∷ []

abbrev pub installed_package : CStr → List DepConstraint → PackageFile
installed_package name deps = record {
  meta = record {
    addr = 4096;
    name = some name;
    version = none;
    dependencies = deps;
    conflicts = [];
    provides = [];
    replaces = [];
  };
  pkg_path = none;
  package_files = [];
  conf = [];
  installed_by_hand = true;
  held = false;
}

abbrev pub lib_package : PackageFile
lib_package = installed_package lib_name []

abbrev pub app_package : PackageFile
app_package =
    installed_package app_name (record { name = lib_name; op = VerOp.any; version = none } ∷ [])

-- An application and the library that it depends on.
abbrev database : Sources
database = record {
  db_list = [];
  db_get = λ name. if str_eq name lib_name then some lib_package else some app_package;
  db_get_dependents = λ name. if str_eq name lib_name then app_name ∷ [] else [];
  db_owner = λ path. none;
  collect_files = λ p. [];
}

abbrev plenty : Memory
plenty = record { start = []; resolving = []; merging = []; breaking = []; rest = [] }

abbrev removing : Trans
removing = record new_trans { remove_names = lib_name ∷ app_name ∷ [] }

-- The library is queued first, and removed last.
removing_run :
    (trans_prepare database plenty removing).1.plan ≡ removal app_name ∷ removal lib_name ∷ []
unfolding trans_prepare str_map_init str_eq
removing_run = refl

abbrev new_package : PackageFile
new_package = record (installed_package (b'n' ∷ []) []) {
  package_files = some (b'/' ∷ b'f' ∷ []) ∷ [];
}

-- Every file has the given owner.
abbrev stocked : CStr → Sources
stocked owner = record database {
  db_list = lib_package ∷ app_package ∷ [];
  db_owner = λ path. some owner;
}

abbrev replacing : Trans
replacing = record removing { install_pkgs = new_package ∷ []; skip_dependency_check = true }

replacing_run : (trans_prepare (stocked (b'n' ∷ [])) plenty replacing).0 ≡ trans_ok
unfolding trans_prepare str_map_init str_eq str_map_get bucket_of fnv1a grow str_map_set
    dep_graph_lookup
replacing_run = refl

-- Another package owns the file.
conflicting_run :
    (trans_prepare (stocked lib_name) plenty replacing).0 ≡ TransError.err_file_conflict
unfolding trans_prepare str_map_init str_eq str_map_get bucket_of fnv1a grow str_map_set
    dep_graph_lookup
conflicting_run = refl

trans_prepare-Justified_example :
    Memᴰ (removal lib_name) removing.plan ⊎ Justified database removing TransOp.remove lib_name
trans_prepare-Justified_example =
    trans_prepare-Justified database removing refl plenty (removal lib_name)
      (subst (Memᴰ (removal lib_name)) (sym removing_run) (Memᴰ.tail (Memᴰ.head refl)))

push_removals_in_order-IsRemovalOrder_example :
    (t' : Trans) × (ks : List ℕ) × (push_removals_in_order database.db_get
        (lib_name ∷ app_name ∷ [])
        removing
        []
      ≡ (trans_ok, t', []))
    × IsRemovalOrder
        (map database.db_get (lib_name ∷ app_name ∷ []))
        (replicate (length (lib_name ∷ app_name ∷ [])) false)
        ks
    × (t'.plan ≡ removing.plan ++ removals_at (lib_name ∷ app_name ∷ []) ks)
push_removals_in_order-IsRemovalOrder_example =
    push_removals_in_order-IsRemovalOrder database.db_get (lib_name ∷ app_name ∷ []) removing
