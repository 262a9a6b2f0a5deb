-- ===== src/Transaction/Prepare.antt =====
-- `trans_prepare` of src/transaction/prepare.c: the plan of a transaction, and what stands in its
-- way.
use lib_apg.Base.{
  Bool, true, false, ◌||◌, List, [], ◌∷◌, Option, none, some, map, if◌then◌else◌, Allocs, granted,
  later,
}
use lib_apg.CString.{CStr}
use lib_apg.Graph.{DepError, DepGraph, dep_graph_add, dep_graph_add_installed}
use lib_apg.Graph.Prefer.{dep_graph_prefer}
use lib_apg.Resolve.{Resolved, ordered, refused, stuck}
use lib_apg.Resolve.Runs.{ResolveTask, dep_graph_resolve_parallel}
use lib_apg.Conflict.{FoundBreaks, breaks, dep_graph_find_breaks}
use lib_apg.Transaction.{
  install, TransError, trans_ok, err_nomem, err_missing_dep, err_cycle, out_of_fuel, PackageFile,
  ProviderPref, Trans,
}
use lib_apg.Transaction.Push.{
  in_strarray, then_trans, plan_has, find_install_pkg, find_candidate_pkg, is_explicit, plan_push,
  conflict_push,
}

-- What `trans_prepare` asks of the database, which it does not change, and of the file system: the
-- installed packages, one of them by its name, the packages that depend on a name, the owner of a
-- path, and the files that an archive would install.
pub record Sources : Type 0 where
  pub db_list : List PackageFile
  pub db_get : CStr → Option PackageFile
  pub db_get_dependents : CStr → List CStr
  pub db_owner : CStr → Option CStr
  pub collect_files : PackageFile → List (Option CStr)

-- The outcomes of the allocations: up to the resolution, of its threads, of the merge of their
-- orders, of the threads that look for conflicts, and of the rest.
pub record Memory : Type 0 where
  pub start : Allocs
  pub resolving : List Allocs
  pub merging : Allocs
  pub breaking : List Allocs
  pub rest : Allocs

-- `""` for a NULL name. The names of queued packages are not NULL.
abbrev pub name_or_empty : PackageFile → CStr
name_or_empty pkg = elim pkg.meta.name [ none ↦ [] | some n ↦ n ]

-- The calls of `dep_graph_add` and `dep_graph_add_installed`, whose errors are passed over.
unfoldable pub add_all : Bool → List PackageFile → DepGraph → Allocs → DepGraph × Allocs
unfolding dep_graph_add dep_graph_add_installed
add_all installed [] g allocs = (g, allocs)
add_all installed (p ∷ ps) g allocs =
    let (e, g', rest) =
      if installed
      then dep_graph_add_installed g p.meta allocs
      else dep_graph_add g p.meta allocs in
    add_all installed ps g' rest

unfoldable pub prefer_all : List ProviderPref → DepGraph → Allocs → DepGraph × Allocs
unfolding dep_graph_prefer
prefer_all [] g allocs = (g, allocs)
prefer_all (p ∷ ps) g allocs =
    let (e, g', rest) = dep_graph_prefer g p.alias p.pkg_name allocs in prefer_all ps g' rest

unfoldable pub fill_graph : Sources → Trans → DepGraph → Allocs → DepGraph × Allocs
unfolding add_all prefer_all
fill_graph db t g allocs =
    let (g1, rest1) = add_all false t.install_pkgs g allocs in
    let (g2, rest2) = add_all false t.candidate_pkgs g1 rest1 in
    let (g3, rest3) = add_all false t.upgrade_pkgs g2 rest2 in
    let (g4, rest4) = add_all true db.db_list g3 rest3 in prefer_all t.provider_prefs g4 rest4

-- The plan without a check of the dependencies: what is queued and not installed, each name once.
unfoldable pub plan_queued :
    List CStr → List PackageFile → Trans → Allocs → TransError × Trans × Allocs
unfolding in_strarray plan_has plan_push
plan_queued installed [] t allocs = (trans_ok, t, allocs)
plan_queued installed (p ∷ ps) t allocs =
    elim (in_strarray installed (name_or_empty p) || plan_has t (name_or_empty p)) [
      | true ↦ plan_queued installed ps t allocs
      | false ↦
          then_trans (plan_push t install (name_or_empty p) p.meta.version true (some p) allocs)
            (λ t' rest. plan_queued installed ps t' rest)
    ]

-- The package of a step: queued for installation, or a candidate.
unfoldable pub step_pkg : Trans → CStr → Option PackageFile
unfolding find_install_pkg find_candidate_pkg
step_pkg t name = elim (find_install_pkg t name) [
  | some p ↦ some p
  | none ↦ find_candidate_pkg t name
]

-- The loop over the order of the resolver.
unfoldable pub plan_order : List CStr → List CStr → Trans → Allocs → TransError × Trans × Allocs
unfolding in_strarray plan_has plan_push step_pkg is_explicit
plan_order installed [] t allocs = (trans_ok, t, allocs)
plan_order installed (name ∷ order) t allocs =
    elim (in_strarray installed name || plan_has t name) [
      | true ↦ plan_order installed order t allocs
      | false ↦ elim (step_pkg t name) [
        | none ↦ plan_order installed order t allocs
        | some p ↦
            then_trans
              (plan_push t install name p.meta.version (is_explicit t name) (some p) allocs)
              (λ t' rest. plan_order installed order t' rest)
      ]
    ]

-- After DEP_ERR_MISSING and DEP_ERR_VERSION the packages are resolved once more, for the text of the
-- error alone.
unfoldable pub plan_resolved : List CStr → Resolved → Trans → Allocs → TransError × Trans × Allocs
unfolding plan_order
plan_resolved installed (ordered order) t allocs = plan_order installed order t allocs
plan_resolved installed (refused DepError.cycle) t allocs = (err_cycle, t, allocs)
plan_resolved installed (refused DepError.missing) t allocs = (err_missing_dep, t, allocs)
plan_resolved installed (refused DepError.version) t allocs = (err_missing_dep, t, allocs)
plan_resolved installed (refused DepError.nomem) t allocs = (err_nomem, t, allocs)
plan_resolved installed (refused DepError.conflict) t allocs = (err_nomem, t, allocs)
plan_resolved installed (refused DepError.ok) t allocs = (err_nomem, t, allocs)
plan_resolved installed stuck t allocs = (out_of_fuel, t, allocs)

-- One task for each name.
unfoldable pub resolve_tasks : List CStr → List Allocs → List ResolveTask
resolve_tasks [] ms = []
resolve_tasks (name ∷ names) [] = record { pkg_name = name; allocs = [] } ∷ resolve_tasks names []
resolve_tasks (name ∷ names) (m ∷ ms) =
    record { pkg_name = name; allocs = m } ∷ resolve_tasks names ms

-- `pkg_names`, and the resolution.
unfoldable pub plan_installs :
    List CStr → DepGraph → Memory → Trans → Allocs → TransError × Trans × Allocs
unfolding plan_queued plan_resolved resolve_tasks dep_graph_resolve_parallel
plan_installs installed g memory t allocs =
    if t.skip_dependency_check
    then plan_queued installed t.install_pkgs t allocs
    else if granted allocs
    then plan_resolved installed
        (dep_graph_resolve_parallel g
          (resolve_tasks (map name_or_empty t.install_pkgs) memory.resolving) memory.merging)
        t memory.rest
    else (err_nomem, t, later allocs)

-- The conflicts of one package.
unfoldable pub push_breaks : CStr → List CStr → Trans → Allocs → TransError × Trans × Allocs
unfolding conflict_push
push_breaks name [] t allocs = (trans_ok, t, allocs)
push_breaks name (b ∷ bs) t allocs =
    then_trans (conflict_push t name b allocs) (λ t' rest. push_breaks name bs t' rest)

unfoldable pub push_found : CStr → FoundBreaks → Trans → Allocs → TransError × Trans × Allocs
unfolding push_breaks
push_found name (breaks bs) t allocs = push_breaks name bs t allocs
push_found name (FoundBreaks.refused e) t allocs = (err_nomem, t, allocs)

-- The tasks of the threads. Their order does not matter: each writes only its own result, which is read
-- after all of them have ended.
unfoldable pub find_conflicts :
    DepGraph
    → List CStr
    → List PackageFile
    → List Allocs
    → Trans
    → Allocs
    → TransError × Trans × Allocs
unfolding push_found dep_graph_find_breaks
find_conflicts g installed [] ms t allocs = (trans_ok, t, allocs)
find_conflicts g installed (p ∷ ps) [] t allocs =
    then_trans
      (push_found (name_or_empty p) (dep_graph_find_breaks g (name_or_empty p) installed []) t
        allocs)
      (λ t' rest. find_conflicts g installed ps [] t' rest)
find_conflicts g installed (p ∷ ps) (m ∷ ms) t allocs =
    then_trans
      (push_found (name_or_empty p) (dep_graph_find_breaks g (name_or_empty p) installed m) t
        allocs)
      (λ t' rest. find_conflicts g installed ps ms t' rest)
