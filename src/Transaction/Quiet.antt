-- ===== src/Transaction/Quiet.antt =====
-- The plan of the installations of src/transaction/prepare.c leaves the reports as they are.
use lib_apg.Base.{
  Bool, true, false, ◌||◌, List, [], ◌∷◌, Option, none, some, map, Allocs, granted, if_rule,
}
use lib_apg.CString.{CStr}
use lib_apg.Graph.{DepError, DepGraph}
use lib_apg.Resolve.{Resolved, ordered, refused, stuck}
use lib_apg.Transaction.{install, TransError, PackageFile, Trans}
use lib_apg.Transaction.Push.{in_strarray, then_trans, plan_has, plan_push, is_explicit}
use lib_apg.Transaction.Prepare.{
  Sources, Memory, name_or_empty, plan_queued, step_pkg, plan_order, plan_resolved, plan_installs,
}
use lib_apg.Transaction.Clear.{Post, then_trans_quiet, plan_push-Post}

module _ (db : Sources) where
  abbrev installed_names : List CStr
  installed_names = map name_or_empty db.db_list

  plan_queued-Post :
      (ps : List PackageFile) (t : Trans) (allocs : Allocs)
      → Post Unit t (plan_queued installed_names ps t allocs)
  unfolding plan_queued
  plan_queued-Post [] t allocs = λ ok clear. record { before = clear; fact = tt }
  plan_queued-Post (p ∷ ps) t allocs =
      by_known (in_strarray installed_names (name_or_empty p) || plan_has t (name_or_empty p))
        (plan_queued-Post ps t allocs) (λ t' rest. plan_queued-Post ps t' rest)
    where
      by_known :
          (b : Bool)
          → Post Unit t (plan_queued installed_names ps t allocs)
          → ((t' : Trans) (rest : Allocs) → Post Unit t' (plan_queued installed_names ps t' rest))
          → Post Unit t (elim b as (λ _. TransError × Trans × Allocs) [
            | true ↦ plan_queued installed_names ps t allocs
            | false ↦
                then_trans
                  (plan_push t install (name_or_empty p) p.meta.version true (some p) allocs)
                  (λ t' rest. plan_queued installed_names ps t' rest)
          ])
      by_known true skipped rec = skipped
      by_known false skipped rec =
          then_trans_quiet t
            (plan_push t install (name_or_empty p) p.meta.version true (some p) allocs)
            (λ t' rest. plan_queued installed_names ps t' rest)
            (plan_push-Post t install (name_or_empty p) p.meta.version true (some p) allocs) rec

  plan_order-Post :
      (order : List CStr) (t : Trans) (allocs : Allocs)
      → Post Unit t (plan_order installed_names order t allocs)
  unfolding plan_order
  plan_order-Post [] t allocs = λ ok clear. record { before = clear; fact = tt }
  plan_order-Post (name ∷ order) t allocs =
      by_known (in_strarray installed_names name || plan_has t name)
        (plan_order-Post order t allocs) (λ t' rest. plan_order-Post order t' rest)
    where
      by_pkg :
          (o : Option PackageFile)
          → Post Unit t (plan_order installed_names order t allocs)
          → ((t' : Trans) (rest : Allocs) → Post Unit t' (plan_order installed_names order t' rest))
          → Post Unit t (elim o as (λ _. TransError × Trans × Allocs) [
            | none ↦ plan_order installed_names order t allocs
            | some p ↦
                then_trans
                  (plan_push t install name p.meta.version (is_explicit t name) (some p) allocs)
                  (λ t' rest. plan_order installed_names order t' rest)
          ])
      by_pkg none skipped rec = skipped
      by_pkg (some p) skipped rec =
          then_trans_quiet t
            (plan_push t install name p.meta.version (is_explicit t name) (some p) allocs)
            (λ t' rest. plan_order installed_names order t' rest)
            (plan_push-Post t install name p.meta.version (is_explicit t name) (some p) allocs) rec

      by_known :
          (b : Bool)
          → Post Unit t (plan_order installed_names order t allocs)
          → ((t' : Trans) (rest : Allocs) → Post Unit t' (plan_order installed_names order t' rest))
          → Post Unit t (elim b as (λ _. TransError × Trans × Allocs) [
            | true ↦ plan_order installed_names order t allocs
            | false ↦ elim (step_pkg t name) as (λ _. TransError × Trans × Allocs) [
              | none ↦ plan_order installed_names order t allocs
              | some p ↦
                  then_trans
                    (plan_push t install name p.meta.version (is_explicit t name) (some p) allocs)
                    (λ t' rest. plan_order installed_names order t' rest)
            ]
          ])
      by_known true skipped rec = skipped
      by_known false skipped rec = by_pkg (step_pkg t name) skipped rec

  plan_resolved-Post :
      (r : Resolved) (t : Trans) (allocs : Allocs)
      → Post Unit t (plan_resolved installed_names r t allocs)
  unfolding plan_resolved
  plan_resolved-Post (ordered order) t allocs = plan_order-Post order t allocs
  plan_resolved-Post (refused DepError.cycle) t allocs = λ ok clear. cc
  plan_resolved-Post (refused DepError.missing) t allocs = λ ok clear. cc
  plan_resolved-Post (refused DepError.version) t allocs = λ ok clear. cc
  plan_resolved-Post (refused DepError.nomem) t allocs = λ ok clear. cc
  plan_resolved-Post (refused DepError.conflict) t allocs = λ ok clear. cc
  plan_resolved-Post (refused DepError.ok) t allocs = λ ok clear. cc
  plan_resolved-Post stuck t allocs = λ ok clear. cc

  pub plan_installs-Post :
      (g : DepGraph) (memory : Memory) (t : Trans) (allocs : Allocs)
      → Post Unit t (plan_installs installed_names g memory t allocs)
  unfolding plan_installs
  plan_installs-Post g memory t allocs =
      if_rule (Post Unit t) t.skip_dependency_check (λ _. plan_queued-Post t.install_pkgs t allocs)
        (λ _.
          if_rule (Post Unit t) (granted allocs) (λ _. plan_resolved-Post _ t memory.rest)
            (λ _ ok clear. cc))
