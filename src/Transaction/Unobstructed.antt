-- ===== src/Transaction/Unobstructed.antt =====
-- What `trans_prepare` of src/transaction/prepare.c has checked when its reports are empty.
use lib_apg.Base.{
  ◌≡◌, refl, sym, ◌∙◌, true, false, not, ◌&&◌, Option, none, some, length, map, All, subst, ltb,
  if◌then◌else◌, Allocs, granted, later, if_rule,
}
use lib_apg.Graph.{DepGraph, dep_graph_new}
use lib_apg.Transaction.{TransError, trans_ok, Trans}
use lib_apg.Transaction.Push.{then_trans}
use lib_apg.Transaction.Prepare.{Sources, Memory, name_or_empty, fill_graph}
use lib_apg.Transaction.Changes.{is_held, plan_upgrades, plan_removals}
use lib_apg.Transaction.Planned.{
  files_of, check_files, conclude_prepare, prepare_installs, prepare_with, trans_prepare,
}
use lib_apg.Transaction.Justified.{Reached, Reached-start}
use lib_apg.Transaction.Prepared.{plan_removals-Reached}
use lib_apg.Transaction.Clear.{
  IsClear, IsFree, IsHarmless, IsRemovable, Post, then_trans-Post, AnyState,
}
use lib_apg.Transaction.Owners.{plan_upgrades-Post, check_files-Post}
use lib_apg.Transaction.Cleared.{prepare_installs-Post}
use lib_apg.Transaction.Removable.{plan_removals-Post}
use lib_apg.Transaction.Reasons.{prepare_installs-Reached, plan_upgrades-Reached}

differ : ¬ (false ≡ true)
differ e = cc

module _ (db : Sources) (t0 : Trans) where
  -- The allocations of the graph.
  abbrev pub graph_allocs : Memory → Allocs
  graph_allocs memory = if ltb 0 (length db.db_list) then later memory.start else memory.start

  -- Nothing stands in the way of what was queued. The graph is the one that the preparation fills, from a
  -- new one.
  pub record IsUnobstructed (memory : Memory) : Type 0 where
    pub empty : DepGraph
    pub rest : Allocs
    pub made : dep_graph_new (graph_allocs memory) ≡ (some empty, rest)
    pub no_breaks :
        All (λ p. IsHarmless db (fill_graph db t0 empty rest).0 (name_or_empty p)) t0.install_pkgs
    pub no_held : All (λ p. is_held (db.db_get (name_or_empty p)) ≡ false) t0.upgrade_pkgs
    pub removable : All (IsRemovable db t0) t0.remove_names
    pub no_owner : All (λ p. All (IsFree db (name_or_empty p)) (files_of db p)) t0.install_pkgs

  conclude_prepare-Post : (t : Trans) (allocs : Allocs) → Post Unit t (conclude_prepare t allocs)
  unfolding conclude_prepare
  conclude_prepare-Post t allocs =
      if_rule (Post Unit t) (ltb 0 (length t.held_pkgs)) (λ _ ok clear. cc)
        (λ _.
          if_rule (Post Unit t) (ltb 0 (length t.file_conflicts)) (λ _ ok clear. cc)
            (λ _.
              if_rule (Post Unit t) (ltb 0 (length t.blocked_removes)) (λ _ ok clear. cc)
                (λ _.
                  if_rule (Post Unit t) (ltb 0 (length t.conflicts)) (λ _ ok clear. cc)
                    (λ _ ok clear. record {
                      before = record {
                        no_held = clear.no_held;
                        no_file_conflict = clear.no_file_conflict;
                        no_blocked = clear.no_blocked;
                        no_conflict = clear.no_conflict;
                      };
                      fact = tt;
                    }))))

  -- What the phases find out, from each of them on.
  abbrev Checks : Type 0
  Checks = All (λ p. All (IsFree db (name_or_empty p)) (files_of db p)) t0.install_pkgs × Unit

  abbrev Removals : Type 0
  Removals = All (IsRemovable db t0) t0.remove_names × Checks

  abbrev Upgrades : Type 0
  Upgrades = All (λ p. is_held (db.db_get (name_or_empty p)) ≡ false) t0.upgrade_pkgs × Removals

  abbrev Phases : DepGraph → Type 0
  Phases full = All (λ p. IsHarmless db full (name_or_empty p)) t0.install_pkgs × Upgrades

  -- The phases from each of them on.
  abbrev check_phase : Trans → Allocs → TransError × Trans × Allocs
  check_phase t rest =
      then_trans (check_files db t.install_pkgs t rest) (λ t' rest'. conclude_prepare t' rest')

  abbrev removal_phase : Trans → Allocs → TransError × Trans × Allocs
  removal_phase t rest = then_trans (plan_removals db t rest) (λ t' rest'. check_phase t' rest')

  abbrev upgrade_phase : Trans → Allocs → TransError × Trans × Allocs
  upgrade_phase t rest =
      then_trans (plan_upgrades db t.upgrade_pkgs t rest) (λ t' rest'. removal_phase t' rest')

  check_phase-Post :
      (t : Trans) (rest : Allocs) → Reached db t0 t → Post Checks t (check_phase t rest)
  check_phase-Post t rest h =
      then_trans-Post AnyState t (check_files db t.install_pkgs t rest)
        (λ t' rest'. conclude_prepare t' rest') tt
        (subst
          (λ ps.
            Post (All (λ p. All (IsFree db (name_or_empty p)) (files_of db p)) ps) t
              (check_files db t.install_pkgs t rest))
          h.same_installs (check_files-Post db t.install_pkgs t rest))
        (λ t' rest' _. conclude_prepare-Post t' rest')

  removal_phase-Post :
      (t : Trans) (rest : Allocs) → Reached db t0 t → Post Removals t (removal_phase t rest)
  removal_phase-Post t rest h =
      then_trans-Post (Reached db t0) t (plan_removals db t rest) (λ t' rest'. check_phase t' rest')
        (plan_removals-Reached db t0 t rest h) (plan_removals-Post db t0 t rest h)
        (λ t' rest' h'. check_phase-Post t' rest' h')

  upgrade_phase-Post :
      (t : Trans) (rest : Allocs) → Reached db t0 t → Post Upgrades t (upgrade_phase t rest)
  upgrade_phase-Post t rest h =
      then_trans-Post (Reached db t0) t (plan_upgrades db t.upgrade_pkgs t rest)
        (λ t' rest'. removal_phase t' rest') (plan_upgrades-Reached db t0 t.upgrade_pkgs t rest h)
        (subst
          (λ ps.
            Post (All (λ p. is_held (db.db_get (name_or_empty p)) ≡ false) ps) t
              (plan_upgrades db t.upgrade_pkgs t rest))
          h.same_upgrades (plan_upgrades-Post db t.upgrade_pkgs t rest))
        (λ t' rest' h'. removal_phase-Post t' rest' h')

  install_phase-Post :
      (full : DepGraph) (memory : Memory) (rest : Allocs)
      → Post (Phases full) t0 (
          then_trans
            (prepare_installs (map name_or_empty db.db_list) full memory t0 rest)
            (λ t' rest'. upgrade_phase t' rest'))
  install_phase-Post full memory rest =
      then_trans-Post (Reached db t0) t0
        (prepare_installs (map name_or_empty db.db_list) full memory t0 rest)
        (λ t' rest'. upgrade_phase t' rest')
        (prepare_installs-Reached db t0 full memory t0 rest (Reached-start db t0))
        (prepare_installs-Post db t0 full memory t0 rest (Reached-start db t0))
        (λ t' rest' h'. upgrade_phase-Post t' rest' h')

  abbrev PostPrepared : Memory → TransError × Trans × Allocs → Type 0
  PostPrepared memory r = r.0 ≡ trans_ok → IsClear r.1 → IsUnobstructed memory

  prepare_with-Post :
      (memory : Memory) (r : Option DepGraph × Allocs)
      → dep_graph_new (graph_allocs memory) ≡ r
      → PostPrepared memory (prepare_with db memory t0 (map name_or_empty db.db_list) r)
  unfolding prepare_with
  prepare_with-Post memory (none, allocs) e = λ ok clear. cc
  prepare_with-Post memory (some g, allocs) e = λ ok clear.
      let found =
        (install_phase-Post (fill_graph db t0 g allocs).0 memory (fill_graph db t0 g allocs).1 ok
          clear).fact in
      record {
        empty = g;
        rest = allocs;
        made = e;
        no_breaks = found.0;
        no_held = found.1.0;
        removable = found.1.1.0;
        no_owner = found.1.1.1.0;
      }

  pub trans_prepare-Post :
      t0.prepared ≡ false → (memory : Memory) → PostPrepared memory (trans_prepare db memory t0)
  unfolding trans_prepare
  trans_prepare-Post fresh memory =
      if_rule (PostPrepared memory) t0.prepared (λ e. absurd (differ (sym fresh ∙ e)))
        (λ _.
          if_rule (PostPrepared memory) (ltb 0 (length db.db_list) && not (granted memory.start))
            (λ _ ok clear. cc)
            (λ _. prepare_with-Post memory (dep_graph_new (graph_allocs memory)) refl))
