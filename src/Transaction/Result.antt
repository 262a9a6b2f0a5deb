-- ===== src/Transaction/Result.antt =====
-- The result of `trans_prepare` of src/transaction/prepare.c.
use lib_apg.Base.{
  ℕ, suc, ◌≡◌, refl, sym, ◌∙◌, ◌⊎◌, inl, inr, true, false, not, ◌&&◌, List, [], ◌∷◌, Option, none,
  some, length, map, arith, subst, ltb, if◌then◌else◌, Allocs, granted, later, if_rule,
}
use mathlib.Core.List.{Memᴰ}
use lib_apg.Graph.{DepGraph, dep_graph_new}
use lib_apg.Transaction.{TransError, trans_ok, err_nomem, TransStep, Trans}
use lib_apg.Transaction.Push.{then_trans}
use lib_apg.Transaction.Prepare.{Sources, Memory, name_or_empty, fill_graph}
use lib_apg.Transaction.Changes.{plan_upgrades, plan_removals}
use lib_apg.Transaction.Planned.{
  check_files, conclude_prepare, prepare_installs, prepare_with, trans_prepare,
}
use lib_apg.Transaction.Justified.{Justified, Reached, Reached-start, TransError-cases}
use lib_apg.Transaction.Prepared.{plan_removals-Reached}
use lib_apg.Transaction.Clear.{IsClear}
use lib_apg.Transaction.Reasons.{
  prepare_installs-Reached, plan_upgrades-Reached, check_files-Reached,
}

ltb-suc : (n : ℕ) → ¬ (ltb 0 (suc n) ≡ false)
ltb-suc n e = ground arith

differ : ¬ (false ≡ true)
differ e = cc

module _ (db : Sources) (t0 : Trans) where
  -- What a preparation leaves.
  record Final (r : TransError × Trans × Allocs) : Type 0 where
    pub done : r.0 ≡ trans_ok → (r.1.prepared ≡ true) × IsClear r.1
    pub refused : ¬ (r.0 ≡ trans_ok) → r.1.prepared ≡ false
    pub reasons :
        (s : TransStep) → Memᴰ s r.1.plan → Memᴰ s t0.plan ⊎ Justified db t0 s.op s.pkg_name

  module _ (fresh : t0.prepared ≡ false) where
    Reached-Final :
        (r : TransError × Trans × Allocs) → ¬ (r.0 ≡ trans_ok) → Reached db t0 r.1 → Final r
    Reached-Final r bad h = record {
      done = λ e. absurd (bad e);
      refused = λ _. h.same_prepared ∙ fresh;
      reasons = h.justified;
    }

    then_trans-Final :
        (r : TransError × Trans × Allocs) (next : Trans → Allocs → TransError × Trans × Allocs)
        → Reached db t0 r.1
        → ((t : Trans) (rest : Allocs) → Reached db t0 t → Final (next t rest))
        → Final (then_trans r next)
    then_trans-Final r next h f = elim (TransError-cases r next) [
      | inl a ↦ subst Final (sym a.1) (f r.1 r.2 h)
      | inr b ↦ subst Final (sym b.0) (Reached-Final r b.1 h)
    ]

    conclude_prepare-Final :
        (t : Trans) (allocs : Allocs) → Reached db t0 t → Final (conclude_prepare t allocs)
    unfolding conclude_prepare
    conclude_prepare-Final t allocs h =
        if_rule Final (ltb 0 (length t.held_pkgs))
          (λ _. Reached-Final (TransError.err_held, t, allocs) (λ e. cc) h)
          (λ e1.
            if_rule Final (ltb 0 (length t.file_conflicts))
              (λ _. Reached-Final (TransError.err_file_conflict, t, allocs) (λ e. cc) h)
              (λ e2.
                if_rule Final (ltb 0 (length t.blocked_removes))
                  (λ _. Reached-Final (TransError.err_has_dependents, t, allocs) (λ e. cc) h)
                  (λ e3.
                    if_rule Final (ltb 0 (length t.conflicts))
                      (λ _. Reached-Final (TransError.err_conflict, t, allocs) (λ e. cc) h)
                      (λ e4. record {
                        done = λ _. (
                          refl,
                          record {
                            no_held = nothing t.held_pkgs e1;
                            no_file_conflict = nothing t.file_conflicts e2;
                            no_blocked = nothing t.blocked_removes e3;
                            no_conflict = nothing t.conflicts e4;
                          },
                        );
                        refused = λ bad. absurd (bad refl);
                        reasons = h.justified;
                      }))))
      where
        nothing : {A : Type 0} (xs : List A) → ltb 0 (length xs) ≡ false → xs ≡ []
        nothing [] e = refl
        nothing (x ∷ xs) e = absurd (ltb-suc (length xs) e)

    prepare_with-Final :
        (memory : Memory) (r : Option DepGraph × Allocs)
        → Final (prepare_with db memory t0 (map name_or_empty db.db_list) r)
    unfolding prepare_with
    prepare_with-Final memory (none, allocs) =
        Reached-Final (err_nomem, t0, allocs) (λ e. cc) (Reached-start db t0)
    prepare_with-Final memory (some g, allocs) =
        let (full, rest) = fill_graph db t0 g allocs in
        then_trans-Final (prepare_installs (map name_or_empty db.db_list) full memory t0 rest)
          (λ t1 rest1. then_trans (plan_upgrades db t1.upgrade_pkgs t1 rest1) (λ t2 rest2.
            then_trans (plan_removals db t2 rest2) (λ t3 rest3.
              then_trans (check_files db t3.install_pkgs t3 rest3)
                (λ t4 rest4. conclude_prepare t4 rest4))))
          (prepare_installs-Reached db t0 full memory t0 rest (Reached-start db t0))
          (λ t1 rest1 h1.
            then_trans-Final (plan_upgrades db t1.upgrade_pkgs t1 rest1)
              (λ t2 rest2. then_trans (plan_removals db t2 rest2) (λ t3 rest3.
                then_trans (check_files db t3.install_pkgs t3 rest3)
                  (λ t4 rest4. conclude_prepare t4 rest4)))
              (plan_upgrades-Reached db t0 t1.upgrade_pkgs t1 rest1 h1)
              (λ t2 rest2 h2.
                then_trans-Final (plan_removals db t2 rest2)
                  (λ t3 rest3.
                    then_trans (check_files db t3.install_pkgs t3 rest3)
                      (λ t4 rest4. conclude_prepare t4 rest4))
                  (plan_removals-Reached db t0 t2 rest2 h2)
                  (λ t3 rest3 h3.
                    then_trans-Final (check_files db t3.install_pkgs t3 rest3)
                      (λ t4 rest4. conclude_prepare t4 rest4)
                      (check_files-Reached db t0 t3.install_pkgs t3 rest3 h3)
                      (λ t4 rest4 h4. conclude_prepare-Final t4 rest4 h4))))

    trans_prepare-Final : (memory : Memory) → Final (trans_prepare db memory t0)
    unfolding trans_prepare
    trans_prepare-Final memory =
        if_rule Final t0.prepared (λ e. absurd (differ (sym fresh ∙ e)))
          (λ _.
            if_rule Final (ltb 0 (length db.db_list) && not (granted memory.start))
              (λ _.
                Reached-Final (err_nomem, t0, later memory.start) (λ e. cc) (Reached-start db t0))
              (λ _. prepare_with-Final memory (
                dep_graph_new
                  (if ltb 0 (length db.db_list) then later memory.start else memory.start))))

    -- Whatever trans_prepare returns for a transaction that is not prepared, every step that it adds to the plan is
    -- justified: what is installed is not installed already, what is upgraded or removed is not held, and
    -- what is removed was queued for it, with all its dependents unless their check is off.
    pub trans_prepare-Justified :
        (memory : Memory) (s : TransStep)
        → Memᴰ s (trans_prepare db memory t0).1.plan
        → Memᴰ s t0.plan ⊎ Justified db t0 s.op s.pkg_name
    trans_prepare-Justified memory s m = (trans_prepare-Final memory).reasons s m
