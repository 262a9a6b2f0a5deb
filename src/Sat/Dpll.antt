-- ===== src/Sat/Dpll.antt =====
-- What one call of `dpll` of src/graph/sat_solve.c does to the state.
use lib_apg.Base.{
  ℕ, zero, suc, ◌+◌, ◌<◌, refl, ◌≢◌, inl, inr, Bool, true, false, List, length, arith, sym, ◌∙◌,
  leb, subst, All, Bool-cases, Option-cases, if◌then◌else◌,
}
use lib_apg.Sat.Clause.{Value, undef, yea, nay, Model}
use lib_apg.Sat.Search.{
  Search, choose, Propagated, stable, broken, exhausted, Verdict, found, failed, out_of_fuel,
  propagate, pick_var, var_count, first_val, opposite, decide, explore, enter, dpll, head_load,
  next_loads,
}
use lib_apg.Sat.Scan.{Satisfies, Extends}
use lib_apg.Sat.Trail.{undefs, undefs-le, undo_to-Undone}
use lib_apg.Sat.Visit.{ClausesOk, Settled, Advances, total}
use lib_apg.Sat.Sweep.{PropagatePost, propagate-Post}
use lib_apg.Sat.Pick.{pick_var-some, pick_var-none}
use lib_apg.Sat.Post.{Post, Sized, RecOk}
use lib_apg.Sat.Branch.{
  decide-none, decide-spent, decide-try, timed-InRange, counted-InRange, after_first-Post,
  first-Post,
}

module _ (m : Model) (budget : ℕ) (reverse_order prefer_false : Bool) where
  opposite-ne-undef : (x : Value) → x ≢ undef → opposite x ≢ undef
  opposite-ne-undef undef ne = λ e. ne refl
  opposite-ne-undef yea ne = λ e. cc
  opposite-ne-undef nay ne = λ e. cc

  first_val-ne-undef : (b : Bool) → (if b then nay else yea) ≢ undef
  first_val-ne-undef true = λ e. cc
  first_val-ne-undef false = λ e. cc

  module _ (fuel : ℕ) (rec : Search → Verdict × Search)
      (ok : RecOk m budget reverse_order prefer_false fuel rec) where
    decide-Post :
        (s t : Search)
        → Sized m budget reverse_order prefer_false s
        → undefs s.assign < suc fuel
        → Advances (total m) s t
        → ((ρ : ℕ → Bool) → Extends ρ s.assign → Satisfies ρ m.clauses → Extends ρ t.assign)
        → All (Settled t.assign) m.clauses
        → Post m budget reverse_order prefer_false s
            (decide m budget reverse_order prefer_false (length s.trail) rec t)
    decide-Post s t size low adv sound settled =
        elim (Option-cases (pick_var m reverse_order t.assign)) [
          | inl no_var ↦
              subst (Post m budget reverse_order prefer_false s)
                (sym
                  (decide-none m budget reverse_order prefer_false (length s.trail) rec t 0 no_var))
                (record {
                  grew = adv.grew;
                  settled = settled;
                  complete = pick_var-none m reverse_order t.assign no_var;
                  decisions = λ h. omega (arith, adv.decisions);
                })
          | inr (v, picked) ↦ elim (Bool-cases (leb budget t.decisions)) [
            | inl spent ↦
                subst (Post m budget reverse_order prefer_false s)
                  (sym (
                    decide-spent m budget reverse_order prefer_false (length s.trail) rec t v picked
                      spent))
                  (let undone =
                      undo_to-Undone s.assign s.trail (record t { timed_out = true }) adv.grew in
                    record {
                      assign = undone.assign;
                      trail = undone.trail;
                      decisions = λ h. omega (arith, adv.decisions, undone.decisions);
                      in_range = λ r.
                          undone.in_range (total m)
                            (timed-InRange m budget reverse_order prefer_false t (adv.in_range r));
                      refuted = λ e f. cc (undone.timed_out, e);
                    })
            | inr free ↦
                subst (Post m budget reverse_order prefer_false s)
                  (sym (
                    decide-try m budget reverse_order prefer_false (length s.trail) rec t v picked
                      free))
                  (let (_, lt, unset) = pick_var-some m reverse_order t.assign v picked in
                    let x = first_val m budget reverse_order prefer_false in
                    let t' = record t { decisions = t.decisions + 1 } in
                    let given = first_val-ne-undef prefer_false in
                    after_first-Post m budget reverse_order prefer_false fuel rec ok s t' v x size
                      low adv.grew unset lt given (opposite-ne-undef x given) sound
                      (λ h. ground arith)
                      (λ r. counted-InRange m budget reverse_order prefer_false t (adv.in_range r))
                      refl (rec (choose v x t'))
                      (first-Post m budget reverse_order prefer_false fuel rec ok s t' v x size low
                        adv.grew unset lt given (opposite-ne-undef x given)))
          ]
        ]

    explore-Post :
        (s : Search) (r : Propagated)
        → Sized m budget reverse_order prefer_false s
        → undefs s.assign < suc fuel
        → PropagatePost m s r
        → Post m budget reverse_order prefer_false s
            (explore m budget reverse_order prefer_false (length s.trail) rec s r)
    unfolding explore
    explore-Post s (stable t) size low p = decide-Post s t size low p.0 p.1 p.2
    explore-Post s (broken t) size low p =
        let undone = undo_to-Undone s.assign s.trail t p.0.grew in
        record {
          assign = undone.assign;
          trail = undone.trail;
          decisions = λ h. omega (arith, undone.decisions, p.0.decisions);
          in_range = λ r. undone.in_range (total m) (p.0.in_range r);
          refuted = λ e f. (p.1, (p.2.0, undone.clash ∙ p.2.1));
        }
    explore-Post s exhausted size low p = p

    -- What the flag returned plays no part in the promise.
    Post-cancel :
        (s : Search) (bs : List Bool) (r : Verdict × Search)
        → Post m budget reverse_order prefer_false (record s { cancel = bs }) r
        → Post m budget reverse_order prefer_false s r
    Post-cancel s bs (found, t) p = record {
      grew = p.grew;
      settled = p.settled;
      complete = p.complete;
      decisions = p.decisions;
    }
    Post-cancel s bs (failed, t) p = record {
      assign = p.assign;
      trail = p.trail;
      decisions = p.decisions;
      in_range =
          λ r. p.in_range (record { antecedent_lt = r.antecedent_lt; clash_lt = r.clash_lt });
      refuted = p.refuted;
    }
    Post-cancel s bs (out_of_fuel, t) p = p

    enter-Post :
        (s : Search)
        → ClausesOk (suc (var_count m)) m.clauses
        → Sized m budget reverse_order prefer_false s
        → undefs s.assign < suc fuel
        → Post m budget reverse_order prefer_false s
            (enter m budget reverse_order prefer_false rec s)
    unfolding enter
    enter-Post s good size low = by_load (head_load s.cancel)
      where
        s' : Search
        s' = record s { cancel = next_loads s.cancel }

        by_load :
            (b : Bool)
            → Post m budget reverse_order prefer_false s (elim b [
              | true ↦ (failed, record s' { aborted = true })
              | false ↦
                  explore m budget reverse_order prefer_false
                    (length s.trail)
                    rec
                    s'
                    (propagate m (suc (suc (var_count m))) s')
            ])
        by_load true = record {
          assign = refl;
          trail = refl;
          decisions = λ h. h;
          in_range = λ r. record { antecedent_lt = r.antecedent_lt; clash_lt = r.clash_lt };
          refuted = λ e f. cc;
        }
        by_load false = Post-cancel s (next_loads s.cancel) _ (
            explore-Post s' (propagate m (suc (suc (var_count m))) s') size low (
              propagate-Post m (suc (suc (var_count m))) s'
                (omega (arith, undefs-le s.assign, size)) (rw size good)))

  pub dpll-Post :
      (fuel : ℕ) (s : Search)
      → ClausesOk (suc (var_count m)) m.clauses
      → Sized m budget reverse_order prefer_false s
      → undefs s.assign < fuel
      → Post m budget reverse_order prefer_false s (dpll m budget reverse_order prefer_false fuel s)
  unfolding dpll
  dpll-Post zero s good size low = elim low [ ]
  dpll-Post (suc fuel) s good size low =
      enter-Post fuel (λ t. dpll m budget reverse_order prefer_false fuel t)
        (λ t sz lw. dpll-Post fuel t good sz lw) s good size low
