-- ===== src/Sat/Explain.antt =====
-- Every UNSATISFIABLE answer comes with a text: `explain_conflict` of src/graph/sat_solve.c reads
-- no array out of bounds.
use lib_apg.Base.{
  ℕ, suc, ◌-◌, ◌≤◌, ◌<◌, ◌≡◌, refl, sym, ◌∙◌, ◌⊎◌, inl, inr, Bool, List, [], ◌∷◌, Option, none,
  some, length, arith, All, All-get_elem?, get_elem?-some, subst, if_rule, get_or-replicate, ◌==◌,
}
use lib_apg.CString.{CStr}
use lib_apg.Sat.Clause.{Lit, var, Kind, dependency, conflict, forced, Clause, Model}
use lib_apg.Sat.Search.{Search, Verdict, found, failed, out_of_fuel, var_count, dpll}
use lib_apg.Sat.Trail.{InRange}
use lib_apg.Sat.Visit.{LitOk, total}
use lib_apg.Sat.Post.{Post}
use lib_apg.Sat.Solve.{
  SatResult, Message, satisfiable, unsatisfiable, budget_exceeded, error, stuck, initial, conclude,
  solve_core, text_or_unknown, explanation, explain_conflict, explain_clause, explain_named,
  explain_pair, name_of,
}
use lib_apg.Sat.Sound.{ModelOk, run-Post}

Kind-cases : (k : Kind) → (k ≡ dependency) ⊎ (k ≡ conflict) ⊎ (k ≡ forced)
Kind-cases dependency = inl refl
Kind-cases conflict = inr (inl refl)
Kind-cases forced = inr (inr refl)

none-lt : (k n : ℕ) → ◌≡◌ {A = Option ℕ} none (some k) → k < n
none-lt k n h = cc

module _ (m : Model) (ok : ModelOk m)
    (pairs : All (λ c. c.kind ≡ conflict → 2 ≤ length c.lits) m.clauses) where
  name_of-some : (l : Lit) → LitOk (suc (var_count m)) l → (t : CStr) × (name_of m (var l) ≡ some t)
  unfolding name_of
  name_of-some l good =
      let (p, e) = get_elem?-some m.vars (var l - 1) (omega (arith, good)) in
      (text_or_unknown p.name, rw (e, name_of))

  explain_pair-some :
      (name0 : CStr) (ls : List Lit)
      → All (LitOk (suc (var_count m))) ls
      → 1 ≤ length ls
      → (t : Message) × (explain_pair m name0 ls ≡ some t)
  unfolding explain_pair
  explain_pair-some name0 [] good two = absurd (omega arith)
  explain_pair-some name0 (l ∷ _) good two =
      let (t, e) = name_of-some l good.0 in (Message.conflicts name0 t, rw (e, explain_pair))

  explain_named-some :
      (cl : Clause) (rest : List Lit) (name0 : CStr)
      → All (LitOk (suc (var_count m))) rest
      → (cl.kind ≡ conflict → 1 ≤ length rest)
      → (t : Message) × (explain_named m cl rest name0 ≡ some t)
  unfolding explain_named
  explain_named-some cl rest name0 good two = elim (Kind-cases cl.kind) [
    | inl e ↦ (Message.requires name0 (text_or_unknown cl.dep_name), rw (e, explain_named))
    | inr (inl e) ↦
        let (t, f) = explain_pair-some name0 rest good (two e) in (t, rw (e, explain_named) f)
    | inr (inr e) ↦ (Message.required name0, rw (e, explain_named))
  ]

  explain_clause-some :
      (cl : Clause) (ls : List Lit)
      → All (LitOk (suc (var_count m))) ls
      → (cl.kind ≡ conflict → 2 ≤ length ls)
      → (t : Message) × (explain_clause m cl ls ≡ some t)
  unfolding explain_clause
  explain_clause-some cl [] good two = (Message.empty_clause, refl)
  explain_clause-some cl (l ∷ rest) good two =
      let (t, e) = name_of-some l good.0 in
      let (text, f) = explain_named-some cl rest t good.1 (λ k. omega (arith, two k)) in
      (text, rw (e, explain_clause) f)

  explain_conflict-some : (k : ℕ) → k < total m → (t : Message) × (explain_conflict m k ≡ some t)
  unfolding explain_conflict
  explain_conflict-some k lt =
      let (cl, e) = get_elem?-some m.clauses k lt in
      let (t, f) =
        explain_clause-some cl cl.lits
          (All-get_elem? (λ c. All (LitOk (suc (var_count m))) c.lits) m.clauses k cl ok.clauses_ok
            e)
          (All-get_elem? (λ c. c.kind ≡ conflict → 2 ≤ length c.lits) m.clauses k cl pairs e) in
      (t, rw (e, explain_conflict) f)

  module _ (budget : ℕ) (reverse_order prefer_false : Bool) (cancel : List Bool) where
    initial-InRange : InRange (total m) (initial m cancel)
    initial-InRange = record {
      antecedent_lt =
          λ v k h. none-lt k (total m) (sym (get_or-replicate (suc (var_count m)) v none) ∙ h);
      clash_lt = λ k h. cc;
    }

    abbrev Explained : SatResult → Type 0
    Explained (unsatisfiable e) = (t : Message) × (e ≡ some t)
    Explained (satisfiable _) = Unit
    Explained budget_exceeded = Unit
    Explained error = Unit
    Explained stuck = Unit

    conclude-Explained :
        (r : Verdict × Search)
        → Post m budget reverse_order prefer_false (initial m cancel) r
        → Explained (conclude m [] r)
    unfolding conclude explanation
    conclude-Explained (found, s) p =
        if_rule Explained s.aborted (λ _. tt)
          (λ _. if_rule Explained s.timed_out (λ _. tt) (λ _. tt))
    conclude-Explained (failed, s) p =
        if_rule Explained s.aborted (λ _. tt)
          (λ f.
            if_rule Explained s.timed_out (λ _. tt)
              (λ e.
                let (k, clash) = (p.refuted e f).1 in
                let (t, text) =
                  explain_conflict-some k ((p.in_range initial-InRange).clash_lt k clash) in
                (t, rw (clash, explanation) text)))
    conclude-Explained (out_of_fuel, s) p = tt

    solve_core-Explained : Explained (solve_core m budget cancel reverse_order prefer_false [])
    unfolding solve_core
    solve_core-Explained =
        if_rule Explained (var_count m == 0) (λ _. tt)
          (λ _. conclude-Explained run (run-Post m ok budget reverse_order prefer_false cancel))
      where
        run : Verdict × Search
        run = dpll m budget reverse_order prefer_false (suc (suc (var_count m))) (initial m cancel)

    -- If memory does not run out and every conflict clause has two literals, every UNSATISFIABLE
    -- answer to a model that is `ModelOk` carries an explanation: a conflict was
    -- recorded, and the texts of its clause and packages are read inside their arrays.
    pub solve_core_explains :
        (e : Option Message)
        → solve_core m budget cancel reverse_order prefer_false [] ≡ unsatisfiable e
        → (t : Message) × (e ≡ some t)
    solve_core_explains e h = subst Explained h solve_core-Explained
