-- ===== src/Sat/Branch.antt =====
-- The two tries of `dpll` of src/graph/sat_solve.c on the chosen variable.
use lib_apg.Base.{
  ℕ, suc, ◌+◌, ◌≤◌, ◌<◌, ◌≡◌, refl, ap, ◌≢◌, ◌⊎◌, inl, inr, Bool, true, false, ◌∷◌, none, some, set,
  length, arith, ◌||◌, sym, ◌∙◌, leb, subst, Bool-cases,
}
use lib_apg.Sat.Clause.{Value, undef, yea, nay, value, Model}
use lib_apg.Sat.Search.{
  Search, choose, Verdict, found, failed, out_of_fuel, pick_var, var_count, undo_to, first_val,
  opposite, after_first, after_second, decide,
}
use lib_apg.Sat.Scan.{Satisfies, Fits, Extends}
use lib_apg.Sat.Trail.{
  Grew, stay, push, Grew-trans, Grew-length, Grew-undefs, Grew-trail-le, Grew-undef_back, undefs,
  InRange, Undone, undo_to-Undone,
}
use lib_apg.Sat.Visit.{total, Extends-set}
use lib_apg.Sat.Post.{FailedPost, Post, Sized, RecOk}

or-false_parts : (a b : Bool) → (a || b) ≡ false → (a ≡ false) × (b ≡ false)
or-false_parts a b h = ground arith

module _ (m : Model) (budget : ℕ) (reverse_order prefer_false : Bool) where
  -- The branches of `after_first` and `decide`, as equations.
  module _ (mark : ℕ) (rec : Search → Verdict × Search) (t : Search) (v : ℕ) where
    after_first-stop :
        (undo_to mark t).timed_out || (undo_to mark t).aborted ≡ true
        → after_first m budget reverse_order prefer_false mark rec v (failed, t)
          ≡ (failed, undo_to mark t)
    unfolding after_first
    after_first-stop e = rw (e, after_first)

    after_first-retry :
        (undo_to mark t).timed_out || (undo_to mark t).aborted ≡ false
        → after_first m budget reverse_order prefer_false mark rec v (failed, t)
          ≡ after_second m budget reverse_order prefer_false mark (
              rec (
                choose v
                  (opposite (first_val m budget reverse_order prefer_false))
                  (undo_to mark t)))
    unfolding after_first
    after_first-retry e = rw (e, after_first)

    pub decide-none :
        pick_var m reverse_order t.assign ≡ none
        → decide m budget reverse_order prefer_false mark rec t ≡ (found, t)
    unfolding decide
    decide-none e = rw (e, decide)

    pub decide-spent :
        pick_var m reverse_order t.assign ≡ some v
        → leb budget t.decisions ≡ true
        → decide m budget reverse_order prefer_false mark rec t
          ≡ (failed, undo_to mark (record t { timed_out = true }))
    unfolding decide
    decide-spent e f = rw (e, f, decide)

    pub decide-try :
        pick_var m reverse_order t.assign ≡ some v
        → leb budget t.decisions ≡ false
        → decide m budget reverse_order prefer_false mark rec t
          ≡ after_first m budget reverse_order prefer_false mark rec v (
              rec (
                choose v
                  (first_val m budget reverse_order prefer_false)
                  (record t { decisions = t.decisions + 1 })))
    unfolding decide
    decide-try e f = rw (e, f, decide)

  choose-InRange :
      (v : ℕ) (x : Value) (s : Search) → InRange (total m) s → InRange (total m) (choose v x s)
  choose-InRange v x s r = record { antecedent_lt = r.antecedent_lt; clash_lt = r.clash_lt }

  pub timed-InRange :
      (s : Search) → InRange (total m) s → InRange (total m) (record s { timed_out = true })
  timed-InRange s r = record { antecedent_lt = r.antecedent_lt; clash_lt = r.clash_lt }

  pub counted-InRange :
      (s : Search)
      → InRange (total m) s
      → InRange (total m) (record s { decisions = s.decisions + 1 })
  counted-InRange s r = record { antecedent_lt = r.antecedent_lt; clash_lt = r.clash_lt }

  -- A failed call below a growth of the entry state: undoing leads back to the entry.
  undo-failed :
      (s t u : Search)
      → Grew s.assign s.trail t.assign t.trail
      → FailedPost m budget reverse_order prefer_false t u
      → Undone s.assign s.trail u (undo_to (length s.trail) u)
  undo-failed s t u g p = undo_to-Undone s.assign s.trail u (rw (p.assign, p.trail) g)

  after_second-Post :
      (s t : Search) (r : Verdict × Search)
      → Grew s.assign s.trail t.assign t.trail
      → (s.decisions ≤ budget → t.decisions ≤ budget)
      → (InRange (total m) s → InRange (total m) t)
      → (((ρ : ℕ → Bool) → Extends ρ t.assign → ¬ Satisfies ρ m.clauses)
          → (ρ : ℕ → Bool) → Extends ρ s.assign
          → ¬ Satisfies ρ m.clauses)
      → Post m budget reverse_order prefer_false t r
      → Post m budget reverse_order prefer_false s
          (after_second m budget reverse_order prefer_false (length s.trail) r)
  unfolding after_second
  after_second-Post s t (found, u) g dec ran back p = record {
    grew = Grew-trans g p.grew;
    settled = p.settled;
    complete = p.complete;
    decisions = λ h. p.decisions (dec h);
  }
  after_second-Post s t (failed, u) g dec ran back p =
      let undone = undo-failed s t u g p in
      record {
        assign = undone.assign;
        trail = undone.trail;
        decisions = λ h. rw undone.decisions (p.decisions (dec h));
        in_range = λ r. undone.in_range (total m) (p.in_range (ran r));
        refuted = λ e f.
            let (rest, blamed) = p.refuted (sym undone.timed_out ∙ e) (sym undone.aborted ∙ f) in
            (back rest, (blamed.0, undone.clash ∙ blamed.1));
      }
  after_second-Post s t (out_of_fuel, u) g dec ran back p = p

  -- One of the two values fits every total assignment.
  either-Fits : (x : Value) (b : Bool) → x ≢ undef → Fits x b ⊎ Fits (opposite x) b
  either-Fits undef b ne = absurd (ne refl)
  either-Fits yea true ne = inl refl
  either-Fits yea false ne = inr refl
  either-Fits nay true ne = inr refl
  either-Fits nay false ne = inl refl

  -- The entry state s, a stable state t that it grew to, and the variable v that is tried.
  module _ (fuel : ℕ) (rec : Search → Verdict × Search)
      (ok : RecOk m budget reverse_order prefer_false fuel rec) (s t : Search) (v : ℕ) (x : Value)
      (size : Sized m budget reverse_order prefer_false s) (low : undefs s.assign < suc fuel)
      (grew : Grew s.assign s.trail t.assign t.trail) (unset : value t.assign v ≡ undef)
      (lt : v < suc (var_count m)) (given : x ≢ undef) (other : opposite x ≢ undef) where
    -- The state of the first try.
    abbrev first_try : Search
    first_try = choose v x t

    first-Grew : Grew s.assign s.trail (set t.assign v x) (v ∷ t.trail)
    first-Grew = push v x grew unset (omega (arith, Grew-length grew)) given

    pub first-Post : Post m budget reverse_order prefer_false (choose v x t) (rec (choose v x t))
    first-Post =
        ok (choose v x t) (Grew-length first-Grew ∙ size)
          (omega (arith, Grew-undefs first-Grew, Grew-trail-le grew))

    module _ (u : Search) (back : u.assign ≡ s.assign) (trail_back : u.trail ≡ s.trail) where
      second-Grew : Grew s.assign s.trail (set u.assign v (opposite x)) (v ∷ u.trail)
      second-Grew =
          rw (back, trail_back)
            (push v (opposite x) stay (Grew-undef_back v grew unset) (omega (arith, size)) other)

      second-Post :
          Post m budget reverse_order prefer_false
            (choose v (opposite x) u)
            (rec (choose v (opposite x) u))
      second-Post =
          ok (choose v (opposite x) u) (Grew-length second-Grew ∙ size)
            (omega (arith, Grew-undefs second-Grew, ap length trail_back))

    module _
        (sound : (ρ : ℕ → Bool) → Extends ρ s.assign → Satisfies ρ m.clauses → Extends ρ t.assign)
        (dec : s.decisions ≤ budget → t.decisions ≤ budget)
        (ran : InRange (total m) s → InRange (total m) t)
        (is_first : first_val m budget reverse_order prefer_false ≡ x) where
      -- If the first value fails, so must every total assignment that the second one refutes.
      both-refuted :
          (u : Search)
          → u.assign ≡ s.assign
          → ((ρ : ℕ → Bool) → Extends ρ (set t.assign v x) → ¬ Satisfies ρ m.clauses)
          → ((ρ : ℕ → Bool) → Extends ρ (set u.assign v (opposite x)) → ¬ Satisfies ρ m.clauses)
          → (ρ : ℕ → Bool) → Extends ρ s.assign
          → ¬ Satisfies ρ m.clauses
      both-refuted u back no_first no_second ρ ext sat = elim (either-Fits x (ρ v) given) [
        | inl fits ↦
            no_first ρ
              (Extends-set ρ t.assign v x (omega (arith, size, Grew-length grew)) (sound ρ ext sat)
                fits)
              sat
        | inr fits ↦
            no_second ρ
              (Extends-set ρ u.assign v (opposite x) (omega (arith, size, ap length back))
                (rw back ext) fits)
              sat
      ]

      pub after_first-Post :
          (r : Verdict × Search)
          → Post m budget reverse_order prefer_false (choose v x t) r
          → Post m budget reverse_order prefer_false s
              (after_first m budget reverse_order prefer_false (length s.trail) rec v r)
      unfolding after_first
      after_first-Post (found, u) p = record {
        grew = Grew-trans first-Grew p.grew;
        settled = p.settled;
        complete = p.complete;
        decisions = λ h. p.decisions (dec h);
      }
      after_first-Post (failed, u) p =
          let undone = undo-failed s (choose v x t) u first-Grew p in
          elim (Bool-cases
            ((undo_to (length s.trail) u).timed_out || (undo_to (length s.trail) u).aborted)) [
              | inl stop ↦
                  subst (Post m budget reverse_order prefer_false s)
                    (sym (after_first-stop (length s.trail) rec u v stop))
                    (record {
                      assign = undone.assign;
                      trail = undone.trail;
                      decisions = λ h. rw undone.decisions (p.decisions (dec h));
                      in_range = λ r.
                          undone.in_range (total m) (p.in_range (choose-InRange v x t (ran r)));
                      refuted = λ e f. cc;
                    })
              | inr go ↦
                  let u' = undo_to (length s.trail) u in
                  let quiet = or-false_parts u'.timed_out u'.aborted go in
                  let (no_first, _) =
                    p.refuted (sym undone.timed_out ∙ quiet.0) (sym undone.aborted ∙ quiet.1) in
                  subst (Post m budget reverse_order prefer_false s)
                    (sym (after_first-retry (length s.trail) rec u v go))
                    (rw is_first (
                      after_second-Post s (choose v (opposite x) u')
                        (rec (choose v (opposite x) u')) (second-Grew u' undone.assign undone.trail)
                        (λ h. rw undone.decisions (p.decisions (dec h)))
                        (λ r.
                          choose-InRange v (opposite x) u'
                            (undone.in_range (total m) (p.in_range (choose-InRange v x t (ran r)))))
                        (λ no_second. both-refuted u' undone.assign no_first no_second)
                        (second-Post u' undone.assign undone.trail)))
            ]
      after_first-Post (out_of_fuel, u) p = p
