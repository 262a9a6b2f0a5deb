-- ===== src/Sat/Sweep.antt =====
-- Unit propagation, `propagate` of src/graph/sat_solve.c: one round, all rounds.
use lib_apg.Base.{
  ℕ, zero, suc, ◌+◌, ◌<◌, ◌≡◌, refl, ◌⊎◌, inl, inr, Bool, true, false, List, [], ◌∷◌, some, length,
  arith, sym, subst, All,
}
use lib_apg.Sat.Clause.{Clause, Model}
use lib_apg.Sat.Search.{
  Search, Visit, quiet, implied, clashing, Swept, clean, clashed, Propagated, stable, broken,
  exhausted, visit, sweep, propagate,
}
use lib_apg.Sat.Scan.{Satisfies, Extends}
use lib_apg.Sat.Trail.{Grew-length, Grew-undefs, Grew-trail-le, undefs}
use lib_apg.Sat.Visit.{
  ClausesOk, Settled, Advances, Advances-refl, Advances-trans, total, VisitPost, visit-Post,
}

module _ (m : Model) where
  record CleanPost (cs : List Clause) (s : Search) (changed : Bool) (s' : Search) (changed' : Bool)
      : Type 0 where
    pub advances : Advances (total m) s s'
    pub sound : (ρ : ℕ → Bool) → Extends ρ s.assign → Satisfies ρ cs → Extends ρ s'.assign
    pub idle : changed' ≡ false → (changed ≡ false) × (s' ≡ s) × All (Settled s.assign) cs
    pub busy : changed' ≡ true → (changed ≡ true) ⊎ (undefs s'.assign < undefs s.assign)

  abbrev SweepPost : List Clause → Search → Bool → Swept → Type 0
  SweepPost cs s changed (clean s' changed') = CleanPost cs s changed s' changed'
  SweepPost cs s changed (clashed s') =
      Advances (total m) s s'
      × ((ρ : ℕ → Bool) → Extends ρ s.assign → ¬ Satisfies ρ cs)
      × ((k : ℕ) × (s'.clash ≡ some k))

  quiet-step :
      (cl : Clause) (cs : List Clause) (s : Search) (changed : Bool) (r : Swept)
      → Settled s.assign cl
      → SweepPost cs s changed r
      → SweepPost (cl ∷ cs) s changed r
  quiet-step cl cs s changed (clean s' changed') now p = record {
    advances = p.advances;
    sound = λ ρ ext h. p.sound ρ ext h.1;
    idle = λ e. let (old, same, all) = p.idle e in (old, same, (now, all));
    busy = p.busy;
  }
  quiet-step cl cs s changed (clashed s') now p = (p.0, λ ρ ext h. p.1 ρ ext h.1, p.2)

  implied-step :
      (c : ℕ) (cl : Clause) (cs : List Clause) (s t : Search) (changed : Bool) (r : Swept)
      → VisitPost m c cl s (implied t)
      → SweepPost cs t true r
      → SweepPost (cl ∷ cs) s changed r
  implied-step c cl cs s t changed (clean s' changed') v p = record {
    advances = Advances-trans (total m) s t s' v.0 p.advances;
    sound = λ ρ ext h. p.sound ρ (v.2 ρ ext h.0) h.1;
    idle = λ e. cc ((p.idle e).0);
    busy =
        λ e. inr (omega (arith, v.1, Grew-undefs p.advances.grew, Grew-trail-le p.advances.grew));
  }
  implied-step c cl cs s t changed (clashed s') v p =
      (Advances-trans (total m) s t s' v.0 p.0, λ ρ ext h. p.1 ρ (v.2 ρ ext h.0) h.1, p.2)

  sweep-Post :
      (c : ℕ) (cs : List Clause) (s : Search) (changed : Bool)
      → c + length cs ≡ (total m)
      → ClausesOk (length s.assign) cs
      → SweepPost cs s changed (sweep m c cs s changed)
  unfolding sweep
  sweep-Post c [] s changed e good = record {
    advances = Advances-refl (total m) s;
    sound = λ ρ ext h. ext;
    idle = λ h. (h, refl, tt);
    busy = λ h. inl h;
  }
  sweep-Post c (cl ∷ cs) s changed e good =
      by_visit (visit m c cl s) (visit-Post m c cl s (omega arith) good.0)
        (sweep-Post (suc c) cs s changed (omega arith) good.1)
        (λ t g. sweep-Post (suc c) cs t true (omega arith) g)
    where
      by_visit :
          (v : Visit)
          → VisitPost m c cl s v
          → SweepPost cs s changed (sweep m (suc c) cs s changed)
          → ((t : Search)
              → ClausesOk (length t.assign) cs
              → SweepPost cs t true (sweep m (suc c) cs t true))
          → SweepPost (cl ∷ cs) s changed (elim v [
            | quiet ↦ sweep m (suc c) cs s changed
            | implied s' ↦ sweep m (suc c) cs s' true
            | clashing s' ↦ clashed s'
          ])
      by_visit quiet p same next = quiet-step cl cs s changed (sweep m (suc c) cs s changed) p same
      by_visit (implied t) p same next =
          implied-step c cl cs s t changed (sweep m (suc c) cs t true) p
            (next t (rw (Grew-length p.0.grew) good.1))
      by_visit (clashing t) p same next = (p.0, λ ρ ext h. p.1 ρ ext h.0, p.2)

  -- What `propagate` promises: a stable state is settled and keeps every solution that extends the
  -- old assignment, and a broken state shows that there is none. With fuel above the number of
  -- undefined variables it ends.
  abbrev pub PropagatePost : Search → Propagated → Type 0
  PropagatePost s (stable s') =
      Advances (total m) s s'
      × ((ρ : ℕ → Bool) → Extends ρ s.assign → Satisfies ρ m.clauses → Extends ρ s'.assign)
      × All (Settled s'.assign) m.clauses
  PropagatePost s (broken s') =
      Advances (total m) s s'
      × ((ρ : ℕ → Bool) → Extends ρ s.assign → ¬ Satisfies ρ m.clauses)
      × ((k : ℕ) × (s'.clash ≡ some k))
  PropagatePost s exhausted = ⊥

  pub propagate-Post :
      (fuel : ℕ) (s : Search)
      → undefs s.assign < fuel
      → ClausesOk (length s.assign) m.clauses
      → PropagatePost s (propagate m fuel s)
  unfolding propagate
  propagate-Post zero s lt good = elim lt [ ]
  propagate-Post (suc fuel) s lt good =
      by_sweep (sweep m 0 m.clauses s false) (sweep-Post 0 m.clauses s false (omega arith) good)
        (λ t l g. propagate-Post fuel t l g)
    where
      by_sweep :
          (r : Swept)
          → SweepPost m.clauses s false r
          → ((t : Search)
              → undefs t.assign < fuel
              → ClausesOk (length t.assign) m.clauses
              → PropagatePost t (propagate m fuel t))
          → PropagatePost s (elim r [
            | clean s' true ↦ propagate m fuel s'
            | clean s' false ↦ stable s'
            | clashed s' ↦ broken s'
          ])
      by_sweep (clean t false) p next = (
        p.advances,
        p.sound,
        subst (λ (u : Search). All (Settled u.assign) m.clauses) (sym (p.idle refl).1)
            (p.idle refl).2,
      )
      by_sweep (clean t true) p next = after t p (propagate m fuel t) (
          next t (elim (p.busy refl) [ inl e ↦ cc | inr h ↦ omega arith ])
            (rw (Grew-length p.advances.grew) good))
        where
          after :
              (t : Search)
              → CleanPost m.clauses s false t true
              → (r : Propagated) → PropagatePost t r
              → PropagatePost s r
          after t p (stable u) q = (
            Advances-trans (total m) s t u p.advances q.0,
            λ ρ ext h. q.1 ρ (p.sound ρ ext h) h,
            q.2,
          )
          after t p (broken u) q = (
            Advances-trans (total m) s t u p.advances q.0,
            λ ρ ext h. q.1 ρ (p.sound ρ ext h) h,
            q.2,
          )
          after t p exhausted q = q
      by_sweep (clashed t) p next = p
