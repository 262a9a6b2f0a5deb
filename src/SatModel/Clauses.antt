-- ===== src/SatModel/Clauses.antt =====
-- `add_clause` and `sat_model_force` of src/graph/sat_model.c.
use lib_apg.Base.{
  ℕ, suc, ◌≡◌, refl, ◌∙◌, sym, ◌≢◌, inl, inr, ◌↔◌, Bool, true, false, List, [], ◌∷◌, Option, none,
  some, length, arith, All-append, Allocs, grow,
}
use lib_apg.Package.{Package}
use lib_apg.Sat.Clause.{Lit, pos, Clause, forced}
use lib_apg.Sat.Scan.{HoldsSome}
use lib_apg.SatModel.{
  SatModel, sat_model_var, copy_lits, push_clause, clause_room, add_clause, sat_model_force,
}
use lib_apg.SatModel.Vars.{ClauseGood, IsValid}
use lib_apg.SatModel.NewVar.{sat_model_var-VarPost, grow-full, grow-nil, granted-nil, later-nil}
use lib_apg.SatModel.Meaning.{
  picked, picked-VarOf, VarOf-LitOk, Satisfies-append, BuildPost, with_var-BuildPost,
}

copy_lits-full : (ls : List Lit) (allocs : Allocs) → (copy_lits ls allocs).0 ≡ false → allocs ≢ []
unfolding copy_lits
copy_lits-full [] allocs e = cc
copy_lits-full (l ∷ ls) allocs e = granted-nil allocs e

copy_lits-nil : (ls : List Lit) (allocs : Allocs) → allocs ≡ [] → (copy_lits ls allocs).1 ≡ []
unfolding copy_lits
copy_lits-nil [] allocs e = e
copy_lits-nil (l ∷ ls) allocs e = later-nil allocs e

module _ (P : Package → Type 0) where
  module _ (allocs0 : Allocs) (m : SatModel) (ok : IsValid P m) (cl : Clause)
      (good : ClauseGood (suc (length m.vars)) cl) (Q : (ℕ → Bool) → Type 0)
      (says : (sel : ℕ → Bool) → HoldsSome (picked sel m) cl.lits ↔ Q sel) where
    push_clause-BuildPost :
        (cap : ℕ) (r : Bool × Allocs)
        → (r.0 ≡ false → allocs0 ≢ [])
        → (allocs0 ≡ [] → r.1 ≡ [])
        → BuildPost P allocs0 m Q (push_clause cl (record m { clause_cap = cap }) r)
    unfolding push_clause
    push_clause-BuildPost cap (false, allocs) full nil = full refl
    push_clause-BuildPost cap (true, allocs) full nil = (
      record {
        grown = record {
          valid = record {
            buckets_placed = ok.buckets_placed;
            indexed = ok.indexed;
            found = ok.found;
            origin = ok.origin;
            clauses_good =
                All-append (ClauseGood (suc (length m.vars))) m.clauses (cl ∷ []) ok.clauses_good
                  (good, tt);
          };
          larger = omega arith;
          keeps = λ i p e. e;
        };
        means = λ sel.
            let (to, from) = Satisfies-append (picked sel m) m.clauses cl in
            (λ h. ((to h).0, (says sel).0 (to h).1), λ h. from (h.0, (says sel).1 h.1));
      },
      nil,
    )

    clause_room-BuildPost :
        (r : Option ℕ × Allocs)
        → (r.0 ≡ none → allocs0 ≢ [])
        → (allocs0 ≡ [] → r.1 ≡ [])
        → BuildPost P allocs0 m Q (clause_room cl m r)
    unfolding clause_room
    clause_room-BuildPost (none, allocs) full nil = full refl
    clause_room-BuildPost (some room, allocs) full nil =
        push_clause-BuildPost room (copy_lits cl.lits allocs)
          (λ e q. copy_lits-full cl.lits allocs e (nil q))
          (λ q. copy_lits-nil cl.lits allocs (nil q))

    pub add_clause-BuildPost : BuildPost P allocs0 m Q (add_clause cl m allocs0)
    unfolding add_clause
    add_clause-BuildPost =
        clause_room-BuildPost (grow (length m.clauses) m.clause_cap 16 allocs0)
          (grow-full (length m.clauses) m.clause_cap allocs0)
          (grow-nil (length m.clauses) m.clause_cap allocs0)

  -- A forced package is selected.
  pub sat_model_force-BuildPost :
      (m : SatModel) (pkg : Package) (allocs : Allocs)
      → IsValid P m
      → P pkg
      → BuildPost P allocs m (λ sel. sel pkg.addr ≡ true) (sat_model_force m pkg allocs)
  unfolding sat_model_force
  sat_model_force-BuildPost m pkg allocs ok from =
      with_var-BuildPost P allocs m pkg.addr (λ sel. sel pkg.addr ≡ true)
        (sat_model_var m pkg allocs)
        (λ v m' rest.
          add_clause (record { lits = pos v ∷ []; kind = forced; dep_name = none }) m' rest)
        ok (sat_model_var-VarPost P m pkg allocs ok from)
        (λ v m' rest g found.
          add_clause-BuildPost rest m' g.valid
            (record { lits = pos v ∷ []; kind = forced; dep_name = none })
            (record {
              lits_ok = (VarOf-LitOk P m' pkg.addr v g.valid found, tt);
              nonempty = λ e. cc;
              pair = λ e. cc;
            })
            (λ sel. sel pkg.addr ≡ true)
            (λ sel.
              let same = picked-VarOf P m' sel pkg.addr v g.valid found in
              (λ h. elim h [ inl e ↦ sym same ∙ e | inr b ↦ absurd b ], λ e. inl (same ∙ e))))
