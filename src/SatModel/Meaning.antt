-- ===== src/SatModel/Meaning.antt =====
-- What the clauses of the model say of a selection of packages, and how the calls of
-- src/graph/sat_model.c compose.
use lib_apg.Base.{
  ℕ, suc, ◌-◌, ◌<◌, ◌≡◌, sym, ap, ◌∙◌, ◌≢◌, inl, inr, ◌↔◌, Bool, true, false, List, [], ◌∷◌, ◌++◌,
  Option, none, some, length, get_elem?, arith, All, subst, Allocs, get_elem?-some, get_elem?-lt,
}
use lib_apg.Package.{Package}
use lib_apg.Sat.Clause.{Lit, pos, neg, var, Clause}
use lib_apg.Sat.Scan.{Holds, HoldsSome, Satisfies}
use lib_apg.Sat.Visit.{LitOk}
use lib_apg.SatModel.{SatModel, with_var, then_build}
use lib_apg.SatModel.Vars.{ClauseGood, VarOf, IsValid, Grown, Grown-refl, Grown-trans}
use lib_apg.SatModel.NewVar.{VarPost}

-- A selection of packages, by address, as an assignment to the variables of a model.
abbrev pub picked_at : (ℕ → Bool) → Option Package → Bool
picked_at sel none = false
picked_at sel (some p) = sel p.addr

abbrev pub picked : (ℕ → Bool) → SatModel → ℕ → Bool
picked sel m v = picked_at sel (get_elem? m.vars (v - 1))

-- Two assignments that agree on the variables of the clauses.
Holds-cong : (ρ ρ' : ℕ → Bool) (l : Lit) → ρ (var l) ≡ ρ' (var l) → Holds ρ l ↔ Holds ρ' l
Holds-cong ρ ρ' (pos v) e = ((λ h. sym e ∙ h), (λ h. e ∙ h))
Holds-cong ρ ρ' (neg v) e = ((λ h. sym e ∙ h), (λ h. e ∙ h))

module _ (size : ℕ) (ρ ρ' : ℕ → Bool)
    (same : (l : Lit) → LitOk size l → ρ (var l) ≡ ρ' (var l)) where
  pub HoldsSome-cong : (ls : List Lit) → All (LitOk size) ls → HoldsSome ρ ls ↔ HoldsSome ρ' ls
  HoldsSome-cong [] good = ((λ h. h), (λ h. h))
  HoldsSome-cong (l ∷ ls) good =
      let (to, from) = Holds-cong ρ ρ' l (same l good.0) in
      let (tos, froms) = HoldsSome-cong ls good.1 in
      (
        λ h. elim h [ inl a ↦ inl (to a) | inr b ↦ inr (tos b) ],
        λ h. elim h [ inl a ↦ inl (from a) | inr b ↦ inr (froms b) ],
      )

  pub Satisfies-cong :
      (cs : List Clause) → All (ClauseGood size) cs → Satisfies ρ cs ↔ Satisfies ρ' cs
  Satisfies-cong [] good = ((λ h. h), (λ h. h))
  Satisfies-cong (c ∷ cs) good =
      let (to, from) = HoldsSome-cong c.lits good.0.lits_ok in
      let (tos, froms) = Satisfies-cong cs good.1 in
      ((λ h. (to h.0, tos h.1)), (λ h. (from h.0, froms h.1)))

pub Satisfies-append :
    (ρ : ℕ → Bool) (cs : List Clause) (c : Clause)
    → Satisfies ρ (cs ++ (c ∷ [])) ↔ (Satisfies ρ cs × HoldsSome ρ c.lits)
Satisfies-append ρ [] c = ((λ h. (tt, h.0)), (λ h. (h.1, tt)))
Satisfies-append ρ (d ∷ cs) c =
    let (to, from) = Satisfies-append ρ cs c in
    (λ h. ((h.0, (to h.1).0), (to h.1).1), λ h. (h.0.0, from (h.0.1, h.1)))

module _ (P : Package → Type 0) where
  -- The literals of a model mean the same in one that has grown.
  pub picked-Grown :
      (m m' : SatModel) (sel : ℕ → Bool)
      → Grown P m m'
      → (l : Lit) → LitOk (suc (length m.vars)) l
      → picked sel m (var l) ≡ picked sel m' (var l)
  picked-Grown m m' sel g l good =
      let (p, at) = get_elem?-some m.vars (var l - 1) (omega (arith, good)) in
      ap (picked_at sel) (at ∙ sym (g.keeps (var l - 1) p at))

  pub picked-VarOf :
      (m : SatModel) (sel : ℕ → Bool) (a v : ℕ) → IsValid P m → VarOf m a v → picked sel m v ≡ sel a
  picked-VarOf m sel a v ok e =
      let (_, p, at, same) = ok.found a v e in ap (picked_at sel) at ∙ ap sel same

  pub VarOf-LitOk :
      (m : SatModel) (a v : ℕ) → IsValid P m → VarOf m a v → (0 < v) × (v < suc (length m.vars))
  VarOf-LitOk m a v ok e =
      let (above, p, at, same) = ok.found a v e in
      (above, omega (arith, get_elem?-lt m.vars (v - 1) p at, above))

  -- The clauses that a call adds say Q of a selection.
  pub record Adds (m : SatModel) (Q : (ℕ → Bool) → Type 0) (m' : SatModel) : Type 0 where
    pub grown : Grown P m m'
    pub means :
        (sel : ℕ → Bool)
        → Satisfies (picked sel m') m'.clauses ↔ (Satisfies (picked sel m) m.clauses × Q sel)

  -- A call that fails only when an allocation does.
  abbrev pub BuildPost :
      Allocs → SatModel → ((ℕ → Bool) → Type 0) → Bool × SatModel × Allocs → Type 0
  BuildPost allocs m Q (true, m', rest) = Adds m Q m' × (allocs ≡ [] → rest ≡ [])
  BuildPost allocs m Q (false, m', rest) = allocs ≢ []

  pub nothing_added :
      (m : SatModel) (Q : (ℕ → Bool) → Type 0)
      → IsValid P m
      → ((sel : ℕ → Bool) → Q sel)
      → Adds m Q m
  nothing_added m Q ok free = record {
    grown = Grown-refl P m ok;
    means = λ sel. ((λ h. (h, free sel)), (λ h. h.0));
  }

  pub BuildPost-iff :
      (allocs : Allocs) (m : SatModel) (Q R : (ℕ → Bool) → Type 0) (r : Bool × SatModel × Allocs)
      → ((sel : ℕ → Bool) → Q sel ↔ R sel)
      → BuildPost allocs m Q r
      → BuildPost allocs m R r
  BuildPost-iff allocs m Q R (false, m', rest) iff p = p
  BuildPost-iff allocs m Q R (true, m', rest) iff p = (
    record {
      grown = p.0.grown;
      means = λ sel. (
        λ h. let (old, q) = (p.0.means sel).0 h in (old, (iff sel).0 q),
        λ h. (p.0.means sel).1 (h.0, (iff sel).1 h.1),
      );
    },
    p.1,
  )

  -- A step, and the rest.
  pub then_build-BuildPost :
      (allocs : Allocs) (m : SatModel) (Q R S : (ℕ → Bool) → Type 0) (r : Bool × SatModel × Allocs)
      (next : SatModel → Allocs → Bool × SatModel × Allocs)
      → ((sel : ℕ → Bool) → S sel ↔ (Q sel × R sel))
      → BuildPost allocs m Q r
      → ((m' : SatModel) (rest : Allocs) → Grown P m m' → BuildPost rest m' R (next m' rest))
      → BuildPost allocs m S (then_build r next)
  then_build-BuildPost allocs m Q R S (false, m', rest) next split p f = p
  then_build-BuildPost allocs m Q R S (true, m', rest) next split p f =
      by_next (next m' rest) (f m' rest p.0.grown)
    where
      by_next : (r : Bool × SatModel × Allocs) → BuildPost rest m' R r → BuildPost allocs m S r
      by_next (false, m'', rest') q = λ nil. q (p.1 nil)
      by_next (true, m'', rest') q = (
        record {
          grown = Grown-trans P m m' m'' p.0.grown q.0.grown;
          means = λ sel. (
            λ h.
                let (h', r) = (q.0.means sel).0 h in
                let (h'', s) = (p.0.means sel).0 h' in (h'', (split sel).1 (s, r)),
            λ h.
                let (s, r) = (split sel).0 h.1 in (q.0.means sel).1 ((p.0.means sel).1 (h.0, s), r),
          );
        },
        λ nil. q.1 (p.1 nil),
      )

  -- A step that adds variables but no clause, and the rest.
  pub same_clauses-BuildPost :
      (allocs rest : Allocs) (m m' : SatModel) (Q : (ℕ → Bool) → Type 0)
      (r : Bool × SatModel × Allocs)
      → IsValid P m
      → Grown P m m'
      → m'.clauses ≡ m.clauses
      → (allocs ≡ [] → rest ≡ [])
      → BuildPost rest m' Q r
      → BuildPost allocs m Q r
  same_clauses-BuildPost allocs rest m m' Q (false, m'', rest') ok g same nil q = λ e. q (nil e)
  same_clauses-BuildPost allocs rest m m' Q (true, m'', rest') ok g same nil q = (
    record {
      grown = Grown-trans P m m' m'' g q.0.grown;
      means = λ sel.
          let (to, from) =
            Satisfies-cong (suc (length m.vars)) (picked sel m) (picked sel m')
              (λ l good. picked-Grown m m' sel g l good) m.clauses ok.clauses_good in
          (
            λ h.
                let (h', x) = (q.0.means sel).0 h in
                (from (subst (Satisfies (picked sel m')) same h'), x),
            λ h. (q.0.means sel).1 (subst (Satisfies (picked sel m')) (sym same) (to h.0), h.1),
          );
    },
    λ e. q.1 (nil e),
  )

  -- A variable, and what is done with it.
  pub with_var-BuildPost :
      (allocs : Allocs) (m : SatModel) (a : ℕ) (Q : (ℕ → Bool) → Type 0)
      (r : Option ℕ × SatModel × Allocs) (next : ℕ → SatModel → Allocs → Bool × SatModel × Allocs)
      → IsValid P m
      → VarPost P allocs m a r
      → ((v : ℕ) (m' : SatModel) (rest : Allocs)
          → Grown P m m'
          → VarOf m' a v
          → BuildPost rest m' Q (next v m' rest))
      → BuildPost allocs m Q (with_var r next)
  with_var-BuildPost allocs m a Q (none, m', rest) next ok p f = p
  with_var-BuildPost allocs m a Q (some v, m', rest) next ok p f =
      let (g, same, found, nil) = p in
      same_clauses-BuildPost allocs rest m m' Q (next v m' rest) ok g same nil (f v m' rest g found)
