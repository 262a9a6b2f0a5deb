-- ===== src/SatModel/Vars.antt =====
-- The variables of the model: the invariant of `struct sat_model`, and `sat_model_var` of
-- src/graph/sat_model.c.
use lib_apg.Base.{
  ℕ, suc, ◌-◌, ◌≤◌, ◌<◌, ◌≡◌, refl, ◌≢◌, List, [], ◌∷◌, some, length, get_elem?, arith, All, subst,
}
use lib_apg.Package.{Package}
use lib_apg.Chains.{find_in}
use lib_apg.Chains.Rehash.{found_in}
use lib_apg.Chains.Valid.{IsPlaced}
use lib_apg.Sat.Clause.{Lit, Clause, conflict}
use lib_apg.Sat.Visit.{LitOk}
use lib_apg.SatModel.{VarEntry, ptr_hashed, SatModel, find_var}

-- What the solver relies on in a clause of a model with size - 1 variables.
pub record ClauseGood (size : ℕ) (c : Clause) : Type 0 where
  pub lits_ok : All (LitOk size) c.lits
  pub nonempty : c.lits ≢ []
  pub pair : c.kind ≡ conflict → 2 ≤ length c.lits

LitOk-mono : (a b : ℕ) (ls : List Lit) → a ≤ b → All (LitOk a) ls → All (LitOk b) ls
LitOk-mono a b [] le h = tt
LitOk-mono a b (l ∷ ls) le h = ((h.0.0, omega (arith, h.0.1)), LitOk-mono a b ls le h.1)

pub All-ClauseGood_mono :
    (a b : ℕ) (cs : List Clause) → a ≤ b → All (ClauseGood a) cs → All (ClauseGood b) cs
All-ClauseGood_mono a b [] le h = tt
All-ClauseGood_mono a b (c ∷ cs) le h = (
  record {
    lits_ok = LitOk-mono a b c.lits le h.0.lits_ok;
    nonempty = h.0.nonempty;
    pair = h.0.pair;
  },
  All-ClauseGood_mono a b cs le h.1,
)

pub find_var-found_in : (bs : List (List VarEntry)) (a : ℕ) → find_var bs a ≡ found_in bs a
unfolding find_var found_in find_in
find_var-found_in [] a = refl
find_var-found_in (b ∷ bs) a = refl

-- Variable v stands for the package at address a.
abbrev pub VarOf : SatModel → ℕ → ℕ → Type 0
VarOf m a v = find_var m.var_buckets a ≡ some v

-- `P` holds of every package that has a variable.
module _ (P : Package → Type 0) where
  -- The invariant: the index has exactly the variables, and the clauses are about them.
  pub record IsValid (m : SatModel) : Type 0 where
    pub buckets_placed : IsPlaced m.var_buckets
    pub indexed : (i : ℕ) (p : Package) → get_elem? m.vars i ≡ some p → VarOf m p.addr (suc i)
    pub found :
        (a v : ℕ)
        → VarOf m a v
        → (0 < v) × (p : Package) × (get_elem? m.vars (v - 1) ≡ some p) × (p.addr ≡ a)
    pub origin : (i : ℕ) (p : Package) → get_elem? m.vars i ≡ some p → P p
    pub clauses_good : All (ClauseGood (suc (length m.vars))) m.clauses

  -- Variables are only added.
  pub record Grown (m m' : SatModel) : Type 0 where
    pub valid : IsValid m'
    pub larger : length m.vars ≤ length m'.vars
    pub keeps : (i : ℕ) (p : Package) → get_elem? m.vars i ≡ some p → get_elem? m'.vars i ≡ some p

  pub Grown-refl : (m : SatModel) → IsValid m → Grown m m
  Grown-refl m h = record { valid = h; larger = omega arith; keeps = λ i p e. e }

  pub Grown-trans : (m m' m'' : SatModel) → Grown m m' → Grown m' m'' → Grown m m''
  Grown-trans m m' m'' g g' = record {
    valid = g'.valid;
    larger = omega (arith, g.larger, g'.larger);
    keeps = λ i p e. g'.keeps i p (g.keeps i p e);
  }

  pub Grown-VarOf :
      (m m' : SatModel) (a v : ℕ) → IsValid m → Grown m m' → VarOf m a v → VarOf m' a v
  Grown-VarOf m m' a v h g e =
      let (pos, p, at, same) = h.found a v e in
      let found : VarOf m' p.addr (suc (v - 1)) =
        g.valid.indexed (v - 1) p (g.keeps (v - 1) p at) in
      let back : suc (v - 1) ≡ v = omega (arith, pos) in
      subst (λ b. VarOf m' b v) same (subst (VarOf m' p.addr) back found)
