-- ===== src/Sat/Trail.antt =====
-- The trail of src/graph/sat_solve.c: assignments that grow by entries of the trail, and `undo_to`.
use lib_apg.Base.{
  ℕ, zero, suc, ◌+◌, ◌≤◌, ◌<◌, ◌≡◌, refl, ap, ◌≢◌, inl, inr, true, false, List, [], ◌∷◌, Option,
  none, some, get_or, set, length, length-set, set-set_back, get_or-set_self, get_or-set_ne, arith,
  sym, ◌∙◌, ltb, lt→ltb, subst, get_or-set_cases,
}
use native.Mathlib.Decide.{ℕ_discrete}
use lib_apg.Sat.Clause.{Value, undef, yea, nay, value}
use lib_apg.Sat.Search.{Search, undo_from, undo_to}

-- An assignment and its trail grow by variables that were undefined.
pub data Grew (a : List Value) (t : List ℕ) : List Value → List ℕ → Type 0 where
  stay : Grew a t a t
  push :
      {b : List Value} {u : List ℕ} (v : ℕ) (x : Value)
      → Grew a t b u
      → value b v ≡ undef
      → v < length b
      → x ≢ undef
      → Grew a t (set b v x) (v ∷ u)

pub Grew-trans :
    {a : List Value} {t : List ℕ} {b : List Value} {u : List ℕ} {c : List Value} {w : List ℕ}
    → Grew a t b u
    → Grew b u c w
    → Grew a t c w
Grew-trans g stay = g
Grew-trans g (push v x h e lt ne) = push v x (Grew-trans g h) e lt ne

pub Grew-length :
    {a : List Value} {t : List ℕ} {b : List Value} {u : List ℕ} → Grew a t b u → length b ≡ length a
Grew-length stay = refl
Grew-length (push {b} v x g e lt ne) = length-set b v x ∙ Grew-length g

pub Grew-trail-le :
    {a : List Value} {t : List ℕ} {b : List Value} {u : List ℕ} → Grew a t b u → length t ≤ length u
Grew-trail-le stay = omega arith
Grew-trail-le (push v x g e lt ne) = omega (arith, Grew-trail-le g)

-- What is undefined at the end was undefined at the start.
pub Grew-undef_back :
    {a : List Value} {t : List ℕ} {b : List Value} {u : List ℕ} (v : ℕ)
    → Grew a t b u
    → value b v ≡ undef
    → value a v ≡ undef
Grew-undef_back v stay e = e
Grew-undef_back v (push {b} w x g o lt ne) e = elim (ℕ_discrete w v) [
  | yes same ↦ absurd (ne (sym (get_or-set_self b w x undef lt) ∙ rw (sym same) at e))
  | no other ↦ Grew-undef_back v g (rw (get_or-set_ne b w v x undef other) at e)
]

-- How many entries of an assignment are undefined.
abbrev pub undefs : List Value → ℕ
undefs [] = 0
undefs (undef ∷ a) = suc (undefs a)
undefs (_ ∷ a) = undefs a

pub undefs-le : (a : List Value) → undefs a ≤ length a
undefs-le [] = omega arith
undefs-le (undef ∷ a) = omega (arith, undefs-le a)
undefs-le (yea ∷ a) = omega (arith, undefs-le a)
undefs-le (nay ∷ a) = omega (arith, undefs-le a)

undefs-set :
    (a : List Value) (v : ℕ) (x : Value)
    → value a v ≡ undef
    → v < length a
    → x ≢ undef
    → suc (undefs (set a v x)) ≡ undefs a
undefs-set [] v x e lt ne = elim lt [ ]
undefs-set (undef ∷ a) zero undef e lt ne = absurd (ne refl)
undefs-set (undef ∷ a) zero yea e lt ne = refl
undefs-set (undef ∷ a) zero nay e lt ne = refl
undefs-set (undef ∷ a) (suc v) x e lt ne = ap suc (undefs-set a v x e (omega arith) ne)
undefs-set (yea ∷ a) zero x e lt ne = cc
undefs-set (yea ∷ a) (suc v) x e lt ne = undefs-set a v x e (omega arith) ne
undefs-set (nay ∷ a) zero x e lt ne = cc
undefs-set (nay ∷ a) (suc v) x e lt ne = undefs-set a v x e (omega arith) ne

-- Every entry of the trail uses up one undefined variable.
pub Grew-undefs :
    {a : List Value} {t : List ℕ} {b : List Value} {u : List ℕ}
    → Grew a t b u
    → undefs b + length u ≡ undefs a + length t
Grew-undefs stay = refl
Grew-undefs (push {b} v x g e lt ne) = omega (arith, Grew-undefs g, undefs-set b v x e lt ne)

-- Antecedents and the conflict clause name clauses of the model.
pub record InRange (n : ℕ) (s : Search) : Type 0 where
  pub antecedent_lt : (v k : ℕ) → get_or s.antecedent v none ≡ some k → k < n
  pub clash_lt : (k : ℕ) → s.clash ≡ some k → k < n

pub antecedent-set :
    (n : ℕ) (ante : List (Option ℕ)) (w : ℕ) (o : Option ℕ)
    → ((v k : ℕ) → get_or ante v none ≡ some k → k < n)
    → ((k : ℕ) → o ≡ some k → k < n)
    → (v k : ℕ) → get_or (set ante w o) v none ≡ some k
    → k < n
antecedent-set n ante w o all new v k h = elim (get_or-set_cases ante w v o none) [
  | inl e ↦ new k (sym e ∙ h)
  | inr e ↦ all v k (sym e ∙ h)
]

-- What `undo_to` restores, and what it leaves alone.
pub record Undone (a : List Value) (t : List ℕ) (s s' : Search) : Type 0 where
  pub assign : s'.assign ≡ a
  pub trail : s'.trail ≡ t
  pub decisions : s'.decisions ≡ s.decisions
  pub timed_out : s'.timed_out ≡ s.timed_out
  pub aborted : s'.aborted ≡ s.aborted
  pub clash : s'.clash ≡ s.clash
  pub in_range : (n : ℕ) → InRange n s → InRange n s'

undo_from_stay : (t : List ℕ) (s : Search) → Undone s.assign t s (undo_from (length t) t s)
unfolding undo_from
undo_from_stay [] s = record {
  assign = refl;
  trail = refl;
  decisions = refl;
  timed_out = refl;
  aborted = refl;
  clash = refl;
  in_range = λ n r. record { antecedent_lt = r.antecedent_lt; clash_lt = r.clash_lt };
}
undo_from_stay (v ∷ t) s =
    let e : ltb (suc (length t)) (suc (length t)) ≡ false = ground arith in
    rw e (record {
      assign = refl;
      trail = refl;
      decisions = refl;
      timed_out = refl;
      aborted = refl;
      clash = refl;
      in_range = λ n r. record { antecedent_lt = r.antecedent_lt; clash_lt = r.clash_lt };
    })

undo_from_grown :
    {a : List Value} {t : List ℕ} {b : List Value} {u : List ℕ}
    → Grew a t b u
    → (s : Search) → s.assign ≡ b
    → Undone a t s (undo_from (length t) u s)
unfolding undo_from
undo_from_grown {t} stay s e = rw (← e) (undo_from_stay t s)
undo_from_grown {t} (push {b} {u} v x g o lt ne) s e =
    let deeper : ltb (length t) (suc (length u)) ≡ true =
      lt→ltb _ _ (omega (arith, Grew-trail-le g)) in
    let s' = record s { assign = set s.assign v undef; antecedent = set s.antecedent v none } in
    let back : set s.assign v undef ≡ b =
      ap (λ c. set c v undef) e
      ∙ subst (λ y. set (set b v x) v y ≡ b) o (set-set_back b v x undef lt) in
    let ih = undo_from_grown g s' back in
    rw deeper (record {
      assign = ih.assign;
      trail = ih.trail;
      decisions = ih.decisions;
      timed_out = ih.timed_out;
      aborted = ih.aborted;
      clash = ih.clash;
      in_range = λ n r. ih.in_range n (record {
        antecedent_lt = antecedent-set n s.antecedent v none r.antecedent_lt (λ k h. cc);
        clash_lt = r.clash_lt;
      });
    })

-- Undoing to the mark restores the assignment and the trail of that time.
pub undo_to-Undone :
    (a : List Value) (t : List ℕ) (s : Search)
    → Grew a t s.assign s.trail
    → Undone a t s (undo_to (length t) s)
undo_to-Undone a t s g = undo_from_grown g s refl
