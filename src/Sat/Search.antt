-- ===== src/Sat/Search.antt =====
-- The search of src/graph/sat_solve.c: unit propagation, backtracking and `dpll`.
use lib_apg.Base.{
  ℕ, zero, suc, ◌+◌, Bool, true, false, ◌||◌, List, [], ◌∷◌, Option, none, some, get_or, get_elem?,
  set, length, ltb, leb, ◌==◌, if◌then◌else◌,
}
use lib_apg.Sat.Clause.{
  Lit, var, Value, undef, yea, nay, Kind, forced, Clause, Model, wanted, satisfied, counted, value,
  scan,
}

-- `struct sat_solve_ctx` with the trail, newest entry first; `trail_len` is its length. An
-- antecedent of SIZE_MAX is `none`. `clash` is `conflict_clause` if `has_conflict` is set.
-- `cancel` is what the coming loads of the atomic flag return: `false` past the end, and
-- `[]` for a NULL flag.
pub record Search : Type 0 where
  pub assign : List Value
  pub antecedent : List (Option ℕ)
  pub trail : List ℕ
  pub decisions : ℕ
  pub timed_out : Bool
  pub clash : Option ℕ
  pub aborted : Bool
  pub cancel : List Bool

-- `assign[var] = x; trail[trail_len++] = var;`
abbrev pub choose : ℕ → Value → Search → Search
choose v x s = record s { assign = set s.assign v x; trail = v ∷ s.trail }

-- The unit rule of `propagate`, which also records the clause.
abbrev pub imply : ℕ → Lit → Search → Search
imply c l s = record (choose (var l) (wanted l) s) {
  antecedent = set s.antecedent (var l) (some c);
}

-- The loop of `undo_to`, over the trail.
unfoldable pub undo_from : ℕ → List ℕ → Search → Search
undo_from mark [] s = record s { trail = [] }
undo_from mark (v ∷ t) s =
    if ltb mark (length (v ∷ t))
    then undo_from mark t
        (record s { assign = set s.assign v undef; antecedent = set s.antecedent v none })
    else record s { trail = v ∷ t }

abbrev pub undo_to : ℕ → Search → Search
undo_to mark s = undo_from mark s.trail s

-- The two loops of `pick_var`: upwards from v over n variables, and downwards from n.
unfoldable pub pick_up : List Value → ℕ → ℕ → Option ℕ
pick_up a v zero = none
pick_up a v (suc n) = elim (value a v) [ undef ↦ some v | _ ↦ pick_up a (v + 1) n ]

unfoldable pub pick_down : List Value → ℕ → Option ℕ
pick_down a zero = none
pick_down a (suc n) = elim (value a (suc n)) [ undef ↦ some (suc n) | _ ↦ pick_down a n ]

pub data Visit : Type 0 where
  quiet : Visit
  implied clashing : Search → Visit

pub data Swept : Type 0 where
  clean : Search → Bool → Swept
  clashed : Search → Swept

pub data Propagated : Type 0 where
  stable broken : Search → Propagated
  exhausted : Propagated

pub data Verdict : Type 0 where
  found failed out_of_fuel : Verdict

abbrev pub is_forced : Kind → Bool
is_forced forced = true
is_forced _ = false

abbrev pub opposite : Value → Value
opposite yea = nay
opposite nay = yea
opposite undef = undef

abbrev pub head_load : List Bool → Bool
head_load [] = false
head_load (b ∷ _) = b

abbrev pub next_loads : List Bool → List Bool
next_loads [] = []
next_loads (_ ∷ bs) = bs

module _ (m : Model) where
  -- Is `m->clauses[k].kind` SAT_CLAUSE_FORCED?
  abbrev pub forced_at : ℕ → Bool
  forced_at k = elim (get_elem? m.clauses k) [ none ↦ true | some cl ↦ is_forced cl.kind ]

  -- The clause that a conflict in clause c is blamed on.
  unfoldable pub blame : List Lit → List (Option ℕ) → ℕ → ℕ
  blame [] ante c = c
  blame (l ∷ ls) ante c = elim (get_or ante (var l) none) [
    | none ↦ blame ls ante c
    | some k ↦ elim (forced_at k) [ true ↦ blame ls ante c | false ↦ k ]
  ]

  unfoldable pub visit_counted : ℕ → Clause → Search → ℕ → Option Lit → Visit
  visit_counted c cl s n last =
      if n == 0
      then clashing (record s { clash = some (blame cl.lits s.antecedent c) })
      else if n == 1
      then elim last [ none ↦ quiet | some l ↦ implied (imply c l s) ]
      else quiet

  -- The body of the loop over the clauses in `propagate`.
  unfoldable pub visit : ℕ → Clause → Search → Visit
  visit c cl s = elim (scan s.assign cl.lits 0 none) [
    | satisfied ↦ quiet
    | counted n last ↦ visit_counted c cl s n last
  ]

  -- One round of `while (changed)`, from clause c on.
  unfoldable pub sweep : ℕ → List Clause → Search → Bool → Swept
  sweep c [] s changed = clean s changed
  sweep c (cl ∷ cs) s changed = elim (visit c cl s) [
    | quiet ↦ sweep (suc c) cs s changed
    | implied s' ↦ sweep (suc c) cs s' true
    | clashing s' ↦ clashed s'
  ]

  unfoldable pub propagate : ℕ → Search → Propagated
  propagate zero s = exhausted
  propagate (suc fuel) s = elim (sweep 0 m.clauses s false) [
    | clean s' true ↦ propagate fuel s'
    | clean s' false ↦ stable s'
    | clashed s' ↦ broken s'
  ]

  abbrev pub var_count : ℕ
  var_count = length m.vars

  unfoldable pub pick_var : Bool → List Value → Option ℕ
  unfolding pick_up pick_down
  pick_var reverse_order a = if reverse_order then pick_down a var_count else pick_up a 1 var_count

  module _ (budget : ℕ) (reverse_order prefer_false : Bool) where
    abbrev pub first_val : Value
    first_val = if prefer_false then nay else yea

    unfoldable pub after_second : ℕ → Verdict × Search → Verdict × Search
    after_second mark (failed, s) = (failed, undo_to mark s)
    after_second mark (v, s) = (v, s)

    -- `rec` is the recursive call of `dpll`.
    unfoldable pub after_first :
        ℕ → (Search → Verdict × Search) → ℕ → Verdict × Search → Verdict × Search
    after_first mark rec v (failed, s) =
        let s' = undo_to mark s in
        elim (s'.timed_out || s'.aborted) [
          | true ↦ (failed, s')
          | false ↦ after_second mark (rec (choose v (opposite first_val) s'))
        ]
    after_first mark rec v (found, s) = (found, s)
    after_first mark rec v (out_of_fuel, s) = (out_of_fuel, s)

    unfoldable pub decide : ℕ → (Search → Verdict × Search) → Search → Verdict × Search
    decide mark rec s = elim (pick_var reverse_order s.assign) [
      | none ↦ (found, s)
      | some v ↦ elim (leb budget s.decisions) [
        | true ↦ (failed, undo_to mark (record s { timed_out = true }))
        | false ↦
            after_first mark rec v
              (rec (choose v first_val (record s { decisions = s.decisions + 1 })))
      ]
    ]

    unfoldable pub explore :
        ℕ → (Search → Verdict × Search) → Search → Propagated → Verdict × Search
    explore mark rec s (stable s') = decide mark rec s'
    explore mark rec s (broken s') = (failed, undo_to mark s')
    explore mark rec s exhausted = (out_of_fuel, s)

    unfoldable pub enter : (Search → Verdict × Search) → Search → Verdict × Search
    enter rec s =
        let s' = record s { cancel = next_loads s.cancel } in
        elim (head_load s.cancel) [
          | true ↦ (failed, record s' { aborted = true })
          | false ↦ explore (length s.trail) rec s' (propagate (suc (suc var_count)) s')
        ]

    unfoldable pub dpll : ℕ → Search → Verdict × Search
    dpll zero s = (out_of_fuel, s)
    dpll (suc fuel) s = enter (λ t. dpll fuel t) s
