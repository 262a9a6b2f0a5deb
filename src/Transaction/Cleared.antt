-- ===== src/Transaction/Cleared.antt =====
-- What empty reports say of the conflicts of src/transaction/prepare.c.
use lib_apg.Base.{
  ℕ, suc, ◌≡◌, refl, subst, ap, Bool, true, false, ◌&&◌, List, [], ◌∷◌, Option, none, some, length,
  map, All, Allocs, granted, later, if_rule, ltb, if◌then◌else◌, arith,
}
use mathlib.Core.List.{Memᴰ}
use lib_apg.CString.{CStr}
use lib_apg.Package.{Package}
use lib_apg.Graph.{DepError, DepGraph}
use lib_apg.Conflict.{
  looked_up, collect, FoundBreaks, breaks, find_breaks_of, dep_graph_find_breaks,
}
use lib_apg.Conflict.Breaks.{collect_complete}
use lib_apg.Transaction.{TransError, err_nomem, PackageFile, Trans}
use lib_apg.Transaction.Push.{then_trans, conflict_push}
use lib_apg.Transaction.Prepare.{
  Sources, Memory, name_or_empty, plan_installs, push_breaks, push_found, find_conflicts,
}
use lib_apg.Transaction.Planned.{prepare_installs}
use lib_apg.Transaction.Justified.{Reached}
use lib_apg.Transaction.Reasons.{plan_installs-Reached}
use lib_apg.Transaction.Clear.{
  IsHarmless, Post, Post-map, then_trans-Post, AnyState, conflict_push-Post,
}
use lib_apg.Transaction.Quiet.{plan_installs-Post}

ltb-suc : (n : ℕ) → ¬ (ltb 0 (suc n) ≡ false)
ltb-suc n e = ground arith

found_none :
    (b : Bool) (e : DepError) (xs : List CStr)
    → (if b then breaks xs else FoundBreaks.refused e) ≡ breaks []
    → xs ≡ []
found_none true e xs q = cc
found_none false e xs q = cc

not_member : (n : CStr) → ¬ Memᴰ n []
not_member n m = elim m [ ]

module _ (db : Sources) where
  abbrev installed_names : List CStr
  installed_names = map name_or_empty db.db_list

  push_breaks-Post :
      (name : CStr) (bs : List CStr) (t : Trans) (allocs : Allocs)
      → Post (bs ≡ []) t (push_breaks name bs t allocs)
  unfolding push_breaks
  push_breaks-Post name [] t allocs = λ ok clear. record { before = clear; fact = refl }
  push_breaks-Post name (b ∷ bs) t allocs =
      Post-map t
        (then_trans (conflict_push t name b allocs) (λ t' rest. push_breaks name bs t' rest))
        (λ (q : ⊥ × (bs ≡ [])). absurd q.0)
        (then_trans-Post AnyState t (conflict_push t name b allocs)
          (λ t' rest. push_breaks name bs t' rest) tt (conflict_push-Post t name b allocs)
          (λ t' rest _. push_breaks-Post name bs t' rest))

  push_found-Post :
      (name : CStr) (f : FoundBreaks) (t : Trans) (allocs : Allocs)
      → Post (f ≡ breaks []) t (push_found name f t allocs)
  unfolding push_found
  push_found-Post name (breaks bs) t allocs =
      Post-map t (push_breaks name bs t allocs) (ap (λ xs. breaks xs))
        (push_breaks-Post name bs t allocs)
  push_found-Post name (FoundBreaks.refused e) t allocs = λ ok clear. cc

  -- Nothing that is installed is broken.
  find_breaks-IsHarmless :
      (g : DepGraph) (name : CStr) (allocs : Allocs)
      → dep_graph_find_breaks g name installed_names allocs ≡ breaks []
      → IsHarmless db g name
  unfolding dep_graph_find_breaks find_breaks_of
  find_breaks-IsHarmless g name allocs = by_pkg (looked_up g name) refl
    where
      by_pkg :
          (o : Option Package)
          → looked_up g name ≡ o
          → find_breaks_of g o installed_names allocs ≡ breaks []
          → IsHarmless db g name
      by_pkg none at e = cc
      by_pkg (some pkg) at e = (
        pkg,
        at,
        λ n here broken. not_member n (
            subst (Memᴰ n) (found_none (granted allocs) _ (collect g pkg installed_names) e)
              (collect_complete g pkg n installed_names here broken)),
      )

  harmless :
      (g : DepGraph) (p : PackageFile) (m : Allocs) (t : Trans) (allocs : Allocs)
      → Post (IsHarmless db g (name_or_empty p)) t (
          push_found
            (name_or_empty p)
            (dep_graph_find_breaks g (name_or_empty p) installed_names m)
            t
            allocs)
  harmless g p m t allocs =
      Post-map t
        (push_found (name_or_empty p) (dep_graph_find_breaks g (name_or_empty p) installed_names m)
          t allocs)
        (find_breaks-IsHarmless g (name_or_empty p) m)
        (push_found-Post (name_or_empty p)
          (dep_graph_find_breaks g (name_or_empty p) installed_names m) t allocs)

  find_conflicts-Post :
      (g : DepGraph) (ps : List PackageFile) (ms : List Allocs) (t : Trans) (allocs : Allocs)
      → Post
          (All (λ p. IsHarmless db g (name_or_empty p)) ps)
          t
          (find_conflicts g installed_names ps ms t allocs)
  unfolding find_conflicts
  find_conflicts-Post g [] ms t allocs = λ ok clear. record { before = clear; fact = tt }
  find_conflicts-Post g (p ∷ ps) [] t allocs =
      then_trans-Post AnyState t _ _ tt (harmless g p [] t allocs)
        (λ t' rest _. find_conflicts-Post g ps [] t' rest)
  find_conflicts-Post g (p ∷ ps) (m ∷ ms) t allocs =
      then_trans-Post AnyState t _ _ tt (harmless g p m t allocs)
        (λ t' rest _. find_conflicts-Post g ps ms t' rest)

  pub prepare_installs-Post :
      (t0 : Trans) (g : DepGraph) (memory : Memory) (t : Trans) (allocs : Allocs)
      → Reached db t0 t
      → Post
          (All (λ p. IsHarmless db g (name_or_empty p)) t0.install_pkgs)
          t
          (prepare_installs installed_names g memory t allocs)
  unfolding prepare_installs
  prepare_installs-Post t0 g memory t allocs h =
      if_rule (Post (All (λ p. IsHarmless db g (name_or_empty p)) t0.install_pkgs) t)
        (ltb 0 (length t.install_pkgs))
        (λ _.
          Post-map t
            (then_trans (plan_installs installed_names g memory t allocs)
              (λ t' rest. conflicts_of t' rest))
            (λ (f : Unit × All (λ p. IsHarmless db g (name_or_empty p)) t0.install_pkgs). f.1)
            (then_trans-Post (Reached db t0) t (plan_installs installed_names g memory t allocs)
              (λ t' rest. conflicts_of t' rest) (plan_installs-Reached db t0 g memory t allocs h)
              (plan_installs-Post db g memory t allocs) conflicts_of-Post))
        (λ none_queued ok clear. record {
          before = clear;
          fact =
              subst (λ ps. All (λ p. IsHarmless db g (name_or_empty p)) ps) h.same_installs
                (nothing t.install_pkgs none_queued);
        })
    where
      conflicts_of : Trans → Allocs → TransError × Trans × Allocs
      conflicts_of t' rest =
          if granted rest && granted (later rest)
          then find_conflicts g installed_names t'.install_pkgs memory.breaking t'
              (later (later rest))
          else (err_nomem, t', later (later rest))

      conflicts_of-Post :
          (t' : Trans) (rest : Allocs)
          → Reached db t0 t'
          → Post
              (All (λ p. IsHarmless db g (name_or_empty p)) t0.install_pkgs)
              t'
              (conflicts_of t' rest)
      conflicts_of-Post t' rest h' =
          if_rule (Post (All (λ p. IsHarmless db g (name_or_empty p)) t0.install_pkgs) t')
            (granted rest && granted (later rest))
            (λ _.
              subst
                (λ ps. Post (All (λ p. IsHarmless db g (name_or_empty p)) ps) t' (
                  find_conflicts g installed_names t'.install_pkgs memory.breaking t'
                    (later (later rest))))
                h'.same_installs
                (find_conflicts-Post g t'.install_pkgs memory.breaking t' (later (later rest))))
            (λ _ ok clear. cc)

      nothing :
          (ps : List PackageFile)
          → ltb 0 (length ps) ≡ false
          → All (λ p. IsHarmless db g (name_or_empty p)) ps
      nothing [] e = tt
      nothing (p ∷ ps) e = absurd (ltb-suc (length ps) e)
