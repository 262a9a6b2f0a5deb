-- ===== src/SatResolve/Candidacy.antt =====
-- The candidates that src/graph/sat.c collects, and what a selection of packages should be.
use lib_apg.Base.{
  ℕ, ◌≡◌, refl, sym, ◌∙◌, ◌≢◌, ◌⊎◌, inl, inr, ◌↔◌, Bool, true, false, List, [], ◌∷◌, Option, none,
  some, All, ap, All-of, All-Memᴰ, subst, Allocs,
}
use mathlib.Core.List.{Memᴰ}
use mathlib.Core.Option.{some-injective}
use lib_apg.CString.{CStr}
use lib_apg.Package.{DepConstraint, Package}
use lib_apg.Version.{ver_satisfies}
use lib_apg.Candidates.{CandidateSet, candidate_set_add_package}
use lib_apg.Candidates.Group.{IsValid, items_of}
use lib_apg.Candidates.Members.{Joined, JoinPost, candidate_set_add_package-JoinPost}
use lib_apg.SatModel.Lits.{SomeFits, IsClosedAt}
use lib_apg.SatModel.Conflicts.{NoneElse, IsFreeAt}
use lib_apg.SatModel.Built.{IsSelection}
use lib_apg.SatResolve.{add_candidates}

-- A package goes by its own name and by those that it provides.
abbrev pub GoesBy : Package → CStr → Type 0
GoesBy p name = (p.name ≡ some name) ⊎ Memᴰ name p.provides

abbrev pub IsNamed : Package → Type 0
IsNamed p = p.name ≢ none

-- A selection of the candidates, by address, in which every dependency of a selected candidate is
-- met by a selected candidate, and none of its conflicts is selected but itself.
pub record IsConsistent (candidates : List Package) (sel : ℕ → Bool) : Type 0 where
  pub closed :
      (p : Package) (d : DepConstraint)
      → Memᴰ p candidates
      → sel p.addr ≡ true
      → Memᴰ d p.dependencies
      → (c : Package) × Memᴰ c candidates
        × GoesBy c d.name
        × (ver_satisfies c.version d.op d.version ≡ true)
        × (sel c.addr ≡ true)
  pub compatible :
      (p c : Package) (name : CStr)
      → Memᴰ p candidates
      → sel p.addr ≡ true
      → Memᴰ name p.conflicts
      → Memᴰ c candidates
      → GoesBy c name
      → c.addr ≢ p.addr
      → sel c.addr ≡ false

-- The set has the candidates under the names by which they go.
pub record IsPool (candidates : List Package) (cs : CandidateSet) : Type 0 where
  pub listed : (j : CStr) (c : Package) → Memᴰ c (items_of cs j) → Memᴰ c candidates × GoesBy c j
  pub found : (j : CStr) (c : Package) → Memᴰ c candidates → GoesBy c j → Memᴰ c (items_of cs j)

-- A candidate of the list that fits and is selected.
abbrev Chosen : (ℕ → Bool) → DepConstraint → List Package → Type 0
Chosen sel d items =
    (c : Package) × Memᴰ c items
    × (ver_satisfies c.version d.op d.version ≡ true)
    × (sel c.addr ≡ true)

SomeFits-Chosen :
    (sel : ℕ → Bool) (d : DepConstraint) (items : List Package)
    → SomeFits sel d items
    → Chosen sel d items
SomeFits-Chosen sel d [] h = absurd h
SomeFits-Chosen sel d (c ∷ items) (inl a) = (c, Memᴰ.head refl, a.0, a.1)
SomeFits-Chosen sel d (c ∷ items) (inr b) =
    let (c', m, fit, on) = SomeFits-Chosen sel d items b in (c', Memᴰ.tail m, fit, on)

Chosen-SomeFits :
    (sel : ℕ → Bool) (d : DepConstraint) (items : List Package) (c : Package)
    → Memᴰ c items
    → ver_satisfies c.version d.op d.version ≡ true
    → sel c.addr ≡ true
    → SomeFits sel d items
Chosen-SomeFits sel d [] c m fit on = elim m [ ]
Chosen-SomeFits sel d (c' ∷ items) c (Memᴰ.head e) fit on = inl (
  subst (λ (p : Package). ver_satisfies p.version d.op d.version ≡ true) e fit,
  subst (λ (p : Package). sel p.addr ≡ true) e on,
)
Chosen-SomeFits sel d (c' ∷ items) c (Memᴰ.tail m) fit on =
    inr (Chosen-SomeFits sel d items c m fit on)

module _ (candidates : List Package) (cs : CandidateSet) (pool : IsPool candidates cs)
    (sel : ℕ → Bool) where
  pub IsSelection-IsConsistent : IsSelection cs candidates sel → IsConsistent candidates sel
  IsSelection-IsConsistent h = record {
    closed = λ p d here on dep.
        let fits =
          All-Memᴰ (λ e. SomeFits sel e (items_of cs e.name)) d p.dependencies
            ((All-Memᴰ (λ q. IsClosedAt cs sel q × IsFreeAt cs sel q) p candidates h here).0 on)
            dep in
        let (c, m, fit, chosen) = SomeFits-Chosen sel d (items_of cs d.name) fits in
        let (there, name) = pool.listed d.name c m in (c, there, name, fit, chosen);
    compatible = λ p c name here on bad there goes ne.
        All-Memᴰ (λ (o : Package). o.addr ≢ p.addr → sel o.addr ≡ false) c (items_of cs name)
          (All-Memᴰ (λ n. NoneElse sel p.addr (items_of cs n)) name p.conflicts
            ((All-Memᴰ (λ q. IsClosedAt cs sel q × IsFreeAt cs sel q) p candidates h here).1 on)
            bad)
          (pool.found name c there goes) ne;
  }

  pub IsConsistent-IsSelection : IsConsistent candidates sel → IsSelection cs candidates sel
  IsConsistent-IsSelection h =
      All-of (λ p. IsClosedAt cs sel p × IsFreeAt cs sel p) candidates
        (λ p here. (
          λ on.
              All-of (λ d. SomeFits sel d (items_of cs d.name)) p.dependencies
                (λ d dep.
                  let (c, there, goes, fit, chosen) = h.closed p d here on dep in
                  Chosen-SomeFits sel d (items_of cs d.name) c (pool.found d.name c there goes) fit
                    chosen),
          λ on.
              All-of (λ n. NoneElse sel p.addr (items_of cs n)) p.conflicts
                (λ n bad.
                  All-of (λ (o : Package). o.addr ≢ p.addr → sel o.addr ≡ false) (items_of cs n)
                    (λ o m ne.
                      let (there, goes) = pool.listed n o m in
                      h.compatible p o n here on bad there goes ne)),
        ))

-- What the loop over the candidates leaves.
abbrev pub AddedPost : CandidateSet → List Package → Option (Bool × CandidateSet × Allocs) → Type 0
AddedPost cs pkgs none = ¬ All IsNamed pkgs
AddedPost cs pkgs (some (false, cs', rest)) = Unit
AddedPost cs pkgs (some (true, cs', rest)) =
    IsValid cs'
    × ((j : CStr) (c : Package)
        → Memᴰ c (items_of cs' j) ↔ (Memᴰ c (items_of cs j) ⊎ Memᴰ c pkgs × GoesBy c j))

-- The names of a package.
GoesBy-iff :
    (p : Package) (name j : CStr) → p.name ≡ some name → Memᴰ j (name ∷ p.provides) ↔ GoesBy p j
GoesBy-iff p name j e = (to, from)
  where
    to : Memᴰ j (name ∷ p.provides) → GoesBy p j
    to (Memᴰ.head q) = inl (e ∙ ap some (sym q))
    to (Memᴰ.tail m) = inr m

    from : GoesBy p j → Memᴰ j (name ∷ p.provides)
    from (inl q) = Memᴰ.head (some-injective _ _ (sym q ∙ e))
    from (inr m) = Memᴰ.tail m

-- One package more, then the rest.
Joined-AddedPost :
    (cs cs' : CandidateSet) (pkg : Package) (pkgs : List Package) (name : CStr)
    (r : Option (Bool × CandidateSet × Allocs))
    → pkg.name ≡ some name
    → Joined cs pkg (λ j. Memᴰ j (name ∷ pkg.provides)) cs'
    → AddedPost cs' pkgs r
    → AddedPost cs (pkg ∷ pkgs) r
Joined-AddedPost cs cs' pkg pkgs name none e p q = λ named. q named.1
Joined-AddedPost cs cs' pkg pkgs name (some (false, cs'', rest)) e p q = tt
Joined-AddedPost cs cs' pkg pkgs name (some (true, cs'', rest)) e p q = (
  q.0,
  λ j c. (
    λ m. elim ((q.1 j c).0 m) [
      | inr b ↦ inr (Memᴰ.tail b.0, b.1)
      | inl n ↦ elim (p.split j c n) [
        | inl old ↦ inl old
        | inr a ↦
            inr (Memᴰ.head a.0, subst (λ t. GoesBy t j) (sym a.0) ((GoesBy-iff pkg name j e).0 a.1))
      ]
    ],
    λ h. elim h [ inl old ↦ (q.1 j c).1 (inl (p.old j c old)) | inr b ↦ by_place j c b.0 b.1 ],
  ),
)
  where
    by_place :
        (j : CStr) (c : Package) → Memᴰ c (pkg ∷ pkgs) → GoesBy c j → Memᴰ c (items_of cs'' j)
    by_place j c (Memᴰ.head s) goes = (q.1 j c).1 (
        inl (
          subst (λ t. Memᴰ t (items_of cs' j)) (sym s)
            (p.new j ((GoesBy-iff pkg name j e).1 (subst (λ t. GoesBy t j) s goes)))))
    by_place j c (Memᴰ.tail m) goes = (q.1 j c).1 (inr (m, goes))

pub add_candidates-AddedPost :
    (pkgs : List Package) (cs : CandidateSet) (allocs : Allocs)
    → IsValid cs
    → AddedPost cs pkgs (add_candidates pkgs cs allocs)
unfolding add_candidates
add_candidates-AddedPost [] cs allocs ok =
    (ok, λ j c. ((λ m. inl m), (λ h. elim h [ inl m ↦ m | inr b ↦ elim b.0 [ ] ])))
add_candidates-AddedPost (pkg ∷ pkgs) cs allocs ok =
    by_name pkg.name refl (λ cs' rest ok'. add_candidates-AddedPost pkgs cs' rest ok')
  where
    by_call :
        (name : CStr)
        → pkg.name ≡ some name
        → ((cs' : CandidateSet) (rest : Allocs)
            → IsValid cs'
            → AddedPost cs' pkgs (add_candidates pkgs cs' rest))
        → (r : Bool × CandidateSet × Allocs) → JoinPost cs pkg (λ j. Memᴰ j (name ∷ pkg.provides)) r
        → AddedPost cs (pkg ∷ pkgs) (elim r.0 as (λ _. Option (Bool × CandidateSet × Allocs)) [
          | true ↦ add_candidates pkgs r.1 r.2
          | false ↦ some (false, r.1, r.2)
        ])
    by_call name e rec (false, cs', rest) p = tt
    by_call name e rec (true, cs', rest) p =
        Joined-AddedPost cs cs' pkg pkgs name (add_candidates pkgs cs' rest) e p
          (rec cs' rest p.valid)

    by_name :
        (o : Option CStr)
        → pkg.name ≡ o
        → ((cs' : CandidateSet) (rest : Allocs)
            → IsValid cs'
            → AddedPost cs' pkgs (add_candidates pkgs cs' rest))
        → AddedPost cs (pkg ∷ pkgs) (elim o as (λ _. Option (Bool × CandidateSet × Allocs)) [
          | none ↦ none
          | some name ↦
              elim (candidate_set_add_package cs name pkg allocs).0
                as (λ _. Option (Bool × CandidateSet × Allocs)) [
                  | true ↦
                      add_candidates pkgs
                        (candidate_set_add_package cs name pkg allocs).1
                        (candidate_set_add_package cs name pkg allocs).2
                  | false ↦ some (
                    false,
                    (candidate_set_add_package cs name pkg allocs).1,
                    (candidate_set_add_package cs name pkg allocs).2,
                  )
                ]
        ])
    by_name none e rec = λ named. named.0 e
    by_name (some name) e rec =
        by_call name e rec (candidate_set_add_package cs name pkg allocs)
          (candidate_set_add_package-JoinPost cs name pkg allocs ok)

-- The pool that the loop over the candidates makes of a new set.
pub new-IsPool :
    (candidates : List Package) (cs cs' : CandidateSet) (rest : Allocs)
    → ((name : CStr) → items_of cs name ≡ [])
    → AddedPost cs candidates (some (true, cs', rest))
    → IsPool candidates cs'
new-IsPool candidates cs cs' rest empty p = record {
  listed = λ j c m. elim ((p.1 j c).0 m) [
    | inl old ↦ nothing c (subst (Memᴰ c) (empty j) old)
    | inr b ↦ b
  ];
  found = λ j c m goes. (p.1 j c).1 (inr (m, goes));
}
  where
    nothing : {T : Type 0} (c : Package) → Memᴰ c [] → T
    nothing c m = elim m [ ]
