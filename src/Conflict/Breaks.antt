-- ===== src/Conflict/Breaks.antt =====
-- `dep_graph_find_breaks` of src/graph/conflict.c against what a conflict is.
use lib_apg.Base.{
  ◌≡◌, refl, sym, ◌∙◌, ap, ◌⊎◌, inl, inr, ◌↔◌, Bool, true, false, ◌||◌, List, [], ◌∷◌, Option, none,
  some, if◌then◌else◌, subst,
}
use mathlib.Core.List.{Memᴰ}
use lib_apg.CString.{CStr, str_eq, str_eq_sound, str_eq_refl}
use lib_apg.Package.{Package}
use lib_apg.Graph.{DepGraph}
use lib_apg.Conflict.{
  str_list_contains, contains_any, contains_name, clashes, looked_up, clashes_found, is_broken,
  collect, breaks, find_breaks_of, dep_graph_find_breaks,
}

-- One of the names is in the list.
abbrev pub Meets : List CStr → List CStr → Type 0
Meets list names = (name : CStr) × Memᴰ name names × Memᴰ name list

-- A package names another one, or a name that it provides, as a conflict.
pub data Clash (pkg inst : Package) : Type 0 where
  by_name : (name : CStr) → pkg.name ≡ some name → Memᴰ name inst.conflicts → Clash pkg inst
  by_provides : Meets inst.conflicts pkg.provides → Clash pkg inst
  against_provides : Meets pkg.conflicts inst.provides → Clash pkg inst

pub data Broken (g : DepGraph) (pkg : Package) (inst_name : CStr) : Type 0 where
  declared : Memᴰ inst_name pkg.conflicts → Broken g pkg inst_name
  clashing :
      (inst : Package) → looked_up g inst_name ≡ some inst → Clash pkg inst → Broken g pkg inst_name

or-cases : (a b : Bool) → (a || b) ≡ true → (a ≡ true) ⊎ (b ≡ true)
or-cases true b h = inl refl
or-cases false b h = inr h

or-left : (a b : Bool) → a ≡ true → (a || b) ≡ true
or-left a b h = rw h

or-right : (a b : Bool) → b ≡ true → (a || b) ≡ true
or-right true b h = refl
or-right false b h = h

contains_sound : (xs : List CStr) (s : CStr) → str_list_contains xs s ≡ true → Memᴰ s xs
unfolding str_list_contains
contains_sound [] s h = cc
contains_sound (x ∷ xs) s h = elim (or-cases (str_eq x s) (str_list_contains xs s) h) [
  | inl e ↦ Memᴰ.head (sym (str_eq_sound x s e))
  | inr t ↦ Memᴰ.tail (contains_sound xs s t)
]

contains_complete : (xs : List CStr) (s : CStr) → Memᴰ s xs → str_list_contains xs s ≡ true
unfolding str_list_contains
contains_complete [] s m = elim m [ ]
contains_complete (x ∷ xs) s (Memᴰ.head e) =
    or-left (str_eq x s) (str_list_contains xs s)
      (subst (λ t. str_eq x t ≡ true) (sym e) (str_eq_refl x))
contains_complete (x ∷ xs) s (Memᴰ.tail m) =
    or-right (str_eq x s) (str_list_contains xs s) (contains_complete xs s m)

any_sound : (list names : List CStr) → contains_any list names ≡ true → Meets list names
unfolding contains_any
any_sound list [] h = cc
any_sound list (n ∷ names) h =
    elim (or-cases (str_list_contains list n) (contains_any list names) h) [
      | inl e ↦ (n, Memᴰ.head refl, contains_sound list n e)
      | inr t ↦ let (k, m, p) = any_sound list names t in (k, Memᴰ.tail m, p)
    ]

any_complete : (list names : List CStr) → Meets list names → contains_any list names ≡ true
unfolding contains_any
any_complete list [] (k, m, p) = elim m [ ]
any_complete list (n ∷ names) (k, Memᴰ.head e, p) =
    or-left (str_list_contains list n) (contains_any list names)
      (contains_complete list n (subst (λ t. Memᴰ t list) e p))
any_complete list (n ∷ names) (k, Memᴰ.tail m, p) =
    or-right (str_list_contains list n) (contains_any list names)
      (any_complete list names (k, m, p))

module _ (pkg inst : Package) where
  clashes_sound : clashes pkg inst ≡ true → Clash pkg inst
  unfolding clashes
  clashes_sound h =
      elim (or-cases (contains_name inst.conflicts pkg.name)
        (contains_any inst.conflicts pkg.provides || contains_any pkg.conflicts inst.provides) h) [
          | inl e ↦ named pkg.name refl e
          | inr t ↦
              elim (or-cases (contains_any inst.conflicts pkg.provides)
                (contains_any pkg.conflicts inst.provides) t) [
                  | inl e ↦ by_provides (any_sound inst.conflicts pkg.provides e)
                  | inr e ↦ against_provides (any_sound pkg.conflicts inst.provides e)
                ]
        ]
    where
      named :
          (o : Option CStr) → pkg.name ≡ o → contains_name inst.conflicts o ≡ true → Clash pkg inst
      named none e q = cc
      named (some n) e q = by_name n e (contains_sound inst.conflicts n q)

  clashes_complete : Clash pkg inst → clashes pkg inst ≡ true
  unfolding clashes
  clashes_complete (by_name n e m) = or-left (contains_name inst.conflicts pkg.name) _ (
      subst (λ o. contains_name inst.conflicts o ≡ true) (sym e)
        (contains_complete inst.conflicts n m))
  clashes_complete (by_provides p) = or-right (contains_name inst.conflicts pkg.name) _ (
      or-left (contains_any inst.conflicts pkg.provides) _
        (any_complete inst.conflicts pkg.provides p))
  clashes_complete (against_provides p) = or-right (contains_name inst.conflicts pkg.name) _ (
      or-right (contains_any inst.conflicts pkg.provides) _
        (any_complete pkg.conflicts inst.provides p))

module _ (g : DepGraph) (pkg : Package) where
  is_broken_sound : (name : CStr) → is_broken g pkg name ≡ true → Broken g pkg name
  unfolding is_broken
  is_broken_sound name h =
      elim (or-cases (str_list_contains pkg.conflicts name) (clashes_found pkg (looked_up g name))
        h) [
          | inl e ↦ declared (contains_sound pkg.conflicts name e)
          | inr t ↦ found (looked_up g name) refl t
        ]
    where
      found :
          (o : Option Package)
          → looked_up g name ≡ o
          → clashes_found pkg o ≡ true
          → Broken g pkg name
      found none e q = cc
      found (some inst) e q = clashing inst e (clashes_sound pkg inst q)

  is_broken_complete : (name : CStr) → Broken g pkg name → is_broken g pkg name ≡ true
  unfolding is_broken
  is_broken_complete name (declared m) =
      or-left (str_list_contains pkg.conflicts name) _ (contains_complete pkg.conflicts name m)
  is_broken_complete name (clashing inst e c) =
      or-right (str_list_contains pkg.conflicts name) _
        (subst (λ o. clashes_found pkg o ≡ true) (sym e) (clashes_complete pkg inst c))

  collect_sound :
      (name : CStr) (names : List CStr)
      → Memᴰ name (collect g pkg names)
      → Memᴰ name names × Broken g pkg name
  unfolding collect
  collect_sound name [] m = elim m [ ]
  collect_sound name (n ∷ names) m =
      by_broken (is_broken g pkg n) refl (λ q. collect_sound name names q) m
    where
      by_broken :
          (b : Bool)
          → is_broken g pkg n ≡ b
          → (Memᴰ name (collect g pkg names) → Memᴰ name names × Broken g pkg name)
          → Memᴰ name (if b then n ∷ collect g pkg names else collect g pkg names)
          → Memᴰ name (n ∷ names) × Broken g pkg name
      by_broken true e ih (Memᴰ.head q) =
          (Memᴰ.head q, subst (λ t. Broken g pkg t) (sym q) (is_broken_sound n e))
      by_broken true e ih (Memᴰ.tail q) = (Memᴰ.tail (ih q).0, (ih q).1)
      by_broken false e ih q = (Memᴰ.tail (ih q).0, (ih q).1)

  pub collect_complete :
      (name : CStr) (names : List CStr)
      → Memᴰ name names
      → Broken g pkg name
      → Memᴰ name (collect g pkg names)
  unfolding collect
  collect_complete name [] m b = elim m [ ]
  collect_complete name (n ∷ names) (Memᴰ.head e) b =
      let broken : is_broken g pkg n ≡ true =
        is_broken_complete n (subst (λ t. Broken g pkg t) e b) in
      subst (λ t. Memᴰ name (if t then n ∷ collect g pkg names else collect g pkg names))
        (sym broken) (Memᴰ.head e)
  collect_complete name (n ∷ names) (Memᴰ.tail m) b =
      kept (is_broken g pkg n) (collect_complete name names m b)
    where
      kept :
          (t : Bool)
          → Memᴰ name (collect g pkg names)
          → Memᴰ name (if t then n ∷ collect g pkg names else collect g pkg names)
      kept true q = Memᴰ.tail q
      kept false q = q

-- With enough memory, the installed packages that a package of the graph breaks are exactly those that it names
-- as a conflict, or whose metadata clashes with its own.
pub dep_graph_find_breaks_lem :
    (g : DepGraph) (pkg_name : CStr) (pkg : Package) (installed : List CStr)
    → looked_up g pkg_name ≡ some pkg
    → (names : List CStr) × (dep_graph_find_breaks g pkg_name installed [] ≡ breaks names)
      × ((name : CStr) → Memᴰ name names ↔ (Memᴰ name installed × Broken g pkg name))
unfolding dep_graph_find_breaks
dep_graph_find_breaks_lem g pkg_name pkg installed e = (
  collect g pkg installed,
  ap (λ o. find_breaks_of g o installed []) e ∙ refl,
  λ name. (
    λ m. collect_sound g pkg name installed m,
    λ p. collect_complete g pkg name installed p.0 p.1,
  ),
)
