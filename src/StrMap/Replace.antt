-- ===== src/StrMap/Replace.antt =====
-- The first loop of `str_map_set` of src/hashmap.c, which overwrites the value of a key.
use lib_apg.Base.{
  ℕ, suc, ◌≡◌, refl, ap, ◌∙◌, ◌≢◌, inl, inr, true, false, List, [], ◌∷◌, Option, none, some, length,
  arith, All, Bool-cases, Option-cases, if◌then◌else◌, subst,
}
use lib_apg.CString.{CStr, str_eq, str_eq_sound, str_eq_comm}
use lib_apg.StrMap.{str_hashed, Entry, replace_in}
use lib_apg.Chains.{bucket_of, find_in}
use lib_apg.Chains.Rehash.{Distinct}

pub replace_in-none :
    (key : CStr) (v : ℕ) (es : List Entry) → replace_in key v es ≡ none → find_in key es ≡ none
unfolding replace_in find_in
replace_in-none key v [] h = refl
replace_in-none key v (e ∷ es) h = ground (arith, replace_in-none key v es)

-- The new chain: same keys, and the value replaced.
pub record Replaced (key : CStr) (v : ℕ) (es es' : List Entry) : Type 0 where
  pub found : (j : CStr) → find_in j es' ≡ (if str_eq key j then some v else find_in j es)
  pub present : find_in key es ≢ none
  pub size : length es' ≡ length es
  pub keys : (n i : ℕ) → All (λ e. bucket_of n e.key ≡ i) es → All (λ e. bucket_of n e.key ≡ i) es'
  pub single : Distinct es → Distinct es'

Replaced-head :
    (key : CStr) (v : ℕ) (e : Entry) (es : List Entry)
    → str_eq e.key key ≡ true
    → Replaced key v (e ∷ es) (record e { value = v } ∷ es)
unfolding find_in
Replaced-head key v e es eq = record {
  found = λ j.
      let same : e.key ≡ key = str_eq_sound e.key key eq in
      elim (Bool-cases (str_eq key j)) [ inl q ↦ rw (same, q) | inr q ↦ rw (same, q) ];
  present = λ h. cc (rw (eq, find_in) at h);
  size = refl;
  keys = λ n i all. all;
  single = λ d. d;
}

Replaced-tail :
    (key : CStr) (v : ℕ) (e : Entry) (es es' : List Entry)
    → str_eq e.key key ≡ false
    → Replaced key v es es'
    → Replaced key v (e ∷ es) (e ∷ es')
unfolding find_in
Replaced-tail key v e es es' ne r = record {
  found = λ j. elim (Bool-cases (str_eq e.key j)) [
    | inl q ↦
        let other : str_eq key j ≡ false =
          rw (← str_eq_sound e.key j q, str_eq_comm key e.key) ne in
        rw (q, other)
    | inr q ↦ rw q (r.found j)
  ];
  present = λ h. r.present (rw (ne, find_in) at h);
  size = ap suc r.size;
  keys = λ n i all. (all.0, r.keys n i all.1);
  single = λ d. (r.found e.key ∙ rw (str_eq_comm key e.key, ne) d.0, r.single d.1);
}

pub replace_in-some :
    (key : CStr) (v : ℕ) (es es' : List Entry)
    → replace_in key v es ≡ some es'
    → Replaced key v es es'
unfolding replace_in
replace_in-some key v [] es' h = cc
replace_in-some key v (e ∷ es) es' h =
    by_rest (replace_in key v es) refl (λ rest q. replace_in-some key v es rest q)
  where
    by_rest :
        (o : Option (List Entry))
        → replace_in key v es ≡ o
        → ((rest : List Entry) → replace_in key v es ≡ some rest → Replaced key v es rest)
        → Replaced key v (e ∷ es) es'
    by_rest o q ih = elim (Bool-cases (str_eq e.key key)) [
      | inl eq ↦
          let is : record e { value = v } ∷ es ≡ es' = ground arith in
          subst (Replaced key v (e ∷ es)) is (Replaced-head key v e es eq)
      | inr ne ↦ elim (Option-cases o) [
        | inl absent ↦ absurd (ground arith)
        | inr (rest, present) ↦
            let is : e ∷ rest ≡ es' = ground arith in
            subst (Replaced key v (e ∷ es)) is
              (Replaced-tail key v e es rest ne (ih rest (q ∙ present)))
      ]
    ]
