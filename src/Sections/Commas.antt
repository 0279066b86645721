-- ===== src/Sections/Commas.antt =====
-- A set of names survives being written to the URL, for names that are not empty and have no comma.
use mathlib.Core.Bool.{false≢true}
use mathlib.Core.Path.{subst}
use marc_comparator.Base.{
  ℕ, ◌≡◌, refl, sym, ap, ◌∙◌, true, false, ◌&&◌, List, [], ◌∷◌, ◌++◌, filter, nat_eqb, All, arith,
  Bool-cases, inl, inr, ◌==◌, eq_iff,
}
use marc_comparator.Base.Text.{Text, text_eq, truthy}
use marc_comparator.Base.Sets.{
  includes, add, delete, distinct, add_all, includes-distinct, includes-filter, All-of_includes,
}
use marc_comparator.Sections.{comma, to_first, split, join, hidden_set}

abbrev pub NoComma : Text → Type 0
NoComma [] = Unit
NoComma (c ∷ cs) = (nat_eqb c comma ≡ false) × NoComma cs

-- A name of a chart.
abbrev pub IsName : Text → Type 0
IsName t = NoComma t × (truthy t ≡ true)

pub split-name : (t : Text) → NoComma t → split t ≡ t ∷ []
unfolding split
split-name [] h = refl
split-name (c ∷ cs) h = rw (h.0, split-name cs h.1) refl

pub split-append : (t rest : Text) → NoComma t → split (t ++ comma ∷ rest) ≡ t ∷ split rest
unfolding split
split-append [] rest h = refl
split-append (c ∷ cs) rest h = rw (h.0, split-append cs rest h.1) refl

split-join :
    (name : Text) (names : List Text)
    → All IsName (name ∷ names)
    → split (join (name ∷ names)) ≡ name ∷ names
unfolding join
split-join name [] h = split-name name h.0.0
split-join name (next ∷ names) h =
    split-append name (join (next ∷ names)) h.0.0 ∙ ap (λ ps. name ∷ ps) (split-join next names h.1)

filter-truthy : (names : List Text) → All IsName names → filter truthy names ≡ names
unfolding filter
filter-truthy [] h = refl
filter-truthy (n ∷ ns) h = rw (h.0.1, filter-truthy ns h.1) refl

to_first-NoComma :
    (c : ℕ) (ps : List Text)
    → nat_eqb c comma ≡ false
    → All NoComma ps
    → All NoComma (to_first c ps)
to_first-NoComma c [] e h = ((e, tt), tt)
to_first-NoComma c (p ∷ ps) e h = ((e, h.0), h.1)

-- The parts of a text have no comma.
split-NoComma : (t : Text) → All NoComma (split t)
unfolding split
split-NoComma [] = (tt, tt)
split-NoComma (c ∷ cs) = elim (Bool-cases (nat_eqb c comma)) [
  | inl e ↦ rw e (tt, split-NoComma cs)
  | inr e ↦ rw e (to_first-NoComma c (split cs) e (split-NoComma cs))
]

IsName-of_includes :
    (xs : List Text) (a : Text) → All NoComma xs → (includes xs a && truthy a) ≡ true → IsName a
unfolding includes
IsName-of_includes [] a h p = absurd (false≢true p)
IsName-of_includes (x ∷ xs) a h p = elim (Bool-cases (x == a)) [
  | inl e ↦ (subst NoComma ((eq_iff x a).0 e) h.0, ground (arith, p))
  | inr e ↦ IsName-of_includes xs a h.1 (ground (arith, p, e))
]

hidden_set_parts : (t : Text) → hidden_set t ≡ distinct (filter truthy (split t))
unfolding hidden_set split filter add_all
hidden_set_parts [] = refl
hidden_set_parts (c ∷ cs) = refl

includes-hidden_set : (t a : Text) → includes (hidden_set t) a ≡ (includes (split t) a && truthy a)
includes-hidden_set t a =
    rw (hidden_set_parts t)
      (includes-distinct (filter truthy (split t)) a ∙ includes-filter truthy (split t) a)

-- What is hidden are names.
pub hidden_set-names : (t : Text) → All IsName (hidden_set t)
hidden_set-names t =
    All-of_includes IsName (hidden_set t)
      (λ a h. IsName-of_includes (split t) a (split-NoComma t) (sym (includes-hidden_set t a) ∙ h))

-- The set that is read from a text is the set of the names that the text was made of.
pub includes-hidden_set-join :
    (names : List Text) (a : Text)
    → All IsName names
    → includes (hidden_set (join names)) a ≡ includes names a
unfolding join includes hidden_set
includes-hidden_set-join [] a h = refl
includes-hidden_set-join (n ∷ ns) a h =
    rw (hidden_set_parts (join (n ∷ ns)), split-join n ns h, filter-truthy (n ∷ ns) h)
      (includes-distinct (n ∷ ns) a)

module _ (P : Text → Type 0) where
  pub All-add : (xs : List Text) (a : Text) → All P xs → P a → All P (add xs a)
  unfolding add
  All-add xs a h p = elim (Bool-cases (includes xs a)) [
    | inl e ↦ rw e h
    | inr e ↦ rw e (All-concat xs h)
  ]
    where
      All-concat : (ys : List Text) → All P ys → All P (ys ++ a ∷ [])
      All-concat [] k = (p, tt)
      All-concat (y ∷ ys) k = (k.0, All-concat ys k.1)

  pub All-delete : (xs : List Text) (a : Text) → All P xs → All P (delete xs a)
  unfolding delete filter
  All-delete [] a h = tt
  All-delete (x ∷ xs) a h = elim (Bool-cases (x == a)) [
    | inl e ↦ rw e (All-delete xs a h.1)
    | inr e ↦ rw e (h.0, All-delete xs a h.1)
  ]
