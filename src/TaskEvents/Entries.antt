-- ===== src/TaskEvents/Entries.antt =====
-- The map of the pending events: what `get` gives after `set` and `remove`.
use marc_comparator.Base.{
  ℕ, ◌≡◌, refl, sym, false, Option, some, List, [], ◌∷◌, filter, if◌then◌else◌, ◌==◌, eq_iff,
  eq_refl, arith, Bool-cases, inl, inr,
}
use marc_comparator.Base.Text.{Text, text_eq}
use marc_comparator.TaskEvents.{Message, get, set, remove}

-- A key that differs from the one that is set.
exclusive :
    (k key other : Text) (v w : Message × ℕ) (rest : Option (Message × ℕ))
    → (k == key) ≡ false
    → (if k == other then some w else (if key == other then some v else rest))
      ≡ (if key == other then some v else (if k == other then some w else rest))
exclusive k key other v w rest differ = elim (Bool-cases (key == other)) [
  | inr apart ↦ rw apart refl
  | inl same ↦ rw (sym ((eq_iff key other).0 same), differ, eq_refl key) refl
]

pub get-set :
    (es : List (Text × (Message × ℕ))) (key other : Text) (v : Message × ℕ)
    → get (set es key v) other ≡ (if key == other then some v else get es other)
unfolding get set
get-set [] key other v = refl
get-set ((k, w) ∷ es) key other v = elim (Bool-cases (k == key)) [
  | inl same ↦ rw (same, (eq_iff k key).0 same) (ground arith)
  | inr differ ↦
      rw (differ, get-set es key other v) (exclusive k key other v w (get es other) differ)
]

pub get-remove :
    (es : List (Text × (Message × ℕ))) (key other : Text)
    → (key == other) ≡ false
    → get (remove es key) other ≡ get es other
unfolding get remove filter
get-remove [] key other h = refl
get-remove ((k, w) ∷ es) key other h = elim (Bool-cases (k == key)) [
  | inl same ↦ rw (same, get-remove es key other h, (eq_iff k key).0 same, h) refl
  | inr differ ↦ rw (differ, get-remove es key other h) refl
]
