-- ===== src/Carousel/Navigation/Index.antt =====
-- The index of the shown record, the guards of the buttons and keys, and the selected view.
use marc_comparator.Base.{
  ℕ, ◌<◌, min, zero, suc, ◌≡◌, refl, Bool, true, false, ◌||◌, none, List, [], ◌∷◌, length,
  get_elem?, if◌then◌else◌, ltb, arith, Bool-cases, inl, inr, present, ◌==◌, eq_iff, ◌≢◌, ap, sym,
}
use marc_comparator.Base.Text.{Text, lit, text_eq, truthy, text_eqb}
use marc_comparator.Base.Int.{pos, negsuc, ◌-ℤ◌, ◌*ℤ◌, ltb_ℤ}
use marc_comparator.Filters.{Filters}
use marc_comparator.Carousel.Navigation.{
  record_index, current_record, clamp_record_index, can_go_prev, can_go_next, go_to_prev,
  go_to_next, handle_key, selected_view, set_selected_view,
}

get_elem?-present {ℓ} :
    {A : Type ℓ} (xs : List A) (i : ℕ) → i < length xs → present (get_elem? xs i) ≡ true
get_elem?-present [] i h = absurd (omega arith)
get_elem?-present (x ∷ xs) zero h = refl
get_elem?-present (x ∷ xs) (suc i) h = get_elem?-present xs i (omega arith)

false_of_or : (b c : Bool) → (b || c) ≡ false → (b ≡ false) × (c ≡ false)
false_of_or b c h = ground arith

if_same {ℓ} : {A : Type ℓ} (b : Bool) (x : A) → (if b then x else x) ≡ x
if_same true x = refl
if_same false x = refl

a_is_not_d : (key : Text) → (key == lit "a") ≡ true → (key == lit "d") ≡ false
unfolding text_eqb
a_is_not_d key h = rw ((eq_iff key (lit "a")).0 h) refl

truthy_or : (v : Text) → v ≢ [] → (if truthy v then v else lit "marc") ≡ v
truthy_or [] h = absurd (h refl)
truthy_or (c ∷ v) h = refl

module _ {S : Type 0} (f : Filters S) where
  record_index_nonneg : (i n : ℕ) → f.record_index ≡ pos i → record_index f (suc n) ≡ pos (min i n)
  unfolding record_index
  record_index_nonneg i n h = rw h (ground arith)

  record_index_neg : (j n : ℕ) → f.record_index ≡ negsuc j → record_index f n ≡ negsuc j
  unfolding record_index
  record_index_neg j n h = rw h (ground arith)

  -- Where records were found and the index of the URL is not negative, a record is shown: the one at
  -- the index, or the last one where the index is too large.
  pub current_record_nonneg {ℓ} :
      {A : Type ℓ} (r : A) (rs : List A) (i : ℕ)
      → f.record_index ≡ pos i
      → (current_record f (r ∷ rs) ≡ get_elem? (r ∷ rs) (min i (length rs)))
        × (present (current_record f (r ∷ rs)) ≡ true)
  unfolding current_record
  current_record_nonneg r rs i h =
      let some_record : ltb 0 (length (r ∷ rs)) ≡ true = ground arith in
      rw (some_record, record_index_nonneg i (length rs) h)
        (refl, get_elem?-present (r ∷ rs) (min i (length rs)) (omega arith))

  -- Where the index of the URL is negative, no record is shown, however many were found.
  pub current_record_neg {ℓ} :
      {A : Type ℓ} (rs : List A) (j : ℕ) → f.record_index ≡ negsuc j → current_record f rs ≡ none
  unfolding current_record
  current_record_neg rs j h =
      rw (record_index_neg j (length rs) h) (if_same (ltb 0 (length rs)) none)

  go_to_prev_disabled : (n : ℕ) → can_go_prev f n ≡ false → go_to_prev f n ≡ f
  unfolding go_to_prev can_go_prev
  go_to_prev_disabled n h =
      let (b, c) = false_of_or (ltb_ℤ (pos 0) (record_index f n)) (ltb_ℤ (pos 1) f.page) h in
      rw (b, c) refl

  go_to_next_disabled : (n total : ℕ) → can_go_next f n total ≡ false → go_to_next f n total ≡ f
  unfolding go_to_next can_go_next
  go_to_next_disabled n total h =
      let (b, c) =
        false_of_or (ltb_ℤ (record_index f n) (pos n -ℤ pos 1))
          (ltb_ℤ (f.page *ℤ f.page_size) (pos total)) h in
      rw (b, c) refl

  -- A key press in a text field changes nothing. Elsewhere "a" does what the previous button does,
  -- "d" what the next one does, and another key nothing; a button that is disabled would not change
  -- anything, so the guards of the keys lose nothing.
  pub handle_key_lem :
      (key : Text) (n total : ℕ)
      → (handle_key (record { typing = true; key = key }) f n total ≡ f)
        × (handle_key (record { typing = false; key = key }) f n total ≡ (
            if key == lit "a"
            then go_to_prev f n
            else if key == lit "d"
            then go_to_next f n total
            else f))
  unfolding handle_key
  handle_key_lem key n total = (
    refl,
    elim (Bool-cases (key == lit "a")) [
      | inl a ↦ elim (Bool-cases (can_go_prev f n)) [
        | inl can ↦ rw (a, can) refl
        | inr cannot ↦ rw (a, cannot, a_is_not_d key a) (sym (go_to_prev_disabled n cannot))
      ]
      | inr not_a ↦ elim (Bool-cases (key == lit "d")) [
        | inl d ↦ elim (Bool-cases (can_go_next f n total)) [
          | inl can ↦ rw (not_a, d, can) refl
          | inr cannot ↦ rw (not_a, d, cannot) (sym (go_to_next_disabled n total cannot))
        ]
        | inr not_d ↦ rw (not_a, not_d) refl
      ]
    ],
  )

  -- Selecting a view and reading the selection back gives the view, and changes no other filter.
  pub selected_view-set_selected_view :
      (v : Text)
      → v ≢ []
      → (selected_view (set_selected_view v f) ≡ v)
        × (record (set_selected_view v f) { carousel_view = f.carousel_view } ≡ f)
  unfolding selected_view set_selected_view
  selected_view-set_selected_view v h = elim (Bool-cases (v == lit "marc")) [
    | inl start ↦ rw start (ap (λ t. t) (sym ((eq_iff v (lit "marc")).0 start)), refl)
    | inr other ↦ rw other (truthy_or v h, refl)
  ]

  clamp_record_index_at :
      (i n : ℕ)
      → clamp_record_index (record f { record_index = pos i }) (suc n)
        ≡ record f { record_index = pos (min i n) }
  unfolding clamp_record_index
  clamp_record_index_at i n = grind arith

  record_index_at :
      (i n : ℕ) → record_index (record f { record_index = pos i }) (suc n) ≡ pos (min i n)
  unfolding record_index
  record_index_at i n = grind arith

  -- Clamping an index that is not negative leaves it as it is where it is not past the last record,
  -- brings it down to the last record otherwise, touches no other filter, and changes nothing of what
  -- is shown; clamping again changes nothing.
  pub clamp_record_index_lem :
      (i n : ℕ)
      → (clamp_record_index (record f { record_index = pos i }) (suc n)
          ≡ record f { record_index = pos (min i n) })
        × (record_index (clamp_record_index (record f { record_index = pos i }) (suc n)) (suc n)
            ≡ record_index (record f { record_index = pos i }) (suc n))
        × (clamp_record_index
              (clamp_record_index (record f { record_index = pos i }) (suc n))
              (suc n)
            ≡ clamp_record_index (record f { record_index = pos i }) (suc n))
  clamp_record_index_lem i n =
      let same : min (min i n) n ≡ min i n = omega arith in
      (
        clamp_record_index_at i n,
        rw (clamp_record_index_at i n, record_index_at (min i n) n, record_index_at i n, same) refl,
        rw (clamp_record_index_at i n, clamp_record_index_at (min i n) n, same) refl,
      )
