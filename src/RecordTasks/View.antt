-- ===== src/RecordTasks/View.antt =====
-- What the dialogs of client/src/features/records/record-task-actions.tsx show: the boxes that are
-- shown checked are the values that are sent.
use marc_comparator.Base.{
  ℕ, ◌≡◌, refl, ◌∙◌, Bool, true, false, not, ◌&&◌, Option, some, List, [], ◌∷◌, any, map, ◌==◌,
  eq_iff, eq_refl, arith, Bool-cases, inl, inr,
}
use marc_comparator.Base.Text.{Text, text_eq, lit}
use marc_comparator.Base.Sets.{includes}
use marc_comparator.RecordTasks.{
  Linker, SystemInfo, link_authorities, compare, validate, State, initial, available_bases,
  base_text, is_linker_enabled, is_pending, is_confirm_disabled, Event, run,
}
use marc_comparator.RecordTasks.Process.{Description, describe}
use marc_comparator.RecordTasks.Offered.{IsFine-run, IsChosen-initial}

pub record Box : Type 0 where
  pub id : Text
  pub checked : Bool
  pub disabled : Bool

-- A dialog; where it has nothing to choose from, it shows a text in place of the boxes.
pub record DialogView : Type 0 where
  pub is_shown : Bool
  pub description : Description
  pub options : List Text
  pub boxes : List Box
  pub is_confirm_blocked : Bool

-- `linkerOptions` with the boxes that show them.
abbrev pub linker_box : State → Linker → Box
linker_box s l = record {
  id = l.name;
  checked = includes s.selected_linkers l.name;
  disabled = not (includes l.target_bases (base_text s.selected_base));
}

unfoldable pub linker_boxes : SystemInfo → State → List Box
linker_boxes info s = map (linker_box s) info.enabled_authority_linkers

abbrev pub value_box : List Text → Text → Box
value_box selected v = record { id = v; checked = includes selected v; disabled = false }

unfoldable pub compare_dialog : (ℕ → Text) → SystemInfo → Option ℕ → State → DialogView
unfolding describe is_confirm_disabled
compare_dialog to_text info total s = record {
  is_shown = is_pending s.pending_dialog compare;
  description =
      describe to_text (lit "table.actions.compare-description-single")
        (lit "table.actions.compare-description-bulk") total;
  options = [];
  boxes = map (value_box s.selected_comparison_bases) info.authority_bases;
  is_confirm_blocked = is_confirm_disabled info s (some compare);
}

unfoldable pub link_dialog : (ℕ → Text) → SystemInfo → Option ℕ → State → DialogView
unfolding describe is_confirm_disabled available_bases linker_boxes
link_dialog to_text info total s = record {
  is_shown = is_pending s.pending_dialog link_authorities;
  description =
      describe to_text (lit "table.actions.authority-linking-description-single")
        (lit "table.actions.authority-linking-description-bulk") total;
  options = available_bases info;
  boxes = linker_boxes info s;
  is_confirm_blocked = is_confirm_disabled info s (some link_authorities);
}

unfoldable pub validate_dialog : (ℕ → Text) → SystemInfo → Option ℕ → State → DialogView
unfolding describe is_confirm_disabled
validate_dialog to_text info total s = record {
  is_shown = is_pending s.pending_dialog validate;
  description =
      describe to_text (lit "table.actions.validate-description-single")
        (lit "table.actions.validate-description-bulk") total;
  options = [];
  boxes = map (value_box s.selected_validators) info.enabled_validators;
  is_confirm_blocked = is_confirm_disabled info s (some validate);
}

-- The value is that of a box that is checked and enabled.
unfoldable pub is_shown_checked : List Box → Text → Bool
is_shown_checked boxes id = any (λ b. b.id == id && b.checked && not b.disabled) boxes

is_shown_checked-linkers :
    (s : State) (ls : List Linker) (id : Text)
    → is_shown_checked (map (linker_box s) ls) id ≡ (
        includes s.selected_linkers id
        && any (λ l. l.name == id && includes l.target_bases (base_text s.selected_base)) ls)
unfolding is_shown_checked any
is_shown_checked-linkers s [] id = ground arith
is_shown_checked-linkers s (l ∷ ls) id = elim (Bool-cases (l.name == id)) [
  | inl same ↦
      rw ((eq_iff l.name id).0 same) (ground (arith, eq_refl id, is_shown_checked-linkers s ls id))
  | inr other ↦ ground (arith, other, is_shown_checked-linkers s ls id)
]

is_shown_checked-values :
    (selected values : List Text) (v : Text)
    → is_shown_checked (map (value_box selected) values) v
      ≡ (includes selected v && includes values v)
unfolding is_shown_checked any includes
is_shown_checked-values selected [] v = ground arith
is_shown_checked-values selected (x ∷ values) v = elim (Bool-cases (x == v)) [
  | inl same ↦
      rw ((eq_iff x v).0 same)
        (ground (arith, eq_refl v, is_shown_checked-values selected values v))
  | inr other ↦ ground (arith, other, is_shown_checked-values selected values v)
]

and_part : (a b : Bool) → (a ≡ true → b ≡ true) → (a && b) ≡ a
and_part true b h = h refl
and_part false b h = refl

-- Whatever the user did, while the system info stays the same: in each of the three dialogs a value
-- is in the set that the confirmation sends exactly where a box with it is shown checked and enabled.
pub run-shown_checked :
    (to_text : ℕ → Text) (info : SystemInfo) (total : Option ℕ) (evs : List Event) (v : Text)
    → (is_shown_checked (link_dialog to_text info total (run info evs initial).0).boxes v
        ≡ includes (run info evs initial).0.selected_linkers v)
      × (is_shown_checked (compare_dialog to_text info total (run info evs initial).0).boxes v
          ≡ includes (run info evs initial).0.selected_comparison_bases v)
      × (is_shown_checked (validate_dialog to_text info total (run info evs initial).0).boxes v
          ≡ includes (run info evs initial).0.selected_validators v)
unfolding link_dialog compare_dialog validate_dialog linker_boxes is_linker_enabled
run-shown_checked to_text info total evs v =
    let s = (run info evs initial).0 in
    let chosen = (IsFine-run info evs initial (IsChosen-initial info)).0 in
    (
      is_shown_checked-linkers s info.enabled_authority_linkers v ∙ and_part _ _ (chosen.0.0 v),
      is_shown_checked-values s.selected_comparison_bases info.authority_bases v
          ∙ and_part _ _ (chosen.1.0 v),
      is_shown_checked-values s.selected_validators info.enabled_validators v
          ∙ and_part _ _ (chosen.2.0 v),
    )
