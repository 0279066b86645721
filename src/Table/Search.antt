-- ===== src/Table/Search.antt =====
-- The input for the search text in client/src/features/records/table/table-view.tsx: what is typed
-- reaches the filters 300 ms after the last change. The timer is a part of the state, with the text
-- that it was set for.

use mathlib.Core.Option.{some_inj, none-ne-some}
use marc_comparator.Base.{
  ◌≡◌, refl, sym, ap, ◌∙◌, true, false, Option, none, some, List, [], ◌∷◌, if◌then◌else◌, ◌==◌,
  eq_iff, eq_refl, Bool-cases, inl, inr, All,
}
use marc_comparator.Base.Text.{Text, text_eq}
use marc_comparator.Filters.{Filters, set_search}

pub record SearchBox (S : Type 0) : Type 0 where
  pub search_input : Text
  pub filters : Filters S
  pub timer : Option Text

-- The first effect: no timer where the input is what the filters have.
abbrev pub timer_for : Text → Text → Option Text
timer_for input search = if input == search then none else some input

timer_for-same : (t : Text) → timer_for t t ≡ none
timer_for-same t = rw (eq_refl t) refl

-- The text of a timer is the input, and is not what the filters have.
timer_lem :
    (input known text : Text)
    → timer_for input known ≡ some text
    → (input ≡ text) × ((text == known) ≡ false)
timer_lem input known text e = elim (Bool-cases (input == known)) [
  | inl same ↦ absurd (none-ne-some _ (sym (rw same refl) ∙ e))
  | inr other ↦
      let here : input ≡ text = some_inj.0 (sym (rw other refl) ∙ e) in
      (here, sym (ap (λ t. t == known) here) ∙ other)
]

timer_for-none : (input text : Text) → timer_for input text ≡ none → text ≡ input
timer_for-none input text e = elim (Bool-cases (input == text)) [
  | inl same ↦ sym ((eq_iff input text).0 same)
  | inr other ↦
      let set : timer_for input text ≡ some input = rw other refl in
      absurd (none-ne-some input (sym e ∙ set))
]

-- The user types; the time is over; the filters are changed elsewhere, by the URL or another part of
-- the page.
pub data SearchEvent (S : Type 0) : Type 0 where
  typed : Text → SearchEvent S
  elapsed : SearchEvent S
  changed : (Filters S → Filters S) → SearchEvent S

module _ {S : Type 0} where
  unfoldable pub mounted : Filters S → SearchBox S
  mounted f = record { search_input = f.search_text; filters = f; timer = none }

  unfoldable pub on_typed : Text → SearchBox S → SearchBox S
  on_typed text s = record s { search_input = text; timer = timer_for text s.filters.search_text }

  -- Both effects, after the filters are `f`: where their text is another, it becomes the input, and
  -- the timer is stopped.
  unfoldable pub with_filters : Filters S → SearchBox S → SearchBox S
  with_filters f s =
      if f.search_text == s.filters.search_text
      then record s { filters = f }
      else record { search_input = f.search_text; filters = f; timer = none }

  abbrev pub on_elapsed : SearchBox S → Option Text → SearchBox S
  unfolding with_filters set_search
  on_elapsed s none = s
  on_elapsed s (some text) = with_filters (set_search text s.filters) (record s { timer = none })

  unfoldable pub search_step : SearchEvent S → SearchBox S → SearchBox S
  unfolding on_typed with_filters
  search_step (typed text) s = on_typed text s
  search_step elapsed s = on_elapsed s s.timer
  search_step (changed change) s = with_filters (change s.filters) s

  unfoldable pub search_run : List (SearchEvent S) → SearchBox S → SearchBox S
  unfolding search_step
  search_run [] s = s
  search_run (ev ∷ evs) s = search_run evs (search_step ev s)

  -- A timer is set exactly for an input that the filters do not have.
  unfoldable IsTimed : SearchBox S → Type 0
  IsTimed s = s.timer ≡ timer_for s.search_input s.filters.search_text

  IsTimed-mounted : (f : Filters S) → IsTimed (mounted f)
  unfolding IsTimed mounted
  IsTimed-mounted f = sym (timer_for-same f.search_text)

  IsTimed-with_filters : (f : Filters S) (s : SearchBox S) → IsTimed s → IsTimed (with_filters f s)
  unfolding IsTimed with_filters
  IsTimed-with_filters f s h = elim (Bool-cases (f.search_text == s.filters.search_text)) [
    | inl e ↦
        rw e (
          h
          ∙ ap (timer_for s.search_input) (sym ((eq_iff f.search_text s.filters.search_text).0 e)))
    | inr e ↦ rw e (sym (timer_for-same f.search_text))
  ]

  IsTimed-elapsed :
      (s : SearchBox S) (o : Option Text) → s.timer ≡ o → IsTimed s → IsTimed (on_elapsed s o)
  unfolding IsTimed with_filters set_search
  IsTimed-elapsed s none e h = h
  IsTimed-elapsed s (some text) e h =
      let found = timer_lem s.search_input s.filters.search_text text (sym h ∙ e) in
      rw found.1 (sym (timer_for-same text))

  IsTimed-typed : (text : Text) (s : SearchBox S) → IsTimed (on_typed text s)
  unfolding IsTimed on_typed
  IsTimed-typed text s = refl

  IsTimed-step : (ev : SearchEvent S) (s : SearchBox S) → IsTimed s → IsTimed (search_step ev s)
  unfolding search_step on_typed
  IsTimed-step (typed text) s h = IsTimed-typed text s
  IsTimed-step elapsed s h = IsTimed-elapsed s s.timer refl h
  IsTimed-step (changed change) s h = IsTimed-with_filters (change s.filters) s h

  IsTimed-run :
      (evs : List (SearchEvent S)) (s : SearchBox S) → IsTimed s → IsTimed (search_run evs s)
  unfolding search_run
  IsTimed-run [] s h = h
  IsTimed-run (ev ∷ evs) s h = IsTimed-run evs (search_step ev s) (IsTimed-step ev s h)

  elapsed-search :
      (s : SearchBox S) (o : Option Text)
      → s.timer ≡ o
      → IsTimed s
      → ((on_elapsed s o).filters.search_text ≡ s.search_input)
        × ((on_elapsed s o).search_input ≡ s.search_input)
        × ((on_elapsed s o).timer ≡ none)
  unfolding IsTimed with_filters set_search
  elapsed-search s none e h =
      (timer_for-none s.search_input s.filters.search_text (sym h ∙ e), refl, e)
  elapsed-search s (some text) e h =
      let found = timer_lem s.search_input s.filters.search_text text (sym h ∙ e) in
      rw found.1 (sym found.0, sym found.0, refl)

-- Nothing is typed, and the text of the filters is not changed elsewhere.
abbrev pub IsQuiet : {S : Type 0} → SearchEvent S → Type 0
IsQuiet (typed text) = ⊥
IsQuiet elapsed = Unit
IsQuiet {S} (changed change) = (f : Filters S) → (change f).search_text ≡ f.search_text

module _ {S : Type 0} where
  elapsed-input :
      (s : SearchBox S) (text : Text)
      → IsTimed s
      → s.search_input ≡ text
      → (on_elapsed s s.timer).search_input ≡ text
  elapsed-input s text timed e = (elapsed-search s s.timer refl timed).1 ∙ e

  with_filters-input :
      (f : Filters S) (s : SearchBox S)
      → f.search_text ≡ s.filters.search_text
      → (with_filters f s).search_input ≡ s.search_input
  unfolding with_filters
  with_filters-input f s e =
      let same : (f.search_text == s.filters.search_text) ≡ true =
        (eq_iff f.search_text s.filters.search_text).1 e in
      rw same refl

  search_run-input :
      (later : List (SearchEvent S)) (s : SearchBox S)
      → All IsQuiet later
      → IsTimed s
      → (search_run later s).search_input ≡ s.search_input
  unfolding search_run search_step
  search_run-input [] s quiet timed = refl
  search_run-input (typed text ∷ later) s quiet timed = absurd quiet.0
  search_run-input (elapsed ∷ later) s quiet timed =
      search_run-input later (search_step elapsed s) quiet.1 (IsTimed-step elapsed s timed)
      ∙ elapsed-input s s.search_input timed refl
  search_run-input (changed change ∷ later) s quiet timed =
      search_run-input later (search_step (changed change) s) quiet.1
        (IsTimed-step (changed change) s timed)
      ∙ with_filters-input (change s.filters) s (quiet.0 s.filters)

-- Whatever was typed and whatever else changed the filters: when the time is over, the filters have
-- the text that the input shows, the input stays as it is, and no timer is left. And where a text is
-- typed, and afterwards nothing else is typed and nothing else changes the text of the filters, then
-- the input keeps this text, whatever else of the filters changes and however often the time is over
-- meanwhile, so that the filters have it when the time is over.
pub search_run-elapsed :
    {S : Type 0} (f : Filters S) (evs : List (SearchEvent S)) (text : Text)
    (later : List (SearchEvent S))
    → All IsQuiet later
    → (((search_step elapsed (search_run evs (mounted f))).filters.search_text
          ≡ (search_run evs (mounted f)).search_input)
        × ((search_step elapsed (search_run evs (mounted f))).search_input
            ≡ (search_run evs (mounted f)).search_input)
        × ((search_step elapsed (search_run evs (mounted f))).timer ≡ none))
      × ((search_run later (on_typed text (search_run evs (mounted f)))).search_input ≡ text)
      × ((search_step elapsed
            (search_run later (on_typed text (search_run evs (mounted f))))).filters.search_text
          ≡ text)
unfolding search_step on_typed
search_run-elapsed f evs text later quiet =
    let s = search_run evs (mounted f) in
    let timed = IsTimed-typed text s in
    let after = search_run later (on_typed text s) in
    let kept : after.search_input ≡ text = search_run-input later (on_typed text s) quiet timed in
    (
      elapsed-search s s.timer refl (IsTimed-run evs (mounted f) (IsTimed-mounted f)),
      kept,
      (elapsed-search after after.timer refl (IsTimed-run later (on_typed text s) timed)).0 ∙ kept,
    )
