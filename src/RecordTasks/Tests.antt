-- ===== src/RecordTasks/Tests.antt =====
-- The dialogs on a concrete system info, and the theorems about them.
use marc_comparator.Base.{ℕ, ◌≡◌, refl, true, none, List, [], ◌∷◌, ◌++◌, filter, any, All}
use marc_comparator.Base.Text.{Text, text_eq, lit, text_eqb}
use marc_comparator.Base.Sets.{includes, add, delete, add_all}
use marc_comparator.RecordTasks.{
  SystemInfo, link_authorities, compare, validate, initial, is_busy, bases_of, available_bases,
  compatible, open_compare, open_link_authorities, open_validate, confirm_compare,
  confirm_link_authorities, confirm_validate, choose_base, is_linker_enabled, Event, menu_item,
  base_chosen, linker_checked, base_checked, confirmed, open_dialog, settle, is_confirm_disabled,
  change, step, run, post_compare, post_link, post_validate, settled,
}
use marc_comparator.RecordTasks.Offered.{IsOffered, run-IsOffered}
use marc_comparator.RecordTasks.Process.{
  ProcessEvent, process_clicked, process_confirmed, idle, in_flight, process_step, confirm_action,
}
use marc_comparator.RecordTasks.View.{
  link_dialog, compare_dialog, validate_dialog, is_shown_checked, run-shown_checked,
}

runs : Unit {0}
unfolding run step change confirm_compare confirm_link_authorities confirm_validate
    is_confirm_disabled settle open_dialog open_validate open_link_authorities open_compare
    choose_base is_linker_enabled compatible available_bases bases_of is_busy text_eqb includes add
    delete add_all filter any in_flight process_step confirm_action
runs = tt

abbrev info : SystemInfo
info = record {
  authority_bases = lit "a" ∷ lit "b" ∷ [];
  enabled_authority_linkers =
      record { name = lit "one"; target_bases = lit "a" ∷ lit "b" ∷ [] }
      ∷ record { name = lit "two"; target_bases = lit "b" ∷ [] }
      ∷ [];
  enabled_validators = lit "v" ∷ [];
}

-- With the base "b" both linkers may be chosen; changing to "a" leaves only the first.
abbrev linking_events : List Event
linking_events =
    menu_item link_authorities
    ∷ base_chosen (lit "b")
    ∷ linker_checked (lit "two") true
    ∷ base_chosen (lit "a")
    ∷ linker_checked (lit "two") true
    ∷ []

linked : (run info linking_events initial).0.selected_linkers ≡ lit "one" ∷ []
unfolding runs
linked = refl

abbrev comparing_events : List Event
comparing_events =
    menu_item compare ∷ base_checked (lit "b") true ∷ base_checked (lit "a") true ∷ []

compared :
    (run info (menu_item compare ∷ base_checked (lit "b") true ∷ confirmed ∷ []) initial).1
    ≡ post_compare (lit "b") ∷ []
unfolding runs
compared = refl

-- Each dialog is confirmed once, after the requests of the one before.
abbrev confirming_events : List Event
confirming_events =
    linking_events
    ++ (confirmed ∷ settled link_authorities ∷ comparing_events)
    ++ (confirmed ∷ settled compare ∷ menu_item validate ∷ confirmed ∷ [])

confirmed_requests :
    (run info confirming_events initial).1
    ≡ post_link (lit "one" ∷ []) (lit "a")
      ∷ post_compare (lit "b")
      ∷ post_compare (lit "a")
      ∷ post_validate (lit "v" ∷ [])
      ∷ []
unfolding runs
confirmed_requests = refl

run-IsOffered_example : All (IsOffered info) (run info confirming_events initial).1
run-IsOffered_example = run-IsOffered info confirming_events

abbrev clicks : List ProcessEvent
clicks = process_clicked ∷ process_confirmed ∷ process_clicked ∷ process_confirmed ∷ []

abbrev one : ℕ
one = 1

clicked : in_flight clicks idle 0 ≡ one
unfolding runs
clicked = refl

abbrev no_text : ℕ → Text
no_text n = []

run-shown_checked_example :
    (is_shown_checked
        (link_dialog no_text info none (run info linking_events initial).0).boxes
        (lit "one")
      ≡ includes (run info linking_events initial).0.selected_linkers (lit "one"))
    × (is_shown_checked
          (compare_dialog no_text info none (run info linking_events initial).0).boxes
          (lit "one")
        ≡ includes (run info linking_events initial).0.selected_comparison_bases (lit "one"))
    × (is_shown_checked
          (validate_dialog no_text info none (run info linking_events initial).0).boxes
          (lit "one")
        ≡ includes (run info linking_events initial).0.selected_validators (lit "one"))
run-shown_checked_example = run-shown_checked no_text info none linking_events (lit "one")
