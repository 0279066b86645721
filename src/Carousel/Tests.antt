-- ===== src/Carousel/Tests.antt =====
-- View keys, and the choice of a view, at concrete records.
use marc_comparator.Base.{
  ℕ, ◌≡◌, refl, true, false, none, some, [], ◌∷◌, ◌++◌, ◌≢◌, ◌⊎◌, any, find?, All, arith,
}
use marc_comparator.Base.Text.{Text, lit, text_eq, text_eqb, starts_with, split_at, init}
use marc_comparator.Records.{RecordSummary}
use marc_comparator.Carousel.Key.{
  authority, comparison, parse_view_key, build_authority_key, parse_view_key-build_authority_key,
}
use marc_comparator.Carousel.MarcTable.{Row}
use marc_comparator.Carousel.MarcRow.{layout, drawn}
use marc_comparator.Carousel.MarcRow.Lines.{AreLinesOf, IsAnnotated, drawn-layout}
use marc_comparator.Carousel.PidLinks.{
  pid_first, pid_rest, contents, render_text_with_pid_links, plain, link, is_hex, fits,
  replace_first,
}
use marc_comparator.Carousel.PidLinks.Contents.{IsPart, contents-render_text_with_pid_links}
use marc_comparator.Carousel.View.{Selection, is_view_available, matching_view, on_record_change}
use marc_comparator.Carousel.View.Available.{on_record_change-IsAvailable}

keys : Unit {0}
unfolding parse_view_key build_authority_key starts_with split_at init text_eqb any find?
    matching_view is_view_available on_record_change
keys = tt

parse_without_separator : parse_view_key (lit "comp:abc") ≡ comparison (lit "ab") (lit "abc")
unfolding keys
parse_without_separator = refl

abbrev record_b : RecordSummary ℕ
record_b = record {
  id = lit "b";
  base = lit "MZK01";
  system_number = lit "2";
  title = none;
  authors = [];
  type_of_record = none;
  bibliographic_level = none;
  state = [];
  authority_links =
      record { linker = lit "l"; base = lit "SKC"; authority_record_id = lit "SKC-9" } ∷ [];
  comparisons = [];
  validations = [];
  latest_sync = none;
  latest_transaction = none;
  processed_at = none;
}

abbrev before : Selection
before = record { prev_record_id = lit "a"; selected_view = lit "auth:SKC:7" }

same_base :
    on_record_change record_b none none false before
    ≡ record { prev_record_id = lit "b"; selected_view = lit "auth:SKC:9" }
unfolding keys
same_base = refl

parse_view_key-build_authority_key_example :
    parse_view_key (build_authority_key (lit "SKC") (lit "SKC" ++ (lit "-" ++ lit "9")))
    ≡ authority (lit "SKC") (lit "9")
unfolding keys
parse_view_key-build_authority_key_example =
    parse_view_key-build_authority_key (lit "SKC") (lit "9") refl

record_changed : lit "b" ≢ lit "a"
record_changed = ground arith

on_record_change-IsAvailable_example :
    ((on_record_change record_b none none false before).prev_record_id ≡ lit "b")
    × (is_view_available
          (on_record_change record_b none none false before).selected_view
          record_b
          none
          none
        ≡ true)
    × ((is_view_available (lit "auth:SKC:7") record_b none none ≡ false)
        ⊎ ((on_record_change record_b none none false before).selected_view ≡ lit "auth:SKC:7"))
on_record_change-IsAvailable_example =
    on_record_change-IsAvailable record_b none none before record_changed

abbrev titled : Row ℕ
titled = record {
  tag = lit "245";
  ind1 = some (lit "1");
  ind2 = none;
  subfields = (lit "a", lit "Babička" ∷ []) ∷ (lit "c", lit "Němcová" ∷ lit "Ladislav" ∷ []) ∷ [];
  striped = true;
  comparison_annotation = some (record {
    tag = lit "245";
    value_a = none;
    value_b = none;
    score = 80;
    explanation = none;
    details = none;
    subfield_results = some (
        record {
          code = lit "c";
          value_a = none;
          value_b = none;
          score = 60;
          explanation = none;
          details = none;
        }
        ∷ []);
  });
  validation_annotations = none;
}

drawn-layout_example :
    AreLinesOf titled.subfields (drawn (layout true titled))
    × IsAnnotated true titled.comparison_annotation (layout true titled)
drawn-layout_example = drawn-layout true titled

abbrev hint : Text
hint = lit "See uuid:01234567-89ab-cdef-0123-456789ABCDEF."

abbrev library_url : Text
library_url = lit "https://k/{pid}"

contents-render_text_with_pid_links_example :
    (contents (render_text_with_pid_links hint (some library_url)) ≡ hint)
    × All
        (IsPart pid_first pid_rest library_url)
        (render_text_with_pid_links hint (some library_url))
contents-render_text_with_pid_links_example =
    contents-render_text_with_pid_links hint library_url refl

-- The identifier is a link, between two texts.
rendered_hint :
    render_text_with_pid_links hint (some library_url)
    ≡ plain (lit "See ")
      ∷ link
          (lit "uuid:01234567-89ab-cdef-0123-456789ABCDEF")
          (lit "https://k/uuid:01234567-89ab-cdef-0123-456789ABCDEF")
      ∷ plain (lit ".")
      ∷ []
unfolding render_text_with_pid_links is_hex fits replace_first starts_with
rendered_hint = refl
