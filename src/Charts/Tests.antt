-- ===== src/Charts/Tests.antt =====
-- The charts on concrete buckets, and the theorems about them.
use marc_comparator.Base.{
  ℕ, ◌/◌, ◌≡◌, refl, true, none, some, List, [], ◌∷◌, ◌++◌, map, any, find?, filter, leb, All,
  arith,
}
use marc_comparator.Base.Text.{Text, lit, text_eq, text_eqb}
use marc_comparator.Base.Sets.{includes}
use marc_comparator.Summaries.{strip_prefix, after_colon}
use marc_comparator.Facets.Preview.{FacetBucket}
use marc_comparator.Charts.Histogram.{
  Bucket, normalize_buckets, push_buckets, count_by_min, total, limits, is_aligned,
  total-normalize_buckets,
}
use marc_comparator.Charts.Ranges.{
  Numbers, Submitted, handle_submit, IsRange, IsKept, handle_submit-IsRange,
}
use marc_comparator.Charts.Entries.{
  radial_validation, entries, status_entry, find_status, legend_click, is_active,
}
use marc_comparator.Charts.Entries.Clicks.{IsToggled, entries-IsToggled}
use marc_comparator.Charts.Reasons.{shown_name, raw_key, IsTold, raw_key-shown_name}

runs : Unit {0}
unfolding normalize_buckets push_buckets count_by_min total entries status_entry find_status find?
    strip_prefix after_colon text_eqb legend_click is_active any includes shown_name
runs = tt

-- The last bucket is not aligned: the chart leaves it out.
abbrev raw : List Bucket
raw =
    record { low = 95; high = 100; count = 3 }
    ∷ record { low = 120; high = 130; count = 4 }
    ∷ record { low = 7; high = 12; count = 5 }
    ∷ []

shown_seven : total (normalize_buckets raw) ≡ 7
unfolding runs
shown_seven = refl

total-normalize_buckets_example :
    (map (λ b. b.low) (normalize_buckets raw) ≡ limits)
    × (total (normalize_buckets raw) ≡ total (filter is_aligned raw))
total-normalize_buckets_example = total-normalize_buckets raw

leb_refl : (n : ℕ) → leb n n ≡ true
leb_refl n = ground arith

leb_trans : (a b c : ℕ) → leb a b ≡ true → leb b c ≡ true → leb a c ≡ true
leb_trans a b c h k = ground (arith, h, k)

div-leb : (a b : ℕ) → leb a b ≡ true → leb (a / 100) (b / 100) ≡ true
div-leb a b h = ground (arith, h)

-- Numbers with two decimal places, as hundredths.
abbrev hundredths : Numbers ℕ
hundredths = record {
  number_zero = 0;
  number_one = 100;
  hundred_percent = 10000;
  le = leb;
  div_hundred = λ a. a / 100;
  le_refl = leb_refl;
  le_trans = leb_trans;
  zero-le-hundred = refl;
  div_hundred-le = div-leb;
  div_hundred-zero = refl;
  div_hundred-hundred = refl;
}

abbrev twenty : ℕ
twenty = 2000

abbrev many : ℕ
many = 14000

-- From 20 to 140 percent: the scores from 0.2 to 1 are handed on.
submitted_scores :
    handle_submit hundredths (some twenty) (some many)
    ≡ some (record { written = (2000, 10000); handed_on = (20, 100) })
unfolding handle_submit
submitted_scores = refl

handle_submit-IsRange_example :
    (s : Submitted ℕ) × (handle_submit hundredths (some twenty) (some many) ≡ some s)
    × IsRange hundredths hundredths.hundred_percent s.written
    × IsKept hundredths (twenty, many) s
    × (s.handed_on ≡ (hundredths.div_hundred s.written.0, hundredths.div_hundred s.written.1))
    × IsRange hundredths hundredths.number_one s.handed_on
handle_submit-IsRange_example = handle_submit-IsRange hundredths twenty many

abbrev statuses : List FacetBucket
statuses =
    record { key = lit "v:Valid"; count = 2 } ∷ record { key = lit "v:Invalid"; count = 1 } ∷ []

-- A validator without a valid record, while the records valid for another are filtered.
abbrev active_elsewhere : List Text
active_elsewhere = lit "u:Valid" ∷ []

abbrev only_invalid : List FacetBucket
only_invalid = record { key = lit "v:Invalid"; count = 1 } ∷ []

entries-IsToggled_example :
    All
      (IsToggled radial_validation active_elsewhere only_invalid none)
      (entries radial_validation only_invalid none)
entries-IsToggled_example = entries-IsToggled radial_validation active_elsewhere only_invalid none

-- Its button "Valid" in the legend is active, and toggles a key without a validator.
toggled_status :
    map
      (legend_click radial_validation active_elsewhere none)
      (entries radial_validation only_invalid none)
    ≡ none ∷ some (lit "v:Invalid") ∷ none ∷ some (lit "Valid") ∷ []
unfolding runs
toggled_status = refl

-- The preview of a status is the one of the first validator that has the status.
abbrev previews : List FacetBucket
previews =
    record { key = lit "u:Valid"; count = 9 } ∷ record { key = lit "v:Valid"; count = 0 } ∷ []

other_preview : (status_entry statuses (some previews) (lit "Valid")).preview ≡ 9
unfolding runs
other_preview = refl

abbrev upper : Text → Text
upper t = lit "T" ++ t

abbrev valid_key : Text
valid_key = lit "v:Valid"

told : IsTold upper statuses valid_key
unfolding runs
told = (λ e. refl, (λ e. ground (arith, e), tt))

raw_key-shown_name_example : raw_key upper statuses (shown_name upper valid_key) ≡ valid_key
unfolding includes text_eqb
raw_key-shown_name_example = raw_key-shown_name upper statuses valid_key told refl
