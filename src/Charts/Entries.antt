-- ===== src/Charts/Entries.antt =====
-- The entries of the other charts of client/src/features/records/plots and what a click on one of them
-- toggles: bar-facet.tsx, donut-facet.tsx, status-triple-facet.tsx, radial-quality.tsx and
-- radial-validation.tsx.
pub mod Clicks
use mathlib.Core.Bool.{false≢true}
use mathlib.Core.Option.{some_inj, none-ne-some}
use marc_comparator.Base.{
  ℕ, ◌+◌, ◌≡◌, refl, sym, ap, ◌∙◌, Bool, true, false, not, ◌&&◌, ◌||◌, Option, none, some, List, [],
  ◌∷◌, any, map, find?, find?_test, if◌then◌else◌, ◌==◌, nat_eqb, leb, eq_iff, eq_refl, arith,
  Bool-cases, Option-cases, inl, inr, All, All-map, present,
}
use marc_comparator.Base.Text.{Text, lit, text_eq}
use marc_comparator.Base.Sets.{includes}
use marc_comparator.Summaries.{strip_prefix}
use marc_comparator.Facets.Preview.{FacetBucket}

-- An entry of a chart. An active value is one of the entry where it is its `value`; that of a status
-- has no validator before it.
pub record Entry : Type 0 where
  pub value : Text
  pub key : Text
  pub count : ℕ
  pub preview : ℕ

-- The chart, the ring, the three rows of statuses with the keys of their segments, the half ring of
-- qualities and the rings of validation statuses.
pub data Chart : Type 0 where
  bar_facet donut_facet : Chart
  status_triple : List Text → Chart
  radial_quality radial_validation : Chart

abbrev pub bucket_count : Option FacetBucket → ℕ
bucket_count none = 0
bucket_count (some b) = b.count

abbrev pub bucket_key : Option FacetBucket → Text → Text
bucket_key none fallback = fallback
bucket_key (some b) fallback = b.key

unfoldable pub find_key : List FacetBucket → Text → Option FacetBucket
find_key buckets key = find? (λ b. b.key == key) buckets

unfoldable pub find_status : List FacetBucket → Text → Option FacetBucket
find_status buckets status = find? (λ b. strip_prefix b.key == status) buckets

abbrev pub find_preview :
    (List FacetBucket → Text → Option FacetBucket) → Option (List FacetBucket) → Text → ℕ
find_preview find none key = 0
find_preview find (some buckets) key = bucket_count (find buckets key)

abbrev pub quality_order : List Text
quality_order = lit "Poor" ∷ lit "Moderate" ∷ lit "Excellent" ∷ []

abbrev pub status_order : List Text
status_order = lit "AdditionalInfo" ∷ lit "Invalid" ∷ lit "ForReview" ∷ lit "Valid" ∷ []

-- The entry of a bucket, as in the bars and in the ring.
unfoldable pub bucket_entry : Option (List FacetBucket) → FacetBucket → Entry
unfolding find_key
bucket_entry previews b = record {
  value = b.key;
  key = b.key;
  count = b.count;
  preview = find_preview find_key previews b.key;
}

-- The entry of a fixed key, as in the half ring and in the segments.
unfoldable pub key_entry : List FacetBucket → Option (List FacetBucket) → Text → Entry
unfolding find_key
key_entry buckets previews key = record {
  value = key;
  key = key;
  count = bucket_count (find_key buckets key);
  preview = find_preview find_key previews key;
}

-- The entry of a status, whose buckets have the name of their validator before it.
unfoldable pub status_entry : List FacetBucket → Option (List FacetBucket) → Text → Entry
unfolding find_status
status_entry buckets previews status = record {
  value = status;
  key = bucket_key (find_status buckets status) status;
  count = bucket_count (find_status buckets status);
  preview = find_preview find_status previews status;
}

unfoldable pub entries : Chart → List FacetBucket → Option (List FacetBucket) → List Entry
unfolding bucket_entry key_entry status_entry
entries bar_facet buckets previews = map (bucket_entry previews) buckets
entries donut_facet buckets previews = map (bucket_entry previews) buckets
entries (status_triple keys) buckets previews = map (key_entry buckets previews) keys
entries radial_quality buckets previews = map (key_entry buckets previews) quality_order
entries radial_validation buckets previews = map (status_entry buckets previews) status_order

-- The number in the middle of a chart, and the largest entry of the ring, the first of equal ones.
unfoldable pub total_of : List Entry → ℕ
total_of [] = 0
total_of (e ∷ es) = e.count + total_of es

unfoldable pub larger_of : Entry → List Entry → Entry
larger_of a [] = a
larger_of a (b ∷ es) = larger_of (if leb b.count a.count then a else b) es

unfoldable pub dominant : List Entry → Option Entry
unfolding larger_of
dominant [] = none
dominant (e ∷ es) = some (larger_of e es)

-- A chart whose entries without a record cannot be clicked, or are not there.
abbrev pub needs_count : Chart → Bool
needs_count bar_facet = false
needs_count donut_facet = false
needs_count _ = true

-- The key that a click on the bar, ring or segment of an entry toggles.
unfoldable pub click : Chart → Option (List FacetBucket) → Entry → Option Text
click chart previews e =
    if needs_count chart && nat_eqb e.count 0
    then none
    else if present previews && nat_eqb e.preview 0
    then none
    else some e.key

unfoldable pub is_active : Chart → List Text → Entry → Bool
is_active radial_validation active e = any (λ v. strip_prefix v == e.value) active
is_active _ active e = includes active e.value

-- The key that the button of the entry in the legend toggles, or its label beside the bars, where no
-- two bars have the same label. The rows of statuses have neither.
unfoldable pub legend_click : Chart → List Text → Option (List FacetBucket) → Entry → Option Text
unfolding is_active
legend_click bar_facet active previews e =
    if present previews && nat_eqb e.preview 0 then none else some e.key
legend_click donut_facet active previews e =
    if present previews && not (is_active donut_facet active e) && nat_eqb e.preview 0
    then none
    else some e.key
legend_click (status_triple keys) active previews e = none
legend_click chart active previews e =
    if not (is_active chart active e)
      && (nat_eqb e.count 0 || present previews && nat_eqb e.preview 0)
    then none
    else some e.key

-- An entry of the ring cannot be clicked, by its look.
unfoldable pub is_disabled_segment : List Text → Option (List FacetBucket) → Entry → Bool
is_disabled_segment active previews e =
    present previews && not (includes active e.key) && nat_eqb e.preview 0
