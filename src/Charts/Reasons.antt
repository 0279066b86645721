-- ===== src/Charts/Reasons.antt =====
-- The bars of the reasons in client/src/features/records/plots/validation-section.tsx: the chart gets
-- translated names in place of keys, and what it hands back is turned into the keys again. `translate`
-- is the translation of a reason.
use mathlib.Core.Bool.{false≢true}
use marc_comparator.Base.{
  ◌≡◌, ◌⊎◌, refl, sym, ap, ◌∙◌, true, Option, none, some, List, [], ◌∷◌, map, if◌then◌else◌, ◌==◌,
  or_else, eq_iff, Bool-cases, inl, inr, arith, present, All,
}
use marc_comparator.Base.Text.{Text, lit, text_eq}
use marc_comparator.Base.Sets.{includes}
use marc_comparator.Summaries.{strip_prefix}
use marc_comparator.Facets.Preview.{FacetBucket}

-- `REASON_TO_STATUS`.
unfoldable pub reason_to_status : Text → Option Text
reason_to_status reason =
    if includes (lit "no_links_found_or_expected" ∷ lit "valid_link" ∷ []) reason
    then some (lit "Valid")
    else if reason == lit "missing_link_text"
    then some (lit "ForReview")
    else if includes
        (lit "non_linkable_model" ∷ lit "wrong_path_found" ∷ lit "wrong_path_not_found" ∷ []) reason
    then some (lit "AdditionalInfo")
    else if includes
        (lit "invalid_link_format"
          ∷ lit "non_top_level_document"
          ∷ lit "link_not_found"
          ∷ lit "missing_link_in_marc"
          ∷ lit "wrong_server_found"
          ∷ lit "wrong_server_not_found"
          ∷ [])
        reason
    then some (lit "Invalid")
    else none

module _ (translate : Text → Text) where
  unfoldable pub shown_name : Text → Text
  shown_name key = translate (strip_prefix key)

  -- `rawByTranslated`: of two keys with one name the last one counts.
  unfoldable pub raw_by_translated : List FacetBucket → Text → Option Text
  unfolding shown_name
  raw_by_translated [] name = none
  raw_by_translated (b ∷ bs) name =
      let rest = raw_by_translated bs name in
      if present rest then rest else if shown_name b.key == name then some b.key else none

  unfoldable pub translated_data : List FacetBucket → List FacetBucket
  unfolding shown_name
  translated_data [] = []
  translated_data (b ∷ bs) = record b { key = shown_name b.key } ∷ translated_data bs

  -- What the chart hands on when a bar is clicked or hovered.
  unfoldable pub raw_key : List FacetBucket → Text → Text
  unfolding raw_by_translated
  raw_key data_buckets name = or_else (raw_by_translated data_buckets name) name

  -- Keys of the buckets with one name are the same key.
  abbrev pub IsTold : List FacetBucket → Text → Type 0
  IsTold bs key = All (λ b. shown_name b.key ≡ shown_name key → b.key ≡ key) bs

  -- Nothing is found, or the key.
  raw_by_translated-or :
      (bs : List FacetBucket) (key : Text)
      → IsTold bs key
      → (raw_by_translated bs (shown_name key) ≡ none)
        ⊎ (raw_by_translated bs (shown_name key) ≡ some key)
  unfolding raw_by_translated
  raw_by_translated-or [] key told = inl refl
  raw_by_translated-or (b ∷ bs) key told = elim (raw_by_translated-or bs key told.1) [
    | inr found ↦ rw found (inr refl)
    | inl absent ↦ elim (Bool-cases (shown_name b.key == shown_name key)) [
      | inl same ↦
          rw (absent, same)
            (inr (ap some (told.0 ((eq_iff (shown_name b.key) (shown_name key)).0 same))))
      | inr other ↦ rw (absent, other) (inl refl)
    ]
  ]

  -- Something is found.
  raw_by_translated-present :
      (bs : List FacetBucket) (key : Text)
      → includes (map (λ b. b.key) bs) key ≡ true
      → present (raw_by_translated bs (shown_name key)) ≡ true
  unfolding raw_by_translated includes
  raw_by_translated-present [] key e = absurd (false≢true e)
  raw_by_translated-present (b ∷ bs) key e =
      elim (Bool-cases (present (raw_by_translated bs (shown_name key)))) [
        | inl found ↦ rw (found, found) refl
        | inr absent ↦ elim (Bool-cases (b.key == key)) [
          | inl same ↦
              let name : (shown_name b.key == shown_name key) ≡ true =
                (eq_iff (shown_name b.key) (shown_name key)).1
                  (ap shown_name ((eq_iff b.key key).0 same)) in
              rw (absent, name) refl
          | inr other ↦
              let later = raw_by_translated-present bs key (ground (arith, e, other)) in
              absurd (false≢true (sym absent ∙ later))
        ]
      ]

  raw_by_translated_lem :
      (bs : List FacetBucket) (key : Text)
      → IsTold bs key
      → includes (map (λ b. b.key) bs) key ≡ true
      → raw_by_translated bs (shown_name key) ≡ some key
  raw_by_translated_lem bs key told e = elim (raw_by_translated-or bs key told) [
    | inr found ↦ found
    | inl absent ↦
        absurd (false≢true (sym (ap present absent) ∙ raw_by_translated-present bs key e))
  ]

-- Where the translations tell the keys of the chart apart: a click on the bar of a key toggles this
-- key, though the chart knows only its name.
pub raw_key-shown_name :
    (translate : Text → Text) (bs : List FacetBucket) (key : Text)
    → IsTold translate bs key
    → includes (map (λ b. b.key) bs) key ≡ true
    → raw_key translate bs (shown_name translate key) ≡ key
unfolding raw_key
raw_key-shown_name translate bs key told e =
    ap (λ o. or_else o (shown_name translate key)) (raw_by_translated_lem translate bs key told e)
