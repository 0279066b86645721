-- ===== src/Charts/Entries/Clicks.antt =====
-- What the clicks on the charts toggle.
use mathlib.Core.Bool.{false≢true}
use mathlib.Core.Option.{some_inj, none-ne-some}
use marc_comparator.Base.{
  ◌≡◌, refl, sym, ap, ◌∙◌, Bool, true, false, not, ◌&&◌, ◌||◌, Option, none, some, List, [], ◌∷◌,
  map, find?, find?_test, if◌then◌else◌, ◌==◌, nat_eqb, eq_iff, eq_refl, arith, Bool-cases,
  Option-cases, inl, inr, All, All-map, All-weaken, present,
}
use marc_comparator.Base.Text.{Text, text_eq}
use marc_comparator.Base.Sets.{includes}
use marc_comparator.Summaries.{strip_prefix}
use marc_comparator.Facets.Preview.{FacetBucket}
use marc_comparator.Charts.Entries.{
  Entry, Chart, bar_facet, donut_facet, status_triple, radial_quality, radial_validation,
  bucket_count, bucket_key, find_key, find_status, quality_order, status_order, bucket_entry,
  key_entry, status_entry, entries, needs_count, click, is_active, legend_click,
}

abbrev keys_of : List FacetBucket → List Text
keys_of buckets = map (λ b. b.key) buckets

find?-includes :
    (test : FacetBucket → Bool) (buckets : List FacetBucket) (b : FacetBucket)
    → find? test buckets ≡ some b
    → includes (keys_of buckets) b.key ≡ true
unfolding find? includes
find?-includes test [] b e = absurd (none-ne-some b e)
find?-includes test (c ∷ cs) b e = elim (Bool-cases (test c)) [
  | inl this ↦
      let same : c ≡ b = some_inj.0 (sym (rw this refl) ∙ e) in
      rw (ap (λ x. x.key) same) (ground (arith, eq_refl b.key))
  | inr later ↦ ground (arith, find?-includes test cs b (sym (rw later refl) ∙ e))
]

-- A number that is not 0 is that of a bucket.
counted : (o : Option FacetBucket) → nat_eqb (bucket_count o) 0 ≡ false → present o ≡ true
counted none h = absurd (false≢true (sym h))
counted (some b) h = refl

includes-found :
    (test : FacetBucket → Bool) (buckets : List FacetBucket) (fallback : Text)
    → nat_eqb (bucket_count (find? test buckets)) 0 ≡ false
    → includes (keys_of buckets) (bucket_key (find? test buckets) fallback) ≡ true
includes-found test buckets fallback h = elim (Option-cases (find? test buckets)) [
  | inl absent ↦ absurd (false≢true (sym (ap present absent) ∙ counted (find? test buckets) h))
  | inr (b, there) ↦
      ap (λ o. includes (keys_of buckets) (bucket_key o fallback)) there
      ∙ find?-includes test buckets b there
]

includes-found_key :
    (buckets : List FacetBucket) (k : Text)
    → nat_eqb (bucket_count (find? (λ b. b.key == k) buckets)) 0 ≡ false
    → includes (keys_of buckets) k ≡ true
includes-found_key buckets k h = elim (Option-cases (find? (λ b. b.key == k) buckets)) [
  | inl absent ↦
      absurd (false≢true (sym (ap present absent) ∙ counted (find? (λ b. b.key == k) buckets) h))
  | inr (b, there) ↦
      ap (includes (keys_of buckets))
        (sym ((eq_iff b.key k).0 (find?_test (λ x. x.key == k) buckets b there)))
      ∙ find?-includes (λ x. x.key == k) buckets b there
]

All-every : {A : Type 0} (P : A → Type 0) (xs : List A) → ((x : A) → P x) → All P xs
All-every P [] f = tt
All-every P (x ∷ xs) f = (f x, All-every P xs f)

-- Where the chart asks for records of the entry, and it has some, its key is one of the buckets.
abbrev IsServed : Chart → List FacetBucket → Entry → Type 0
IsServed chart buckets e =
    (needs_count chart && nat_eqb e.count 0) ≡ false → includes (keys_of buckets) e.key ≡ true

IsServed-some :
    (chart : Chart) (buckets : List FacetBucket) (previews : Option (List FacetBucket))
    (part : List FacetBucket)
    → ((k : Text) → includes (keys_of part) k ≡ true → includes (keys_of buckets) k ≡ true)
    → All (IsServed chart buckets) (map (bucket_entry previews) part)
unfolding bucket_entry includes
IsServed-some chart buckets previews [] sub = tt
IsServed-some chart buckets previews (b ∷ part) sub = (
  λ h. sub b.key (ground (arith, eq_refl b.key)),
  IsServed-some chart buckets previews part (λ k e. sub k (ground (arith, e))),
)

IsServed-key :
    (chart : Chart) (buckets : List FacetBucket) (previews : Option (List FacetBucket)) (k : Text)
    → needs_count chart ≡ true
    → IsServed chart buckets (key_entry buckets previews k)
unfolding key_entry find_key
IsServed-key chart buckets previews k counts h =
    includes-found_key buckets k (ground (arith, h, counts))

IsServed-status :
    (buckets : List FacetBucket) (previews : Option (List FacetBucket)) (status : Text)
    → IsServed radial_validation buckets (status_entry buckets previews status)
unfolding status_entry find_status
IsServed-status buckets previews status h =
    includes-found (λ b. strip_prefix b.key == status) buckets status (ground (arith, h))

entries-IsServed :
    (chart : Chart) (buckets : List FacetBucket) (previews : Option (List FacetBucket))
    → All (IsServed chart buckets) (entries chart buckets previews)
unfolding entries
entries-IsServed bar_facet buckets previews =
    IsServed-some bar_facet buckets previews buckets (λ k e. e)
entries-IsServed donut_facet buckets previews =
    IsServed-some donut_facet buckets previews buckets (λ k e. e)
entries-IsServed (status_triple keys) buckets previews =
    All-map (IsServed (status_triple keys) buckets) (key_entry buckets previews) keys
      (All-every _ keys (λ k. IsServed-key (status_triple keys) buckets previews k refl))
entries-IsServed radial_quality buckets previews =
    All-map (IsServed radial_quality buckets) (key_entry buckets previews) quality_order
      (All-every _ quality_order (λ k. IsServed-key radial_quality buckets previews k refl))
entries-IsServed radial_validation buckets previews =
    All-map (IsServed radial_validation buckets) (status_entry buckets previews) status_order
      (All-every _ status_order (λ s. IsServed-status buckets previews s))

-- A preview is shown, without a record of the entry.
abbrev pub is_off : Option (List FacetBucket) → Entry → Bool
is_off previews e = present previews && nat_eqb e.preview 0

-- Something is toggled only where the test does not forbid it.
unless :
    (test : Bool) (k key : Text)
    → (if test then none else some k) ≡ some key
    → (k ≡ key) × (test ≡ false)
unless true k key h = absurd (none-ne-some key h)
unless false k key h = (some_inj.0 h, refl)

click_lem :
    (chart : Chart) (previews : Option (List FacetBucket)) (e : Entry) (key : Text)
    → click chart previews e ≡ some key
    → (e.key ≡ key)
      × ((needs_count chart && nat_eqb e.count 0) ≡ false)
      × (is_off previews e ≡ false)
unfolding click
click_lem chart previews e key h = elim (Bool-cases (needs_count chart && nat_eqb e.count 0)) [
  | inl empty ↦ absurd (none-ne-some key (sym (rw empty refl) ∙ h))
  | inr full ↦
      let found = unless (is_off previews e) e.key key (sym (rw full refl) ∙ h) in
      (found.0, full, found.1)
]

-- What the legend toggles is the key of the entry, which is active, or may be clicked elsewhere.
legend_click_lem :
    (chart : Chart) (active : List Text) (previews : Option (List FacetBucket)) (e : Entry)
    (key : Text)
    → legend_click chart active previews e ≡ some key
    → (e.key ≡ key)
      × ((not (is_active chart active e) && (needs_count chart && nat_eqb e.count 0)) ≡ false)
      × ((not (is_active chart active e) && is_off previews e) ≡ false)
unfolding legend_click
legend_click_lem bar_facet active previews e key h =
    let found = unless (is_off previews e) e.key key h in
    (found.0, ground arith, ground (arith, found.1))
legend_click_lem donut_facet active previews e key h =
    let found =
      unless (present previews && not (is_active donut_facet active e) && nat_eqb e.preview 0) e.key
        key h in
    (found.0, ground arith, ground (arith, found.1))
legend_click_lem (status_triple keys) active previews e key h = absurd (none-ne-some key h)
legend_click_lem radial_quality active previews e key h =
    let found =
      unless
        (not (is_active radial_quality active e)
          && (nat_eqb e.count 0 || present previews && nat_eqb e.preview 0))
        e.key key h in
    (found.0, ground (arith, found.1), ground (arith, found.1))
legend_click_lem radial_validation active previews e key h =
    let found =
      unless
        (not (is_active radial_validation active e)
          && (nat_eqb e.count 0 || present previews && nat_eqb e.preview 0))
        e.key key h in
    (found.0, ground (arith, found.1), ground (arith, found.1))

-- The charts with a legend.
abbrev pub has_legend : Chart → Bool
has_legend bar_facet = false
has_legend (status_triple keys) = false
has_legend _ = true

legend_click-active :
    (chart : Chart) (active : List Text) (previews : Option (List FacetBucket)) (e : Entry)
    → has_legend chart ≡ true
    → is_active chart active e ≡ true
    → legend_click chart active previews e ≡ some e.key
unfolding legend_click
legend_click-active bar_facet active previews e l h = absurd (false≢true l)
legend_click-active donut_facet active previews e l h =
    let open_here : (present previews
          && not (is_active donut_facet active e)
          && nat_eqb e.preview 0)
        ≡ false =
      ground (arith, h) in
    rw open_here refl
legend_click-active (status_triple keys) active previews e l h = absurd (false≢true l)
legend_click-active radial_quality active previews e l h = rw h refl
legend_click-active radial_validation active previews e l h = rw h refl

-- What the entry toggles: by a click on it, and by the legend.
abbrev pub IsToggled :
    Chart → List Text → List FacetBucket → Option (List FacetBucket) → Entry → Type 0
IsToggled chart active buckets previews e =
    ((key : Text)
      → click chart previews e ≡ some key
      → (includes (map (λ b. b.key) buckets) key ≡ true) × (is_off previews e ≡ false))
    × ((key : Text)
        → legend_click chart active previews e ≡ some key
        → (e.key ≡ key)
          × ((is_active chart active e || includes (map (λ b. b.key) buckets) key) ≡ true)
          × ((is_active chart active e || not (is_off previews e)) ≡ true))
    × (has_legend chart ≡ true
        → is_active chart active e ≡ true
        → legend_click chart active previews e ≡ some e.key)

IsToggled-IsServed :
    (chart : Chart) (active : List Text) (buckets : List FacetBucket)
    (previews : Option (List FacetBucket)) (e : Entry)
    → IsServed chart buckets e
    → IsToggled chart active buckets previews e
IsToggled-IsServed chart active buckets previews e served = (
  λ key h.
      let found = click_lem chart previews e key h in
      (ap (includes (keys_of buckets)) (sym found.0) ∙ served found.1, found.2),
  λ key h.
      let found = legend_click_lem chart active previews e key h in
      (
        found.0,
        elim (Bool-cases (is_active chart active e)) [
          | inl on ↦ ground (arith, on)
          | inr idle ↦
              let here : includes (keys_of buckets) key ≡ true =
                ap (includes (keys_of buckets)) (sym found.0)
                ∙ served (ground (arith, idle, found.1)) in
              ground (arith, here)
        ],
        ground (arith, found.2),
      ),
  legend_click-active chart active previews e,
)

-- Whatever the chart, the active values, the buckets and the preview. A click on a bar, ring or
-- segment toggles nothing, or a key that the server sent, and while a preview is shown only the key of
-- an entry with records in it. The legend, and the labels of the bars, toggle nothing, or the key of
-- their entry, and where the entry is not active, the server sent this key, and while a preview is
-- shown the entry has records in it. Where there is a legend, it always toggles an active entry.
pub entries-IsToggled :
    (chart : Chart) (active : List Text) (buckets : List FacetBucket)
    (previews : Option (List FacetBucket))
    → All (IsToggled chart active buckets previews) (entries chart buckets previews)
entries-IsToggled chart active buckets previews =
    All-weaken (entries chart buckets previews)
      (λ e served. IsToggled-IsServed chart active buckets previews e served)
      (entries-IsServed chart buckets previews)
