-- ===== src/Charts/Histogram.antt =====
-- `normalizeBuckets` and the data of the chart in
-- client/src/features/records/plots/histogram-facet.tsx. A score is given by its hundredths, rounded,
-- which the code computes first; a score of 1 or more has a hundred.
use mathlib.Core.Bool.{false≢true}
use marc_comparator.Base.{
  ℕ, zero, suc, ◌+◌, ◌*◌, ◌≡◌, refl, sym, ap, ◌∙◌, Bool, true, false, Option, none, some, List, [],
  ◌∷◌, ◌++◌, map, filter, get_elem?, if◌then◌else◌, ◌==◌, nat_eq, eq_iff, eq-false_of_ne, leb,
  arith, Bool-cases, inl, inr, or_else,
}
use marc_comparator.Base.Int.{ℤ, pos, sub_ℕ}
use marc_comparator.Base.Sets.{includes, IsDistinct}

-- A bucket by the hundredths of its limits.
pub record Bucket : Type 0 where
  pub low : ℕ
  pub high : ℕ
  pub count : ℕ

-- `countByMin`, with 0 where the map has no value. The key of a bucket is 100 from there on.
abbrev pub bucket_key : Bucket → ℕ
bucket_key b = if leb 100 b.low then 100 else b.low

abbrev pub add_count : (ℕ → ℕ) → Bucket → ℕ → ℕ
add_count counts b key = if bucket_key b == key then counts key + b.count else counts key

unfoldable pub count_by_min : (ℕ → ℕ) → List Bucket → ℕ → ℕ
count_by_min counts [] = counts
count_by_min counts (b ∷ bs) = count_by_min (add_count counts b) bs

abbrev pub no_counts : ℕ → ℕ
no_counts key = 0

-- The loop for the first buckets: `n` are left, and `i` is the next.
unfoldable pub push_buckets : (ℕ → ℕ) → ℕ → ℕ → List Bucket
push_buckets counts zero i = []
push_buckets counts (suc n) i =
    record { low = i * 5; high = (i + 1) * 5; count = counts (i * 5) }
    ∷ push_buckets counts n (i + 1)

unfoldable pub normalize_buckets : List Bucket → List Bucket
unfolding push_buckets count_by_min
normalize_buckets raw =
    let counts = count_by_min no_counts raw in
    push_buckets counts 19 0
    ++ record { low = 95; high = 100; count = counts 95 }
      ∷ record { low = 100; high = 100; count = counts 100 }
      ∷ []

-- A color by the lower limit.
pub data ScoreColor : Type 0 where
  success_color warning_color danger_color : ScoreColor

unfoldable pub get_score_color : ℕ → ScoreColor
get_score_color low =
    if leb 90 low then success_color else if leb 70 low then warning_color else danger_color

pub data Range : Type 0 where
  full : Range
  nearly_full : Range
  between : ℕ → ℕ → Range

-- A column of the chart.
pub record Column : Type 0 where
  pub range : Range
  pub low : ℕ
  pub high : ℕ
  pub count : ℕ
  pub fill : ScoreColor
  pub preview : ℕ
  pub preview_count : Option ℕ
  pub remainder : ℤ

abbrev pub range_of : Bucket → Range
range_of b =
    if b.low == 100 then full else if b.low == 95 then nearly_full else between b.low b.high

abbrev pub map_count : Option Bucket → Option ℕ
map_count none = none
map_count (some b) = some b.count

unfoldable pub count_at : List Bucket → ℕ → ℕ
count_at buckets i = or_else (map_count (get_elem? buckets i)) 0

-- `index` counts the columns.
unfoldable pub columns : Option (List Bucket) → ℕ → List Bucket → List Column
unfolding get_score_color count_at
columns preview index [] = []
columns none index (b ∷ bs) =
    record {
      range = range_of b;
      low = b.low;
      high = b.high;
      count = b.count;
      fill = get_score_color b.low;
      preview = b.count;
      preview_count = none;
      remainder = pos 0;
    }
    ∷ columns none (suc index) bs
columns (some ps) index (b ∷ bs) =
    record {
      range = range_of b;
      low = b.low;
      high = b.high;
      count = b.count;
      fill = get_score_color b.low;
      preview = count_at ps index;
      preview_count = some (count_at ps index);
      remainder = sub_ℕ b.count (count_at ps index);
    }
    ∷ columns (some ps) (suc index) bs

unfoldable pub normalized_preview : Option (List Bucket) → Option (List Bucket)
unfolding normalize_buckets
normalized_preview none = none
normalized_preview (some raw) = some (normalize_buckets raw)

unfoldable pub chart_data : List Bucket → Option (List Bucket) → List Column
unfolding columns normalize_buckets normalized_preview
chart_data raw preview = columns (normalized_preview preview) 0 (normalize_buckets raw)

-- The number of records in buckets.
unfoldable pub total : List Bucket → ℕ
total [] = 0
total (b ∷ bs) = b.count + total bs

-- The lower limits of the columns.
abbrev pub limits : List ℕ
limits =
    0 ∷ 5 ∷ 10 ∷ 15 ∷ 20 ∷ 25 ∷ 30 ∷ 35 ∷ 40 ∷ 45 ∷ 50 ∷ 55 ∷ 60 ∷ 65 ∷ 70 ∷ 75 ∷ 80 ∷ 85 ∷ 90 ∷ 95
    ∷ 100 ∷ []

-- The buckets that the chart shows: those whose key is a limit of a column.
unfoldable pub is_aligned : Bucket → Bool
is_aligned b = includes limits (bucket_key b)

sum_of : (ℕ → ℕ) → List ℕ → ℕ
sum_of counts [] = 0
sum_of counts (k ∷ ks) = counts k + sum_of counts ks

abbrev counted : Bool → ℕ → ℕ
counted b n = if b then n else 0

-- A bucket adds its records to the sum over the keys, where its key is one of them.
sum_of-add_count :
    (counts : ℕ → ℕ) (b : Bucket) (ks : List ℕ)
    → IsDistinct ks
    → sum_of (add_count counts b) ks
      ≡ sum_of counts ks + counted (includes ks (bucket_key b)) b.count
unfolding sum_of includes
sum_of-add_count counts b [] h = omega arith
sum_of-add_count counts b (k ∷ ks) h = elim (Bool-cases (bucket_key b == k)) [
  | inl same ↦
      let key : k ≡ bucket_key b = sym ((eq_iff (bucket_key b) k).0 same) in
      let out : includes ks (bucket_key b) ≡ false = sym (ap (includes ks) key) ∙ h.0 in
      let now : (k == bucket_key b) ≡ true = (eq_iff k (bucket_key b)).1 key in
      rw (same, now) (ground (arith, sum_of-add_count counts b ks h.1, out))
  | inr other ↦
      let never : (k == bucket_key b) ≡ false =
        eq-false_of_ne k (bucket_key b)
          (λ e. false≢true (sym other ∙ (eq_iff (bucket_key b) k).1 (sym e))) in
      rw (other, never) (ground (arith, sum_of-add_count counts b ks h.1))
]

sum_of-count_by_min :
    (counts : ℕ → ℕ) (raw : List Bucket) (ks : List ℕ)
    → IsDistinct ks
    → sum_of (count_by_min counts raw) ks
      ≡ sum_of counts ks + total (filter (λ b. includes ks (bucket_key b)) raw)
unfolding count_by_min total filter
sum_of-count_by_min counts [] ks h = omega arith
sum_of-count_by_min counts (b ∷ bs) ks h =
    let later = sum_of-count_by_min (add_count counts b) bs ks h in
    let now = sum_of-add_count counts b ks h in
    elim (Bool-cases (includes ks (bucket_key b))) [
      | inl e ↦ rw e (ground (arith, later, now, e))
      | inr e ↦ rw e (ground (arith, later, now, e))
    ]

sum_of-no_counts : (ks : List ℕ) → sum_of no_counts ks ≡ 0
unfolding sum_of
sum_of-no_counts [] = refl
sum_of-no_counts (k ∷ ks) = omega (arith, sum_of-no_counts ks)

limits-IsDistinct : IsDistinct limits
unfolding includes
limits-IsDistinct = (
  refl,
  (
    refl,
    (
      refl,
      (
        refl,
        (
          refl,
          (
            refl,
            (
              refl,
              (
                refl,
                (
                  refl,
                  (
                    refl,
                    (
                      refl,
                      (
                        refl,
                        (refl, (refl, (refl, (refl, (refl, (refl, (refl, (refl, (refl, tt))))))))),
                      ),
                    ),
                  ),
                ),
              ),
            ),
          ),
        ),
      ),
    ),
  ),
)

-- The chart always has one column for each of the limits, and its columns together have the records of
-- the buckets that begin at one of the limits, none twice and none left out.
pub total-normalize_buckets :
    (raw : List Bucket)
    → (map (λ b. b.low) (normalize_buckets raw) ≡ limits)
      × (total (normalize_buckets raw) ≡ total (filter is_aligned raw))
unfolding normalize_buckets push_buckets total sum_of is_aligned
total-normalize_buckets raw =
    let shown = total (filter is_aligned raw) in
    let same : 0 + shown ≡ shown = omega arith in
    (refl, sum_of-count_by_min no_counts raw limits limits-IsDistinct ∙ same)
