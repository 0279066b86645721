-- ===== src/Queries/Tests.antt =====
-- The theorems about stale queries at concrete queries.
use marc_comparator.Base.{◌≡◌}
use marc_comparator.Base.Text.{lit}
use marc_comparator.Queries.{Query, facets, review_created, review_deleted, is_stale}
use marc_comparator.Queries.Stale.{is_stale-review, is_shown_by_review}

abbrev counts : Query
counts = facets (lit "{}")

is_stale-review_example :
    (is_stale (review_created (lit "MZK01") (lit "1")) counts
      ≡ is_shown_by_review (lit "MZK01") (lit "1") counts)
    × (is_stale (review_deleted (lit "MZK01") (lit "1")) counts
        ≡ is_shown_by_review (lit "MZK01") (lit "1") counts)
is_stale-review_example = is_stale-review (lit "MZK01") (lit "1") counts
