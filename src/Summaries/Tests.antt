-- ===== src/Summaries/Tests.antt =====
-- The groups of concrete validations.
use marc_comparator.Base.{◌≡◌, refl, List, [], ◌∷◌, length, leb}
use marc_comparator.Base.Text.{Text, lit, text_eqb}
use marc_comparator.Base.Sort.{sort, insert_sorted, IsSorted}
use marc_comparator.Records.{ValidationSummary}
use marc_comparator.Summaries.{
  status_order, group_validations, count_all, count_in, group_key, strip_prefix, after_colon,
}
use marc_comparator.Summaries.Counts.{total, group_validations_lem}

abbrev checked : Text → Text → ValidationSummary
checked tag status = record { validator = lit "isbn"; target_tag = tag; status = status }

abbrev some_checks : List ValidationSummary
some_checks =
    checked (lit "020") (lit "Invalid")
    ∷ checked (lit "020") (lit "Valid")
    ∷ checked (lit "020") (lit "Invalid")
    ∷ []

grouped :
    group_validations some_checks
    ≡ record { validator = lit "isbn"; target_tag = lit "020"; status = lit "Valid"; count = 1 }
      ∷ record { validator = lit "isbn"; target_tag = lit "020"; status = lit "Invalid"; count = 2 }
      ∷ []
unfolding group_validations count_all count_in group_key status_order sort insert_sorted text_eqb
grouped = refl

stripped : strip_prefix (lit "isbn:Valid") ≡ lit "Valid"
unfolding strip_prefix after_colon
stripped = refl

group_validations_lem_example :
    (total (group_validations some_checks) ≡ length some_checks)
    × IsSorted
        (λ a b. leb (status_order a.status) (status_order b.status))
        (group_validations some_checks)
group_validations_lem_example = group_validations_lem some_checks
