-- ===== src/Summaries.antt =====
-- client/src/features/records/utils.ts: the validations of a record, put together for the table, and
-- the prefix of a facet key.
pub mod Counts
pub mod Members
mod Tests
use marc_comparator.Base.{
  ℕ, suc, ◌+◌, Bool, true, false, List, [], ◌∷◌, ◌++◌, map, if◌then◌else◌, nat_eqb, ◌==◌, leb,
}
use marc_comparator.Base.Text.{Text, lit, text_eq}
use marc_comparator.Base.Sort.{sort}
use marc_comparator.Records.{ValidationSummary}

-- A group of validations, with their number.
pub record Group : Type 0 where
  pub validator : Text
  pub target_tag : Text
  pub status : Text
  pub count : ℕ

-- `STATUS_ORDER[status] ?? 99`.
unfoldable pub status_order : Text → ℕ
status_order status =
    if status == lit "Valid"
    then 0
    else if status == lit "ForReview"
    then 1
    else if status == lit "Invalid"
    then 2
    else if status == lit "AdditionalInfo"
    then 3
    else 99

-- The code unit of `|`.
abbrev bar : ℕ
bar = 124

unfoldable pub group_key : ValidationSummary → Text
group_key v = v.validator ++ bar ∷ v.target_tag ++ bar ∷ v.status

-- The loop over the validations, for one of them: its group is counted up, or is new at the end.
unfoldable pub count_in : List (Text × Group) → ValidationSummary → List (Text × Group)
unfolding group_key
count_in [] v =
    (
      group_key v,
      record { validator = v.validator; target_tag = v.target_tag; status = v.status; count = 1 },
    )
    ∷ []
count_in ((key, group) ∷ rest) v =
    if key == group_key v
    then (key, record group { count = suc group.count }) ∷ rest
    else (key, group) ∷ count_in rest v

unfoldable pub count_all : List (Text × Group) → List ValidationSummary → List (Text × Group)
unfolding count_in
count_all groups [] = groups
count_all groups (v ∷ vs) = count_all (count_in groups v) vs

unfoldable pub group_validations : List ValidationSummary → List Group
unfolding count_all status_order
group_validations vs =
    sort (λ a b. leb (status_order a.status) (status_order b.status))
      (map (λ e. e.1) (count_all [] vs))

-- `key.slice(key.indexOf(":") + 1)`, and the whole key where it has no colon.
unfoldable pub after_colon : Text → Text → Text
after_colon whole [] = whole
after_colon whole (c ∷ cs) = if nat_eqb c 58 then cs else after_colon whole cs

unfoldable pub strip_prefix : Text → Text
unfolding after_colon
strip_prefix key = after_colon key key
