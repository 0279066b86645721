-- ===== src/Summaries/Members.antt =====
-- The groups of a record's validations have the validators of these validations.
use marc_comparator.Base.{ℕ, List, [], ◌∷◌, ◌==◌, Bool-cases, inl, inr, All}
use marc_comparator.Base.Text.{Text, text_eq}
use marc_comparator.Base.Sort.{sort}
use marc_comparator.Records.{ValidationSummary}
use marc_comparator.Summaries.{
  Group, status_order, group_key, count_in, count_all, group_validations,
}
use marc_comparator.Summaries.Counts.{groups_of, before, All-insert_sorted}

module _ (P : Text → Type 0) where
  abbrev IsNamed : Group → Type 0
  IsNamed g = P g.validator

  All-count_in :
      (groups : List (Text × Group)) (v : ValidationSummary)
      → P v.validator
      → All IsNamed (groups_of groups)
      → All IsNamed (groups_of (count_in groups v))
  unfolding count_in
  All-count_in [] v p h = (p, tt)
  All-count_in ((key, g) ∷ rest) v p h = elim (Bool-cases (key == group_key v)) [
    | inl e ↦ rw e h
    | inr e ↦ rw e (h.0, All-count_in rest v p h.1)
  ]

  All-count_all :
      (groups : List (Text × Group)) (vs : List ValidationSummary)
      → All (λ v. P v.validator) vs
      → All IsNamed (groups_of groups)
      → All IsNamed (groups_of (count_all groups vs))
  unfolding count_all
  All-count_all groups [] p h = h
  All-count_all groups (v ∷ vs) p h =
      All-count_all (count_in groups v) vs p.1 (All-count_in groups v p.0 h)

  All-sort :
      (rank : Group → ℕ) (gs : List Group) → All IsNamed gs → All IsNamed (sort (before rank) gs)
  unfolding sort
  All-sort rank [] h = tt
  All-sort rank (g ∷ gs) h =
      All-insert_sorted rank IsNamed g (sort (before rank) gs) h.0 (All-sort rank gs h.1)

  pub All-group_validations :
      (vs : List ValidationSummary)
      → All (λ v. P v.validator) vs
      → All IsNamed (group_validations vs)
  unfolding group_validations
  All-group_validations vs p =
      All-sort (λ g. status_order g.status) (groups_of (count_all [] vs)) (All-count_all [] vs p tt)
