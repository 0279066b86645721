-- ===== src/Summaries/Counts.antt =====
-- No validation is lost when they are put together, and the groups come in the order of statuses.
use marc_comparator.Base.{
  ℕ, suc, ◌+◌, ◌≡◌, refl, ap, ◌∙◌, Bool, true, List, [], ◌∷◌, map, length, ◌==◌, leb, arith,
  Bool-cases, inl, inr, All, All-weaken,
}
use marc_comparator.Base.Text.{Text, text_eq}
use marc_comparator.Base.Sort.{sort, insert_sorted, IsSorted}
use marc_comparator.Records.{ValidationSummary}
use marc_comparator.Summaries.{
  Group, status_order, group_key, count_in, count_all, group_validations,
}

-- The number of validations in groups.
unfoldable pub total : List Group → ℕ
total [] = 0
total (g ∷ gs) = g.count + total gs

abbrev pub groups_of : List (Text × Group) → List Group
groups_of es = map (λ e. e.1) es

total-count_in :
    (groups : List (Text × Group)) (v : ValidationSummary)
    → total (groups_of (count_in groups v)) ≡ suc (total (groups_of groups))
unfolding count_in total
total-count_in [] v = refl
total-count_in ((key, g) ∷ rest) v = elim (Bool-cases (key == group_key v)) [
  | inl e ↦ rw e (omega arith)
  | inr e ↦ rw e (omega (arith, total-count_in rest v))
]

total-count_all :
    (groups : List (Text × Group)) (vs : List ValidationSummary)
    → total (groups_of (count_all groups vs)) ≡ total (groups_of groups) + length vs
unfolding count_all
total-count_all groups [] = omega arith
total-count_all groups (v ∷ vs) =
    omega (arith, total-count_all (count_in groups v) vs, total-count_in groups v)

total-count_all-new :
    (vs : List ValidationSummary) → total (groups_of (count_all [] vs)) ≡ length vs
unfolding total
total-count_all-new vs = omega (arith, total-count_all [] vs)

total-insert_sorted :
    (le : Group → Group → Bool) (g : Group) (gs : List Group)
    → total (insert_sorted le g gs) ≡ total (g ∷ gs)
unfolding insert_sorted total
total-insert_sorted le g [] = refl
total-insert_sorted le g (h ∷ hs) = elim (Bool-cases (le g h)) [
  | inl e ↦ rw e refl
  | inr e ↦ rw e (omega (arith, total-insert_sorted le g hs))
]

total-sort : (le : Group → Group → Bool) (gs : List Group) → total (sort le gs) ≡ total gs
unfolding sort total
total-sort le [] = refl
total-sort le (g ∷ gs) =
    total-insert_sorted le g (sort le gs) ∙ ap (λ n. g.count + n) (total-sort le gs)

-- Groups in the order of a rank.
module _ (rank : Group → ℕ) where
  abbrev pub before : Group → Group → Bool
  before a b = leb (rank a) (rank b)

  pub All-insert_sorted :
      (P : Group → Type 0) (g : Group) (gs : List Group)
      → P g
      → All P gs
      → All P (insert_sorted before g gs)
  unfolding insert_sorted
  All-insert_sorted P g [] p h = (p, tt)
  All-insert_sorted P g (x ∷ xs) p h = elim (Bool-cases (before g x)) [
    | inl e ↦ rw e (p, h)
    | inr e ↦ rw e (h.0, All-insert_sorted P g xs p h.1)
  ]

  insert_sorted-IsSorted :
      (g : Group) (gs : List Group)
      → IsSorted before gs
      → IsSorted before (insert_sorted before g gs)
  unfolding insert_sorted
  insert_sorted-IsSorted g [] h = (tt, tt)
  insert_sorted-IsSorted g (x ∷ xs) h = elim (Bool-cases (before g x)) [
    | inl e ↦ rw e ((e, All-weaken xs (λ y k. ground (arith, e, k)) h.0), h)
    | inr e ↦ rw e (
      All-insert_sorted (λ y. before x y ≡ true) g xs (ground (arith, e)) h.0,
      insert_sorted-IsSorted g xs h.1,
    )
  ]

  sort-IsSorted : (gs : List Group) → IsSorted before (sort before gs)
  unfolding sort
  sort-IsSorted [] = tt
  sort-IsSorted (g ∷ gs) = insert_sorted-IsSorted g (sort before gs) (sort-IsSorted gs)

-- The counts of the groups of a record's validations sum to the number of the validations, and the
-- groups come in the order of their statuses, from valid to unknown ones.
pub group_validations_lem :
    (vs : List ValidationSummary)
    → (total (group_validations vs) ≡ length vs)
      × IsSorted (λ a b. leb (status_order a.status) (status_order b.status)) (group_validations vs)
unfolding group_validations
group_validations_lem vs = (
  total-sort _ (groups_of (count_all [] vs)) ∙ total-count_all-new vs,
  sort-IsSorted (λ g. status_order g.status) (groups_of (count_all [] vs)),
)
