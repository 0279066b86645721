-- ===== src/Carousel/Key.antt =====
-- `parseViewKey` and `buildAuthorityKey` of client/src/features/records/carousel/carousel-view.tsx.
use mathlib.Core.Path.{subst}
use marc_comparator.Base.{
  ℕ, suc, ◌+◌, ◌≡◌, refl, true, none, some, [], ◌∷◌, ◌++◌, arith, length, drop, if◌then◌else◌,
  nat_eqb, Option-cases, inl, inr, or_else, Bool-cases,
}
use marc_comparator.Base.Text.{Text, lit, starts_with, split_at, init}

pub data ViewOption : Type 0 where
  marc : ViewOption
  authority : (base system_number : Text) → ViewOption
  comparison : (comparator other_record_id : Text) → ViewOption
  validation : (validator_name : Text) → ViewOption

-- `rest.slice(0, sepIdx)` and `rest.slice(sepIdx + 1)` at the first colon. Where there is none,
-- `sepIdx` is -1, and the slices are all but the last unit, and the whole.
unfoldable pub parse_pair : Text → Text × Text
parse_pair rest = or_else (split_at b':' rest) (init rest, rest)

unfoldable pub parse_view_key : Text → ViewOption
unfolding parse_pair
parse_view_key key =
    let (first, second) = parse_pair (drop 5 key) in
    if starts_with key (lit "auth:")
    then authority first second
    else if starts_with key (lit "comp:")
    then comparison first second
    else if starts_with key (lit "val:")
    then validation (drop 4 key)
    else marc

unfoldable pub build_authority_key : Text → Text → Text
build_authority_key base authority_record_id =
    let system_number =
      if starts_with authority_record_id (base ++ lit "-")
      then drop (length base + 1) authority_record_id
      else authority_record_id in
    lit "auth:" ++ (base ++ (lit ":" ++ system_number))

-- The key of a comparison, as the effect and the options of the view write it.
unfoldable pub build_comparison_key : Text → Text → Text
build_comparison_key comparator other_record_id =
    lit "comp:" ++ (comparator ++ (lit ":" ++ other_record_id))

unfoldable pub build_validation_key : Text → Text
build_validation_key name = lit "val:" ++ name

-- The text holds no colon.
abbrev pub NoColon : Text → Type 0
NoColon s = split_at b':' s ≡ none

split_at-append : (s t : Text) → NoColon s → split_at b':' (s ++ (b':' ∷ t)) ≡ some (s, t)
unfolding split_at
split_at-append [] t h = refl
split_at-append (c ∷ s) t h = elim (Option-cases (split_at b':' s)) [
  | inl free ↦ ground (arith, split_at-append s t free)
  | inr (p, found) ↦ absurd (ground arith)
]

starts_with-append_cons : (p s : Text) (c : ℕ) → starts_with (p ++ (c ∷ s)) (p ++ c ∷ []) ≡ true
unfolding starts_with
starts_with-append_cons [] s c = ground arith
starts_with-append_cons (d ∷ p) s c = ground (arith, starts_with-append_cons p s c)

drop-append_cons : (p s : Text) (c : ℕ) → drop (length p + 1) (p ++ (c ∷ s)) ≡ s
drop-append_cons [] s c = refl
drop-append_cons (d ∷ p) s c =
    let next : suc (length p) + 1 ≡ suc (length p + 1) = omega arith in
    rw next (drop-append_cons p s c)

-- The key of a link to an authority record whose identifier is made of a base without a colon and a
-- system number reads back as that base and number.
pub parse_view_key-build_authority_key :
    (base system_number : Text)
    → NoColon base
    → parse_view_key (build_authority_key base (base ++ (lit "-" ++ system_number)))
      ≡ authority base system_number
unfolding parse_view_key build_authority_key starts_with
parse_view_key-build_authority_key base system_number h = rw (
  starts_with-append_cons base system_number b'-',
  drop-append_cons base system_number b'-',
  split_at-append base system_number h,
)

-- So does the key of a comparison by a comparator whose name has no colon.
pub parse_view_key-build_comparison_key :
    (comparator other : Text)
    → NoColon comparator
    → parse_view_key (build_comparison_key comparator other) ≡ comparison comparator other
unfolding parse_view_key build_comparison_key starts_with
parse_view_key-build_comparison_key comparator other h = rw (split_at-append comparator other h)

split_at-NoColon : (s a b : Text) → split_at b':' s ≡ some (a, b) → NoColon a
unfolding split_at
split_at-NoColon [] a b h = absurd (ground arith)
split_at-NoColon (c ∷ s) a b h = elim (Bool-cases (nat_eqb c b':')) [
  | inl here ↦ let empty : [] ≡ a = ground arith in subst NoColon empty refl
  | inr later ↦ elim (Option-cases (split_at b':' s)) [
    | inl free ↦ absurd (ground arith)
    | inr ((before, after), found) ↦
        let same : c ∷ before ≡ a = ground arith in
        let tail : NoColon before = split_at-NoColon s before after found in
        subst NoColon same (ground arith)
  ]
]

init-NoColon : (s : Text) → NoColon s → NoColon (init s)
unfolding split_at init
init-NoColon [] h = refl
init-NoColon (c ∷ []) h = refl
init-NoColon (c ∷ d ∷ s) h = elim (Option-cases (split_at b':' (d ∷ s))) [
  | inl free ↦ ground (arith, init-NoColon (d ∷ s) free)
  | inr (p, found) ↦ absurd (ground arith)
]

parse_pair-NoColon : (rest : Text) → NoColon (parse_pair rest).0
unfolding parse_pair
parse_pair-NoColon rest = elim (Option-cases (split_at b':' rest)) [
  | inl free ↦ rw free (init-NoColon rest free)
  | inr ((a, b), found) ↦ rw found (split_at-NoColon rest a b found)
]

-- Whatever the key, the comparator that is read from it has no colon.
pub parse_view_key-NoColon : (key c o : Text) → parse_view_key key ≡ comparison c o → NoColon c
unfolding parse_view_key
parse_view_key-NoColon key c o h =
    let same : (parse_pair (drop 5 key)).0 ≡ c = ground arith in
    subst NoColon same (parse_pair-NoColon (drop 5 key))
