-- ===== src/Carousel/PidLinks/Contents.antt =====
-- What the parts of `renderTextWithPidLinks` say: the text, and links for identifiers alone.

use marc_comparator.Base.{
  ℕ, ◌+◌, ◌-◌, ◌≡◌, refl, ap, sym, ◌∙◌, Bool, true, false, some, List, [], ◌∷◌, ◌++◌, length, take,
  drop, if◌then◌else◌, ltb, Bool-cases, inl, inr, append-nil, append_assoc, All, arith,
}
use marc_comparator.Base.Text.{Text, lit, truthy}
use marc_comparator.Carousel.PidLinks.{
  pid_first, pid_rest, replace_first, Part, plain, link, contents, parts_from,
  render_text_with_pid_links,
}
use marc_comparator.Carousel.PidLinks.Found.{
  AreFound, IsFree, IsMatch, IsFree-alone, match_all-AreFound, take-length, drop-length, drop-plus,
  drop-all,
}

contents-append : (xs ys : List Part) → contents (xs ++ ys) ≡ contents xs ++ contents ys
unfolding contents
contents-append [] ys = refl
contents-append (plain s ∷ xs) ys =
    ap (λ r. s ++ r) (contents-append xs ys) ∙ sym (append_assoc s (contents xs) (contents ys))
contents-append (link pid url ∷ xs) ys =
    ap (λ r. pid ++ r) (contents-append xs ys) ∙ sym (append_assoc pid (contents xs) (contents ys))

-- What stands before a match, in the text that begins at the index `n`.
take-between :
    (n at : ℕ) (before rest : Text)
    → at ≡ n + length before
    → take (at - n) (before ++ rest) ≡ before
take-between n at before rest h =
    let long : at - n ≡ length before = omega (arith, h) in
    ap (λ m. take m (before ++ rest)) long ∙ take-length before rest

-- It is a part where it is not empty.
contents-between :
    (n at : ℕ) (before : Text)
    → at ≡ n + length before
    → contents (if ltb n at then plain before ∷ [] else []) ≡ before
unfolding contents
contents-between n at [] h =
    let none_between : ltb n at ≡ false = ground (arith, h) in rw none_between refl
contents-between n at (c ∷ cs) h =
    let some_between : ltb n at ≡ true = ground (arith, h) in rw some_between (append-nil (c ∷ cs))

-- A part without a link has no place where the pattern fits; a link is to a match of the pattern, at
-- the address with this put in.
abbrev pub IsPart : (ℕ → Bool) → List (ℕ → Bool) → Text → Part → Type 0
IsPart p ps url (plain s) = IsFree p ps s []
IsPart p ps url (link pid href) = IsMatch p ps pid × (href ≡ replace_first (lit "{pid}") pid url)

drop-after :
    (text : Text) (n at : ℕ) (before pid after : Text)
    → drop n text ≡ before ++ (pid ++ after)
    → at ≡ n + length before
    → drop (at + length pid) text ≡ after
drop-after text n at before pid after here place =
    let far : at + length pid ≡ n + (length before + length pid) = omega (arith, place) in
    ap (λ m. drop m text) far
    ∙ drop-plus n (length before + length pid) text
    ∙ ap (λ r. drop (length before + length pid) r) here
    ∙ drop-plus (length before) (length pid) (before ++ (pid ++ after))
    ∙ ap (λ r. drop (length pid) r) (drop-length before (pid ++ after))
    ∙ drop-length pid after

module _ (p : ℕ → Bool) (ps : List (ℕ → Bool)) (url text : Text) where
  contents-parts_from :
      (n : ℕ) (s : Text) (matches : List (ℕ × Text))
      → AreFound p ps n s matches
      → drop n text ≡ s
      → contents (parts_from url text n matches) ≡ s
  unfolding parts_from contents
  contents-parts_from n s [] h e = elim (Bool-cases (ltb n (length text))) [
    | inl more ↦ rw more (append-nil (drop n text) ∙ e)
    | inr done ↦ rw done (sym (drop-all n text done) ∙ e)
  ]
  contents-parts_from n s ((at, pid) ∷ matches)
        (before, (after, (split, (place, (fit, (free, more)))))) e =
      let here : drop n text ≡ before ++ (pid ++ after) = e ∙ split in
      let there = drop-after text n at before pid after here place in
      let gap = take-between n at before (pid ++ after) place in
      let between = contents-between n at before place in
      let later = contents-parts_from (at + length pid) after matches more there in
      contents-append (if ltb n at then plain (take (at - n) (drop n text)) ∷ [] else []) (
        link pid (replace_first (lit "{pid}") pid url)
        ∷ parts_from url text (at + length pid) matches)
      ∙ rw (here, gap, between, later) (sym split)

  parts_from-IsPart :
      (n : ℕ) (s : Text) (matches : List (ℕ × Text))
      → AreFound p ps n s matches
      → drop n text ≡ s
      → All (IsPart p ps url) (parts_from url text n matches)
  unfolding parts_from
  parts_from-IsPart n s [] h e = elim (Bool-cases (ltb n (length text))) [
    | inl more ↦ rw (more, e) (h, tt)
    | inr done ↦ rw done tt
  ]
  parts_from-IsPart n s ((at, pid) ∷ matches)
        (before, (after, (split, (place, (fit, (free, more)))))) e =
      let here : drop n text ≡ before ++ (pid ++ after) = e ∙ split in
      let there = drop-after text n at before pid after here place in
      let gap = take-between n at before (pid ++ after) place in
      let later = parts_from-IsPart (at + length pid) after matches more there in
      elim (Bool-cases (ltb n at)) [
        | inl apart ↦
            rw (apart, here, gap)
              (IsFree-alone p ps before (pid ++ after) free, ((fit, refl), later))
        | inr joined ↦ rw joined ((fit, refl), later)
      ]

-- Where there is an address, the parts that are shown for a text say the whole text, in its order;
-- each link shows an identifier, exactly as long as the pattern, and leads to the address with this identifier put in;
-- and no identifier stands in a part without a link.
pub contents-render_text_with_pid_links :
    (text url : Text)
    → truthy url ≡ true
    → (contents (render_text_with_pid_links text (some url)) ≡ text)
      × All (IsPart pid_first pid_rest url) (render_text_with_pid_links text (some url))
unfolding render_text_with_pid_links
contents-render_text_with_pid_links text url h =
    let found = match_all-AreFound pid_first pid_rest 0 0 text in
    rw h (
      contents-parts_from pid_first pid_rest url text 0 text _ found refl,
      parts_from-IsPart pid_first pid_rest url text 0 text _ found refl,
    )
