-- ===== src/Carousel/PidLinks.antt =====
-- `PID_REGEX` and `renderTextWithPidLinks` of
-- client/src/features/records/carousel/marc-table.tsx: the links to a digital library in the details
-- of a validation. An element of the result is a part: a text, or a link. Where there is no address
-- the source returns the text itself; here it is the only part. The pattern has a fixed length, so
-- that a match is a test of the code units at a place.
pub mod Found
pub mod Contents
use marc_comparator.Base.{
  ℕ, zero, suc, ◌+◌, ◌-◌, ◌≤◌, ◌≡◌, refl, ap, sym, ◌∙◌, Bool, true, false, ◌&&◌, ◌||◌, Option, none,
  some, List, [], ◌∷◌, ◌++◌, map, length, take, drop, if◌then◌else◌, nat_eqb, leb, ltb, Bool-cases,
  inl, inr, append-nil, append_assoc, length-append, All, arith,
}
use marc_comparator.Base.Text.{Text, lit, truthy, starts_with}

-- A test for each of the code units of a match.
unfoldable pub fits : List (ℕ → Bool) → Text → Bool
fits [] s = true
fits (p ∷ ps) [] = false
fits (p ∷ ps) (c ∷ cs) = p c && fits ps cs

-- `[0-9a-fA-F]`.
unfoldable pub is_hex : ℕ → Bool
is_hex c = (leb b'0' c && leb c b'9') || ((leb b'a' c && leb c b'f') || (leb b'A' c && leb c b'F'))

-- `[0-9a-fA-F]{n}`, before what follows.
abbrev hexes : ℕ → List (ℕ → Bool) → List (ℕ → Bool)
hexes zero rest = rest
hexes (suc n) rest = is_hex ∷ hexes n rest

abbrev dash : ℕ → Bool
dash c = nat_eqb c b'-'

-- The pattern after its first code unit, which is a `u`.
abbrev pub pid_rest : List (ℕ → Bool)
pid_rest =
    map (λ x c. nat_eqb c x) (lit "uid:")
    ++ hexes 8 (dash ∷ hexes 4 (dash ∷ hexes 4 (dash ∷ hexes 4 (dash ∷ hexes 12 []))))

abbrev pub pid_first : ℕ → Bool
pid_first c = nat_eqb c b'u'

-- `s.replace(needle, replacement)`: the first occurrence alone.
unfoldable pub replace_first : Text → Text → Text → Text
replace_first needle replacement [] = []
replace_first needle replacement (c ∷ cs) =
    let rest = replace_first needle replacement cs in
    if starts_with (c ∷ cs) needle then replacement ++ drop (length needle) (c ∷ cs) else c ∷ rest

pub data Part : Type 0 where
  plain : Text → Part
  link : Text → Text → Part

-- What is read, part after part.
unfoldable pub contents : List Part → Text
contents [] = []
contents (plain s ∷ parts) = s ++ contents parts
contents (link pid url ∷ parts) = pid ++ contents parts

module _ (p : ℕ → Bool) (ps : List (ℕ → Bool)) where
  -- `matchAll` with the flag `g`: each match with its index. The search goes on after a match, so
  -- that the code units of the match are skipped.
  unfoldable pub match_all : ℕ → ℕ → Text → List (ℕ × Text)
  unfolding fits
  match_all skip at [] = []
  match_all (suc k) at (c ∷ cs) = match_all k (suc at) cs
  match_all zero at (c ∷ cs) =
      let hit = fits (p ∷ ps) (c ∷ cs) in
      let rest = match_all (if hit then length ps else 0) (suc at) cs in
      if hit then (at, take (suc (length ps)) (c ∷ cs)) ∷ rest else rest

-- The loop over the matches, and the text after the last of them.
unfoldable pub parts_from : Text → Text → ℕ → List (ℕ × Text) → List Part
unfolding replace_first
parts_from url text last_index [] =
    if ltb last_index (length text) then plain (drop last_index text) ∷ [] else []
parts_from url text last_index ((at, pid) ∷ matches) =
    (if ltb last_index at then plain (take (at - last_index) (drop last_index text)) ∷ [] else [])
    ++ (link pid (replace_first (lit "{pid}") pid url)
        ∷ parts_from url text (at + length pid) matches)

unfoldable pub render_text_with_pid_links : Text → Option Text → List Part
unfolding parts_from match_all
render_text_with_pid_links text none = plain text ∷ []
render_text_with_pid_links text (some url) =
    if truthy url
    then parts_from url text 0 (match_all pid_first pid_rest 0 0 text)
    else plain text ∷ []
