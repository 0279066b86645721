-- ===== src/Carousel/PidLinks/Found.antt =====
-- The matches that `matchAll` gives are those of the text: in order, apart, and without one missing.
use mathlib.Core.Path.{subst}
use marc_comparator.Base.{
  ℕ, zero, suc, ◌+◌, ◌≡◌, refl, ap, sym, ◌∙◌, Bool, true, false, List, [], ◌∷◌, ◌++◌, length, take,
  drop, ltb, Bool-cases, inl, inr, append-nil, arith,
}
use marc_comparator.Base.Text.{Text}
use marc_comparator.Carousel.PidLinks.{fits, match_all}

take-drop : (n : ℕ) (s : Text) → s ≡ take n s ++ drop n s
take-drop zero s = refl
take-drop (suc n) [] = refl
take-drop (suc n) (c ∷ cs) = ap (λ r. c ∷ r) (take-drop n cs)

pub take-length : (s t : Text) → take (length s) (s ++ t) ≡ s
take-length [] t = refl
take-length (c ∷ s) t = ap (λ r. c ∷ r) (take-length s t)

pub drop-length : (s t : Text) → drop (length s) (s ++ t) ≡ t
drop-length [] t = refl
drop-length (c ∷ s) t = drop-length s t

drop-nil : (n : ℕ) → drop {A = ℕ} n [] ≡ []
drop-nil zero = refl
drop-nil (suc n) = refl

pub drop-plus : (m n : ℕ) (s : Text) → drop (m + n) s ≡ drop n (drop m s)
drop-plus zero n s = let e : 0 + n ≡ n = omega arith in ap (λ m. drop m s) e
drop-plus (suc m) n [] = drop-nil (suc m + n) ∙ sym (drop-nil n)
drop-plus (suc m) n (c ∷ cs) =
    let e : suc m + n ≡ suc (m + n) = omega arith in ap (λ k. drop k (c ∷ cs)) e ∙ drop-plus m n cs

pub drop-all : (n : ℕ) (s : Text) → ltb n (length s) ≡ false → drop n s ≡ []
drop-all n [] h = drop-nil n
drop-all zero (c ∷ cs) h = ground (arith, h)
drop-all (suc n) (c ∷ cs) h = drop-all n cs (ground (arith, h))

fits-longer : (ps : List (ℕ → Bool)) (s rest : Text) → fits ps s ≡ true → fits ps (s ++ rest) ≡ true
unfolding fits
fits-longer [] s rest h = refl
fits-longer (p ∷ ps) [] rest h = ground (arith, h)
fits-longer (p ∷ ps) (c ∷ cs) rest h = ground (arith, h, fits-longer ps cs rest)

fits-shorter :
    (ps : List (ℕ → Bool)) (s rest : Text) → fits ps (s ++ rest) ≡ false → fits ps s ≡ false
fits-shorter ps s rest h = elim (Bool-cases (fits ps s)) [
  | inl hit ↦ ground (arith, h, fits-longer ps s rest hit)
  | inr miss ↦ miss
]

module _ (p : ℕ → Bool) (ps : List (ℕ → Bool)) where
  -- The pattern begins nowhere in `s`, which `rest` follows.
  abbrev pub IsFree : Text → Text → Type 0
  IsFree [] rest = Unit
  IsFree (c ∷ s) rest = (fits (p ∷ ps) (c ∷ (s ++ rest)) ≡ false) × IsFree s rest

  pub IsFree-alone : (s rest : Text) → IsFree s rest → IsFree s []
  IsFree-alone [] rest h = tt
  IsFree-alone (c ∷ s) rest h =
      let alone : fits (p ∷ ps) (c ∷ (s ++ [])) ≡ false =
        rw (append-nil s) (fits-shorter (p ∷ ps) (c ∷ s) rest h.0) in
      (alone, IsFree-alone s rest h.1)

  -- A match has a code unit for each test of the pattern, and no more.
  abbrev pub IsMatch : Text → Type 0
  IsMatch pid = (fits (p ∷ ps) pid ≡ true) × (length pid ≡ suc (length ps))

  -- The matches are those of a text that begins at the index `n`, in their order, and the pattern
  -- begins nowhere between them.
  abbrev pub AreFound : ℕ → Text → List (ℕ × Text) → Type 0
  AreFound n s [] = IsFree s []
  AreFound n s ((at, pid) ∷ matches) =
      (before : Text) × ((after : Text) × ((s ≡ before ++ (pid ++ after))
          × ((at ≡ n + length before)
              × (IsMatch pid
                  × (IsFree before (pid ++ after) × AreFound (at + length pid) after matches)))))

  AreFound-later :
      (n c : ℕ) (s : Text) (matches : List (ℕ × Text))
      → fits (p ∷ ps) (c ∷ s) ≡ false
      → AreFound (suc n) s matches
      → AreFound n (c ∷ s) matches
  AreFound-later n c s [] miss h = (rw (append-nil s) miss, h)
  AreFound-later n c s ((at, pid) ∷ matches) miss
        (before, (after, (e, (place, (fit, (free, more)))))) =
      let missed : fits (p ∷ ps) (c ∷ (before ++ (pid ++ after))) ≡ false =
        subst (λ r. fits (p ∷ ps) (c ∷ r) ≡ false) e miss in
      (
        c ∷ before,
        (after, (ap (λ r. c ∷ r) e, (omega (arith, place), (fit, ((missed, free), more))))),
      )

length-take-fits :
    (ps : List (ℕ → Bool)) (s : Text) → fits ps s ≡ true → length (take (length ps) s) ≡ length ps
unfolding fits
length-take-fits [] s h = refl
length-take-fits (p ∷ ps) [] h = ground (arith, h)
length-take-fits (p ∷ ps) (c ∷ cs) h = ap suc (length-take-fits ps cs (ground (arith, h)))

fits-take :
    (ps : List (ℕ → Bool)) (s : Text) → fits ps s ≡ true → fits ps (take (length ps) s) ≡ true
unfolding fits
fits-take [] s h = refl
fits-take (p ∷ ps) [] h = h
fits-take (p ∷ ps) (c ∷ cs) h = ground (arith, h, fits-take ps cs (ground (arith, h)))

module _ (p : ℕ → Bool) (ps : List (ℕ → Bool)) where
  pub match_all-AreFound :
      (k n : ℕ) (s : Text) → AreFound p ps (n + k) (drop k s) (match_all p ps k n s)
  unfolding match_all
  match_all-AreFound zero n [] = tt
  match_all-AreFound (suc k) n [] = tt
  match_all-AreFound (suc k) n (c ∷ cs) =
      let step : n + suc k ≡ suc n + k = omega arith in rw step (match_all-AreFound k (suc n) cs)
  match_all-AreFound zero n (c ∷ cs) = elim (Bool-cases (fits (p ∷ ps) (c ∷ cs))) [
    | inl hit ↦
        let pid : Text = take (suc (length ps)) (c ∷ cs) in
        let long : length pid ≡ suc (length ps) = length-take-fits (p ∷ ps) (c ∷ cs) hit in
        let next : n + length pid ≡ suc n + length ps = omega (arith, long) in
        let there = match_all-AreFound (length ps) (suc n) cs in
        rw hit (
          [],
          (
            drop (length ps) cs,
            (
              take-drop (suc (length ps)) (c ∷ cs),
              (omega arith, ((fits-take (p ∷ ps) (c ∷ cs) hit, long), (tt, rw next there))),
            ),
          ),
        )
    | inr miss ↦
        let same : n + 0 ≡ n = omega arith in
        let later : suc n + 0 ≡ suc n = omega arith in
        rw (miss, same)
          (AreFound-later p ps n c cs _ miss (
            subst (λ m. AreFound p ps m cs (match_all p ps 0 (suc n) cs)) later
              (match_all-AreFound zero (suc n) cs)))
  ]
