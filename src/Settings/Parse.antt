-- ===== src/Settings/Parse.antt =====
-- What the schema of the catalogue accepts, it accepts again unchanged.
use mathlib.Core.Option.{some_inj, none-ne-some}
use mathlib.Core.Path.{subst}
use marc_comparator.Base.{
  ◌≡◌, refl, Bool, true, false, not, Option, none, some, List, [], ◌∷◌, filter, is_empty,
  Bool-cases, inl, inr, ◌>>=◌,
}
use marc_comparator.Base.Text.{Text, truthy}
use marc_comparator.Settings.Schemas.{
  CatalogClient, CatalogSettings, clean_sets, is_catalog_client, accept, parse_client,
  parse_clients, parse_catalog,
}

clean_sets-clean_sets :
    (trim : Text → Text) (sets : List Text)
    → ((t : Text) → trim (trim t) ≡ trim t)
    → clean_sets trim (clean_sets trim sets) ≡ clean_sets trim sets
unfolding clean_sets filter
clean_sets-clean_sets trim [] again = refl
clean_sets-clean_sets trim (t ∷ sets) again = elim (Bool-cases (truthy (trim t))) [
  | inl e ↦ rw (e, again t, e, clean_sets-clean_sets trim sets again) refl
  | inr e ↦ rw (e, clean_sets-clean_sets trim sets again) refl
]

accept_lem : {A : Type 0} (b : Bool) (x y : A) → accept b x ≡ some y → (b ≡ true) × (x ≡ y)
accept_lem true x y e = (refl, some_inj.0 e)
accept_lem false x y e = absurd (none-ne-some _ e)

parse_client-again :
    {E : Type 0} (is_url : Text → Bool) (trim : Text → Text) (c d : CatalogClient E)
    → ((t : Text) → trim (trim t) ≡ trim t)
    → parse_client is_url trim c ≡ some d
    → parse_client is_url trim d ≡ some d
unfolding parse_client
parse_client-again is_url trim c d again e =
    let cleaned = record c { oai_sets = clean_sets trim c.oai_sets } in
    let found = accept_lem (is_catalog_client is_url cleaned) cleaned d e in
    subst (λ x. parse_client is_url trim x ≡ some x) found.1
      (rw (clean_sets-clean_sets trim c.oai_sets again, found.0) refl)

bind_lem :
    {A B : Type 0} (o : Option A) (f : A → Option B) (y : B)
    → (o >>= f) ≡ some y
    → (x : A) × (o ≡ some x) × (f x ≡ some y)
bind_lem none f y e = absurd (none-ne-some _ e)
bind_lem (some x) f y e = (x, refl, e)

parse_clients-again :
    {E : Type 0} (is_url : Text → Bool) (trim : Text → Text) (cs ds : List (CatalogClient E))
    → ((t : Text) → trim (trim t) ≡ trim t)
    → parse_clients is_url trim cs ≡ some ds
    → parse_clients is_url trim ds ≡ some ds
unfolding parse_clients
parse_clients-again is_url trim [] ds again e =
    subst (λ x. parse_clients is_url trim x ≡ some x) (some_inj.0 e) refl
parse_clients-again is_url trim (c ∷ cs) ds again e =
    let (d, first, e₁) = bind_lem (parse_client is_url trim c) _ ds e in
    let (rest, later, e₂) = bind_lem (parse_clients is_url trim cs) _ ds e₁ in
    subst (λ x. parse_clients is_url trim x ≡ some x) (some_inj.0 e₂)
      (rw
        (
          parse_client-again is_url trim c d again first,
          parse_clients-again is_url trim cs rest again later,
        )
        refl)

-- Where `trim` changes nothing that it has given: what the schema makes of the settings of the
-- catalogue is accepted by the schema and is left as it is, so that saved settings can be saved
-- again.
pub parse_catalog-again :
    {E : Type 0} (is_url : Text → Bool) (trim : Text → Text) (s r : CatalogSettings E)
    → ((t : Text) → trim (trim t) ≡ trim t)
    → parse_catalog is_url trim s ≡ some r
    → parse_catalog is_url trim r ≡ some r
unfolding parse_catalog
parse_catalog-again is_url trim s r again e =
    let (cs, parsed, e₁) = bind_lem (parse_clients is_url trim s.clients) _ r e in
    let found = accept_lem (not (is_empty cs)) _ r e₁ in
    subst (λ x. parse_catalog is_url trim x ≡ some x) found.1
      (rw (parse_clients-again is_url trim s.clients cs again parsed, found.0) refl)
