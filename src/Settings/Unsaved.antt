-- ===== src/Settings/Unsaved.antt =====
-- Unsaved edits are not lost without the answer of the user, and what is sent goes to the endpoint
-- of the scope that the form is of.
use mathlib.Core.Bool.{false≢true}
use mathlib.Core.Path.{subst}
use mathlib.Core.Option.{some_inj, none-ne-some}
use marc_comparator.Base.{
  ◌≡◌, refl, sym, ap, ◌∙◌, Bool, true, false, not, ◌||◌, Option, none, some, List, [], ◌∷◌,
  if_cases, if_keeps, Bool-cases, inl, inr,
}
use marc_comparator.Base.Text.{Text}
use marc_comparator.Settings.{
  SettingsScope, settings_endpoint, FormLib, Shown, Page, Post, post_parsed, first_page, Event,
  loaded, edited, scope_selected, discard_confirmed, dialog_closed, discard_clicked, save_clicked,
  form_submitted, saved, set_active_scope, handle_scope_change, discard_and_switch,
  handle_discard_and_switch, change, submit, sent, step, run, is_same_scope, on_loaded, on_edited,
  on_reset,
}

module _ {F D V : Type 0} (lib : FormLib F D V) where
  abbrev shown_dirty : Option (Shown F D) → Bool
  shown_dirty none = false
  shown_dirty (some s) = lib.is_dirty s.form

  abbrev IsOf : SettingsScope → Option (Shown F D) → Type 0
  IsOf scope none = Unit
  IsOf scope (some s) = s.of_scope ≡ scope

  -- The page knows whether its form is dirty, and the form is of the scope that is selected.
  unfoldable IsSynced : Page F D → Type 0
  IsSynced p = (p.is_page_dirty ≡ shown_dirty p.shown) × IsOf p.active_scope p.shown

  is_of : (p : Page F D) → IsSynced p → IsOf p.active_scope p.shown
  unfolding IsSynced
  is_of p h = h.1

  IsSynced-loaded :
      (d : D) (p : Page F D) (o : Option (Shown F D))
      → IsOf p.active_scope o
      → IsSynced (on_loaded lib d p o)
  unfolding IsSynced
  IsSynced-loaded d p none h = (refl, refl)
  IsSynced-loaded d p (some s) h = (refl, h)

  IsSynced-edited :
      (k : Text) (v : V) (p : Page F D) (o : Option (Shown F D))
      → p.shown ≡ o
      → IsSynced p
      → IsSynced (on_edited lib k v p o)
  unfolding IsSynced
  IsSynced-edited k v p none e h = h
  IsSynced-edited k v p (some s) e h = (refl, subst (IsOf p.active_scope) e h.1)

  IsSynced-reset :
      (p : Page F D) (o : Option (Shown F D))
      → p.shown ≡ o
      → IsSynced p
      → IsSynced (on_reset lib p o)
  unfolding IsSynced
  IsSynced-reset p none e h = (sym (ap shown_dirty e), h.1)
  IsSynced-reset p (some s) e h =
      (sym (lib.is_dirty-reset s.defaults s.form), subst (IsOf p.active_scope) e h.1)

  -- Nothing is dirty after a reset.
  reset_clean : (p : Page F D) (o : Option (Shown F D)) → (on_reset lib p o).is_page_dirty ≡ false
  reset_clean p none = refl
  reset_clean p (some s) = refl

  IsSynced-switch :
      (scope : SettingsScope) (p : Page F D)
      → p.is_page_dirty ≡ false
      → IsSynced p
      → IsSynced (set_active_scope lib scope p)
  unfolding set_active_scope IsSynced
  IsSynced-switch scope p clean h = elim (Bool-cases (is_same_scope scope p.active_scope)) [
    | inl e ↦ rw e h
    | inr e ↦ rw e (clean, tt)
  ]

  IsSynced-pending :
      (o : Option SettingsScope) (p : Page F D)
      → IsSynced p
      → IsSynced (record p { pending_scope = o })
  unfolding IsSynced
  IsSynced-pending o p h = h

  IsSynced-saving : (b : Bool) (p : Page F D) → IsSynced p → IsSynced (record p { is_saving = b })
  unfolding IsSynced
  IsSynced-saving b p h = h

  IsSynced-discard :
      (p : Page F D) (o : Option SettingsScope) → IsSynced p → IsSynced (discard_and_switch lib p o)
  unfolding discard_and_switch
  IsSynced-discard p none h = h
  IsSynced-discard p (some scope) h =
      let kept = IsSynced-reset p p.shown refl h in
      IsSynced-pending none (set_active_scope lib scope (on_reset lib p p.shown))
        (IsSynced-switch scope (on_reset lib p p.shown) (reset_clean p p.shown) kept)

  IsSynced-change : (ev : Event D V) (p : Page F D) → IsSynced p → IsSynced (change lib ev p)
  unfolding change handle_scope_change handle_discard_and_switch
  IsSynced-change (loaded d) p h = IsSynced-loaded d p p.shown (is_of p h)
  IsSynced-change (edited k v) p h = IsSynced-edited k v p p.shown refl h
  IsSynced-change (scope_selected scope) p h =
      if_cases IsSynced p.is_page_dirty (record p { pending_scope = some scope })
        (set_active_scope lib scope p) (λ e. IsSynced-pending (some scope) p h)
        (λ e. IsSynced-switch scope p e h)
  IsSynced-change discard_confirmed p h = IsSynced-discard p p.pending_scope h
  IsSynced-change dialog_closed p h = IsSynced-pending none p h
  IsSynced-change discard_clicked p h =
      if_keeps IsSynced p.is_page_dirty (on_reset lib p p.shown) p
        (λ e. IsSynced-reset p p.shown refl h) h
  IsSynced-change save_clicked p h = h
  IsSynced-change form_submitted p h = h
  IsSynced-change saved p h = IsSynced-saving false p h

  IsSynced-run :
      (schema : SettingsScope → D → Option D) (evs : List (Event D V)) (p : Page F D)
      → IsSynced p
      → IsSynced (run lib schema evs p)
  unfolding run step
  IsSynced-run schema [] p h = h
  IsSynced-run schema (ev ∷ evs) p h =
      IsSynced-run schema evs (step lib schema ev p)
        (IsSynced-saving _ (change lib ev p) (IsSynced-change ev p h))

  -- The text of a field in the form that is shown, and whether it was edited.
  abbrev pub value_of : Option (Shown F D) → Text → Option V
  value_of none k = none
  value_of (some s) k = some (lib.field s.form k)

  abbrev pub edited_of : Option (Shown F D) → Text → Bool
  edited_of none k = false
  edited_of (some s) k = lib.is_field_dirty s.form k

  -- The user edits, or throws edits away.
  abbrev pub may_lose : Event D V → Bool
  may_lose (edited k v) = true
  may_lose discard_confirmed = true
  may_lose discard_clicked = true
  may_lose _ = false

  dirty_of_edited :
      (o : Option (Shown F D)) (k : Text) → edited_of o k ≡ true → shown_dirty o ≡ true
  dirty_of_edited none k e = absurd (false≢true e)
  dirty_of_edited (some s) k e = lib.is_dirty-field s.form k e

  value_of-loaded :
      (d : D) (p : Page F D) (o : Option (Shown F D)) (k : Text)
      → edited_of o k ≡ true
      → value_of (on_loaded lib d p o).shown k ≡ value_of o k
  value_of-loaded d p none k e = absurd (false≢true e)
  value_of-loaded d p (some s) k e = ap some (lib.field-refresh d s.form k e)

  value_of-change :
      (ev : Event D V) (p : Page F D) (k : Text)
      → IsSynced p
      → edited_of p.shown k ≡ true
      → may_lose ev ≡ false
      → value_of (change lib ev p).shown k ≡ value_of p.shown k
  unfolding change handle_scope_change IsSynced
  value_of-change (loaded d) p k h e m = value_of-loaded d p p.shown k e
  value_of-change (scope_selected scope) p k h e m = rw (h.0 ∙ dirty_of_edited p.shown k e) refl
  value_of-change dialog_closed p k h e m = refl
  value_of-change save_clicked p k h e m = refl
  value_of-change form_submitted p k h e m = refl
  value_of-change saved p k h e m = refl
  value_of-change (edited j v) p k h e m = absurd (false≢true (sym m))
  value_of-change discard_confirmed p k h e m = absurd (false≢true (sym m))
  value_of-change discard_clicked p k h e m = absurd (false≢true (sym m))

  IsSynced-first : IsSynced first_page
  unfolding IsSynced
  IsSynced-first = (refl, tt)

-- After any events, for every library of forms that does what `FormLib` says: a field that was edited
-- keeps its value in the form that is shown, unless the user edits the form, presses the button that
-- discards, or confirms that the edits be thrown away. Selecting another scope, settings that come
-- again from the server, and saving do not lose it.
pub value_of-step :
    {F D V : Type 0} (lib : FormLib F D V) (schema : SettingsScope → D → Option D)
    (evs : List (Event D V)) (ev : Event D V) (k : Text)
    → edited_of lib (run lib schema evs first_page).shown k ≡ true
    → may_lose lib ev ≡ false
    → value_of lib (step lib schema ev (run lib schema evs first_page)).shown k
      ≡ value_of lib (run lib schema evs first_page).shown k
unfolding step
value_of-step lib schema evs ev k e m =
    value_of-change lib ev (run lib schema evs first_page) k
      (IsSynced-run lib schema evs first_page (IsSynced-first lib)) e m

endpoint-post_parsed :
    {D : Type 0} (endpoint : Text) (o : Option D) (post : Post D)
    → post_parsed endpoint o ≡ some post
    → post.endpoint ≡ endpoint
endpoint-post_parsed endpoint none post e = absurd (none-ne-some _ e)
endpoint-post_parsed endpoint (some d) post e = sym (ap (λ q. q.endpoint) (some_inj.0 e))

endpoint-submit :
    {F D V : Type 0} (lib : FormLib F D V) (parse : D → Option D) (p : Page F D)
    (o : Option (Shown F D)) (s : Shown F D) (post : Post D)
    → o ≡ some s
    → submit lib parse p o ≡ some post
    → post.endpoint ≡ settings_endpoint p.active_scope
endpoint-submit lib parse p none s post e sends = absurd (none-ne-some _ e)
endpoint-submit lib parse p (some t) s post e sends =
    endpoint-post_parsed (settings_endpoint p.active_scope) (parse (lib.data_of t.form)) post sends

endpoint-any_sent :
    {F D V : Type 0} (lib : FormLib F D V) (schema : SettingsScope → D → Option D) (ev : Event D V)
    (p : Page F D) (s : Shown F D) (post : Post D)
    → p.shown ≡ some s
    → sent lib schema ev p ≡ some post
    → post.endpoint ≡ settings_endpoint p.active_scope
unfolding sent
endpoint-any_sent lib schema save_clicked p s post here sends =
    elim (Bool-cases (not p.is_page_dirty || p.is_saving)) [
      | inl e ↦ absurd (none-ne-some _ (sym (rw e refl) ∙ sends))
      | inr e ↦
          endpoint-submit lib (schema p.active_scope) p p.shown s post here
            (sym (rw e refl) ∙ sends)
    ]
endpoint-any_sent lib schema form_submitted p s post here sends =
    endpoint-submit lib (schema p.active_scope) p p.shown s post here sends
endpoint-any_sent lib schema (loaded d) p s post here sends = absurd (none-ne-some _ sends)
endpoint-any_sent lib schema (edited k v) p s post here sends = absurd (none-ne-some _ sends)
endpoint-any_sent lib schema (scope_selected x) p s post here sends = absurd (none-ne-some _ sends)
endpoint-any_sent lib schema discard_confirmed p s post here sends = absurd (none-ne-some _ sends)
endpoint-any_sent lib schema dialog_closed p s post here sends = absurd (none-ne-some _ sends)
endpoint-any_sent lib schema discard_clicked p s post here sends = absurd (none-ne-some _ sends)
endpoint-any_sent lib schema saved p s post here sends = absurd (none-ne-some _ sends)

-- After any events, what is sent goes to the endpoint of the scope whose form is shown.
pub endpoint-sent :
    {F D V : Type 0} (lib : FormLib F D V) (schema : SettingsScope → D → Option D)
    (evs : List (Event D V)) (ev : Event D V) (s : Shown F D) (post : Post D)
    → (run lib schema evs first_page).shown ≡ some s
    → sent lib schema ev (run lib schema evs first_page) ≡ some post
    → post.endpoint ≡ settings_endpoint s.of_scope
endpoint-sent lib schema evs ev s post here sends =
    let p = run lib schema evs first_page in
    let synced = IsSynced-run lib schema evs first_page (IsSynced-first lib) in
    endpoint-any_sent lib schema ev p s post here sends
    ∙ ap settings_endpoint (sym (subst (IsOf lib p.active_scope) here (is_of lib p synced)))
