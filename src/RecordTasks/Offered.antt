-- ===== src/RecordTasks/Offered.antt =====
-- What is sent was offered: the invariant of the chosen sets, and the requests of every run.
use mathlib.Core.Bool.{false≢true}
use marc_comparator.Base.{
  ◌≡◌, refl, sym, ◌∙◌, Bool, true, false, not, ◌&&◌, ◌||◌, Option, none, some, List, [], ◌∷◌,
  filter, any, is_empty, ◌==◌, eq_iff, eq_refl, arith, Bool-cases, inl, inr, if_keeps, All,
  All-append, All-map,
}
use marc_comparator.Base.Text.{Text, text_eq, truthy}
use marc_comparator.Base.Sets.{
  includes, add, IsDistinct, includes-add, includes-delete, IsDistinct-concat, IsDistinct-delete,
  All-of_includes,
}
use marc_comparator.RecordTasks.{
  Linker, SystemInfo, DialogAction, link_authorities, compare, validate, State, initial, Request,
  post_link, post_compare, post_validate, is_busy, only, only_base, only_linker, available_bases,
  compatible, preselected, open_compare, open_link_authorities, open_validate, base_text,
  confirm_compare, confirm_link_authorities, confirm_validate, confirm, checked_set, choose_base,
  is_linker_enabled, Event, menu_item, base_chosen, linker_checked, base_checked, validator_checked,
  confirmed, closed, settled, open_dialog, settle, change, step, run,
}

-- A list without repetition, all of whose elements pass a test.
abbrev pub IsPart : (Text → Bool) → List Text → Type 0
IsPart offered xs = ((b : Text) → includes xs b ≡ true → offered b ≡ true) × IsDistinct xs

-- What a request may contain. The linkers of a request, and there is one, target its base.
abbrev pub IsOffered : SystemInfo → Request → Type 0
IsOffered info (post_link linkers base) =
    (is_empty linkers ≡ false)
    × (truthy base ≡ true)
    × IsPart (is_linker_enabled info (some base)) linkers
IsOffered info (post_compare base) = includes info.authority_bases base ≡ true
IsOffered info (post_validate validators) =
    (is_empty validators ≡ false) × IsPart (includes info.enabled_validators) validators

-- The invariant.
abbrev IsChosen : SystemInfo → State → Type 0
IsChosen info s =
    IsPart (is_linker_enabled info s.selected_base) s.selected_linkers
    × IsPart (includes info.authority_bases) s.selected_comparison_bases
    × IsPart (includes info.enabled_validators) s.selected_validators

IsPart-nil : (offered : Text → Bool) → IsPart offered []
unfolding includes
IsPart-nil offered = (λ b e. absurd (false≢true e), tt)

IsPart-single : (offered : Text → Bool) (x : Text) → offered x ≡ true → IsPart offered (x ∷ [])
unfolding includes
IsPart-single offered x h = (λ b e. rw (sym ((eq_iff x b).0 (ground (arith, e)))) h, (refl, tt))

IsPart-checked_set :
    (offered : Text → Bool) (xs : List Text) (x : Text) (checked : Bool)
    → offered x ≡ true
    → IsPart offered xs
    → IsPart offered (checked_set xs x checked)
unfolding add
IsPart-checked_set offered xs x true h part = (
  λ b e. elim (Bool-cases (x == b)) [
    | inl same ↦ rw (sym ((eq_iff x b).0 same)) h
    | inr other ↦ part.0 b (ground (arith, includes-add xs x b, e, other))
  ],
  elim (Bool-cases (includes xs x)) [
    | inl there ↦ rw there part.1
    | inr absent ↦ rw absent (IsDistinct-concat xs x part.1 absent)
  ],
)
IsPart-checked_set offered xs x false h part =
    (λ b e. part.0 b (ground (arith, includes-delete xs x b, e)), IsDistinct-delete xs x part.1)

IsPart-only : (xs : List Text) → IsPart (includes xs) (only xs)
unfolding includes
IsPart-only [] = IsPart-nil _
IsPart-only (x ∷ []) = IsPart-single _ x (ground (arith, eq_refl x))
IsPart-only (x ∷ y ∷ ys) = IsPart-nil _

any-filter :
    (p q : Linker → Bool) (ls : List Linker) → any q (filter p ls) ≡ any (λ l. q l && p l) ls
unfolding any filter
any-filter p q [] = refl
any-filter p q (l ∷ ls) = ground (arith, any-filter p q ls)

IsPart-only_found :
    (offered : Text → Bool) (found : List Linker)
    → ((id : Text) → any (λ l. l.name == id) found ≡ true → offered id ≡ true)
    → IsPart offered (only_linker found)
unfolding any
IsPart-only_found offered [] h = IsPart-nil offered
IsPart-only_found offered (l ∷ []) h =
    IsPart-single offered l.name (h l.name (ground (arith, eq_refl l.name)))
IsPart-only_found offered (l ∷ k ∷ ls) h = IsPart-nil offered

IsPart-only_linker :
    (info : SystemInfo) (base : Text)
    → IsPart (is_linker_enabled info (some base)) (only_linker (compatible info base))
unfolding is_linker_enabled compatible
IsPart-only_linker info base = IsPart-only_found _ (compatible info base) (λ id e.
    sym (
      any-filter (λ l. includes l.target_bases base) (λ l. l.name == id)
        info.enabled_authority_linkers)
    ∙ e)

IsPart-preselected :
    (info : SystemInfo) (base : Option Text)
    → IsPart (is_linker_enabled info base) (preselected info base)
IsPart-preselected info none = IsPart-nil _
IsPart-preselected info (some base) = elim (Bool-cases (truthy base)) [
  | inl e ↦ rw e (IsPart-only_linker info base)
  | inr e ↦ rw e (IsPart-nil _)
]

IsChosen-open_dialog :
    (info : SystemInfo) (a : DialogAction) (s : State)
    → IsChosen info s
    → IsChosen info (open_dialog info a s)
unfolding open_dialog open_link_authorities open_compare open_validate
IsChosen-open_dialog info link_authorities s (ls, bs, vs) =
    (IsPart-preselected info (only_base (available_bases info)), bs, vs)
IsChosen-open_dialog info compare s (ls, bs, vs) =
    elim (Bool-cases (is_empty info.authority_bases)) [
      | inl e ↦ rw e (ls, bs, vs)
      | inr e ↦ rw e (ls, IsPart-only info.authority_bases, vs)
    ]
IsChosen-open_dialog info validate s (ls, bs, vs) = (ls, bs, IsPart-only info.enabled_validators)

IsChosen-change :
    (info : SystemInfo) (ev : Event) (s : State)
    → IsChosen info s
    → IsChosen info (change info ev s)
unfolding change choose_base settle
IsChosen-change info (menu_item a) s h = elim (Bool-cases (is_busy s)) [
  | inl e ↦ rw e h
  | inr e ↦ rw e (IsChosen-open_dialog info a s h)
]
IsChosen-change info (base_chosen v) s (ls, bs, vs) =
    if_keeps (IsChosen info) _ _ s (λ e. (IsPart-only_linker info v, bs, vs)) (ls, bs, vs)
IsChosen-change info (linker_checked id checked) s (ls, bs, vs) =
    if_keeps (IsChosen info) _ _ s
      (λ e. (IsPart-checked_set _ s.selected_linkers id checked (ground (arith, e)) ls, bs, vs))
      (ls, bs, vs)
IsChosen-change info (base_checked base checked) s (ls, bs, vs) =
    if_keeps (IsChosen info) _ _ s
      (λ e. (
        ls,
        IsPart-checked_set _ s.selected_comparison_bases base checked (ground (arith, e)) bs,
        vs,
      ))
      (ls, bs, vs)
IsChosen-change info (validator_checked v checked) s (ls, bs, vs) =
    if_keeps (IsChosen info) _ _ s
      (λ e. (ls, bs, IsPart-checked_set _ s.selected_validators v checked (ground (arith, e)) vs))
      (ls, bs, vs)
IsChosen-change info confirmed s h = h
IsChosen-change info closed s h = h
IsChosen-change info (settled link_authorities) s h = h
IsChosen-change info (settled compare) s h = h
IsChosen-change info (settled validate) s h = h

-- A step keeps the invariant, and its requests are offered.
abbrev IsFine : SystemInfo → State × List Request → Type 0
IsFine info after = IsChosen info after.0 × All (IsOffered info) after.1

is_enabled_some :
    (info : SystemInfo) (base : Option Text) (id : Text)
    → is_linker_enabled info base id ≡ is_linker_enabled info (some (base_text base)) id
unfolding is_linker_enabled
is_enabled_some info none id = refl
is_enabled_some info (some base) id = refl

IsFine-confirm :
    (info : SystemInfo) (dialog : Option DialogAction) (s : State)
    → IsChosen info s
    → IsFine info (confirm dialog s)
unfolding confirm_link_authorities confirm_compare confirm_validate
IsFine-confirm info none s h = (h, tt)
IsFine-confirm info (some link_authorities) s h =
    elim (Bool-cases (not (truthy (base_text s.selected_base)) || is_empty s.selected_linkers)) [
      | inl e ↦ rw e (h, tt)
      | inr e ↦ rw e (
        h,
        (
          (
            ground (arith, e),
            ground (arith, e),
            (λ id k. sym (is_enabled_some info s.selected_base id) ∙ h.0.0 id k, h.0.1),
          ),
          tt,
        ),
      )
    ]
IsFine-confirm info (some compare) s h = elim (Bool-cases (is_empty s.selected_comparison_bases)) [
  | inl e ↦ rw e (h, tt)
  | inr e ↦ rw e (
    h,
    All-map (IsOffered info) post_compare s.selected_comparison_bases
        (All-of_includes _ s.selected_comparison_bases h.1.0),
  )
]
IsFine-confirm info (some validate) s h = elim (Bool-cases (is_empty s.selected_validators)) [
  | inl e ↦ rw e (h, tt)
  | inr e ↦ rw e (h, ((e, h.2), tt))
]

IsFine-step :
    (info : SystemInfo) (ev : Event) (s : State) → IsChosen info s → IsFine info (step info ev s)
unfolding step
IsFine-step info confirmed s h =
    if_keeps (IsFine info) _ (s, []) _ (λ e. (h, tt)) (IsFine-confirm info s.pending_dialog s h)
IsFine-step info (menu_item a) s h = (IsChosen-change info (menu_item a) s h, tt)
IsFine-step info (base_chosen v) s h = (IsChosen-change info (base_chosen v) s h, tt)
IsFine-step info (linker_checked v c) s h = (IsChosen-change info (linker_checked v c) s h, tt)
IsFine-step info (base_checked v c) s h = (IsChosen-change info (base_checked v c) s h, tt)
IsFine-step info (validator_checked v c) s h =
    (IsChosen-change info (validator_checked v c) s h, tt)
IsFine-step info closed s h = (h, tt)
IsFine-step info (settled a) s h = (IsChosen-change info (settled a) s h, tt)

pub IsChosen-initial : (info : SystemInfo) → IsChosen info initial
IsChosen-initial info = (IsPart-nil _, IsPart-nil _, IsPart-nil _)

pub IsFine-run :
    (info : SystemInfo) (evs : List Event) (s : State)
    → IsChosen info s
    → IsFine info (run info evs s)
unfolding run
IsFine-run info [] s h = (h, tt)
IsFine-run info (ev ∷ evs) s h =
    let now = IsFine-step info ev s h in
    let later = IsFine-run info evs (step info ev s).0 now.0 in
    (later.0, All-append (IsOffered info) _ _ now.1 later.1)

-- Whatever the user does in the dialogs, while the system info stays the same: every request for
-- links has a base and at least one linker, none twice, each of which targets the base; every
-- comparison is with an authority base; every validation has at least one validator, none twice,
-- each of them enabled.
pub run-IsOffered :
    (info : SystemInfo) (evs : List Event) → All (IsOffered info) (run info evs initial).1
run-IsOffered info evs = (IsFine-run info evs initial (IsChosen-initial info)).1
