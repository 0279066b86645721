-- ===== src/Access/Saved.antt =====
-- What the administration of roles and users sends.
use mathlib.Core.Option.{some_inj, none-ne-some}
use mathlib.Core.Bool.{false≢true}
use marc_comparator.Base.{
  ℕ, ◌≡◌, refl, sym, ap, ◌∙◌, Bool, true, false, not, ◌&&◌, ◌||◌, Option, none, some, List, [], ◌∷◌,
  map, filter, is_empty, length, if_keeps, if_cases, ◌≢◌, All, arith, nat_eq, eq_iff, Bool-cases,
  inl, inr, ◌≤◌,
}
use marc_comparator.Base.Text.{Text, text_eq}
use marc_comparator.Base.Sets.{includes, includes-filter}
use marc_comparator.Permission.{Permission, permission_eq}
use marc_comparator.Permission.Graph.{IsClosed}
use marc_comparator.Permission.Toggle.{toggle_permission-IsClosed}
use marc_comparator.Access.{
  Role, RoleForm, form_of, is_role_form, State, initial, Request, create_role, update_role,
  delete_role, is_immutable_role, can_edit, open_dialog, close_dialog, check_permission,
  handle_submit, delete_request, Event, create_clicked, edit_clicked, delete_clicked, dialog_closed,
  name_typed, permission_checked, submitted, delete_cancelled, delete_confirmed, created, updated,
  deleted, step, run, User, is_self, available_roles, RoleChange, assign_role, unassign_role,
  on_role_chosen, on_badge_clicked,
}

-- A role that the server sent has its permissions with all that they depend on.
abbrev pub IsFromServer : Event → Type 0
IsFromServer (edit_clicked role) = IsClosed role.permissions
IsFromServer _ = Unit

-- A form that may be sent: a name of four characters at least, and permissions, each with all that it
-- depends on.
abbrev pub IsGood : RoleForm → Type 0
IsGood f = (4 ≤ length f.name) × (is_empty f.permissions ≡ false) × IsClosed f.permissions

-- The role that is deleted is neither protected nor immutable, and one that is changed is not
-- immutable.
abbrev pub IsAllowed : State → Request → Type 0
IsAllowed s (create_role f) = IsGood f
IsAllowed s (update_role id f) =
    (role : Role) × (s.editing_role ≡ some role)
    × (id ≡ role.id)
    × (role.is_immutable ≡ false)
    × IsGood f
IsAllowed s (delete_role id) =
    (role : Role) × (s.deleting_role ≡ some role)
    × (id ≡ role.id)
    × ((role.is_protected || role.is_immutable) ≡ false)

abbrev IsDeletable : Option Role → Type 0
IsDeletable none = Unit
IsDeletable (some role) = (role.is_protected || role.is_immutable) ≡ false

-- The invariant.
unfoldable IsTidy : State → Type 0
IsTidy s = IsClosed s.form.permissions × IsDeletable s.deleting_role

IsClosed-nil : IsClosed []
unfolding includes
IsClosed-nil p q e = absurd (false≢true e)

IsClosed-check :
    (p : Permission) (checked : Bool) (f : RoleForm)
    → IsClosed f.permissions
    → IsClosed (check_permission p checked f).permissions
unfolding check_permission
IsClosed-check p checked f h =
    let (r, e, closed) = toggle_permission-IsClosed f.permissions p checked h in rw e closed

IsTidy-form :
    (s : State) (f : RoleForm) → IsClosed f.permissions → IsTidy s → IsTidy (record s { form = f })
unfolding IsTidy
IsTidy-form s f closed h = (closed, h.1)

IsTidy-deleting :
    (s : State) (o : Option Role)
    → IsDeletable o
    → IsTidy s
    → IsTidy (record s { deleting_role = o })
unfolding IsTidy
IsTidy-deleting s o good h = (h.0, good)

IsTidy-open :
    (s : State) (role : Option Role)
    → IsClosed (form_of role).permissions
    → IsTidy s
    → IsTidy (open_dialog role s)
unfolding IsTidy open_dialog
IsTidy-open s role closed h = (closed, h.1)

IsTidy-close : (s : State) → IsTidy s → IsTidy (close_dialog s)
unfolding IsTidy close_dialog
IsTidy-close s h = h

IsTidy-answered :
    (s : State) (role : Option Role)
    → IsTidy s
    → IsTidy (record s { is_dialog_open = false; editing_role = role })
unfolding IsTidy
IsTidy-answered s role h = h

IsClosed-of_tidy : (s : State) → IsTidy s → IsClosed s.form.permissions
unfolding IsTidy
IsClosed-of_tidy s h = h.0

IsDeletable-of_tidy : (s : State) → IsTidy s → IsDeletable s.deleting_role
unfolding IsTidy
IsDeletable-of_tidy s h = h.1

IsTidy-step : (ev : Event) (s : State) → IsFromServer ev → IsTidy s → IsTidy (step ev s).0
unfolding step
IsTidy-step create_clicked s k h = IsTidy-open s none IsClosed-nil h
IsTidy-step (edit_clicked role) s k h =
    if_cases IsTidy role.is_immutable s (open_dialog (some role) s) (λ e. h)
      (λ e. IsTidy-open s (some role) k h)
IsTidy-step (delete_clicked role) s k h =
    if_cases IsTidy (role.is_protected || role.is_immutable) s
      (record s { deleting_role = some role }) (λ e. h) (λ e. IsTidy-deleting s (some role) e h)
IsTidy-step dialog_closed s k h = IsTidy-close s h
IsTidy-step (name_typed name) s k h =
    if_keeps IsTidy (can_edit s) (record s { form = record (s.form) { name = name } }) s
      (λ e. IsTidy-form s (record (s.form) { name = name }) (IsClosed-of_tidy s h) h) h
IsTidy-step (permission_checked p checked) s k h =
    if_keeps IsTidy (can_edit s) (record s { form = check_permission p checked s.form }) s
      (λ e.
        IsTidy-form s (check_permission p checked s.form)
          (IsClosed-check p checked s.form (IsClosed-of_tidy s h)) h)
      h
IsTidy-step submitted s k h = h
IsTidy-step delete_cancelled s k h = IsTidy-deleting s none tt h
IsTidy-step delete_confirmed s k h = IsTidy-deleting s none tt h
IsTidy-step created s k h = IsTidy-answered s s.editing_role h
IsTidy-step updated s k h = IsTidy-answered s none h
IsTidy-step deleted s k h = IsTidy-deleting s none tt h

IsTidy-run : (evs : List Event) (s : State) → All IsFromServer evs → IsTidy s → IsTidy (run evs s).0
unfolding run
IsTidy-run [] s k h = h
IsTidy-run (ev ∷ evs) s k h = IsTidy-run evs (step ev s).0 k.1 (IsTidy-step ev s k.0 h)

IsAllowed-submit :
    (s : State) (role : Option Role)
    → s.editing_role ≡ role
    → is_immutable_role role ≡ false
    → IsGood s.form
    → IsAllowed s (handle_submit role s.form)
unfolding handle_submit
IsAllowed-submit s none e free good = good
IsAllowed-submit s (some role) e free good = (role, e, refl, free, good)

IsAllowed-delete :
    (s : State) (role : Option Role)
    → s.deleting_role ≡ role
    → IsDeletable role
    → All (IsAllowed s) (delete_request role)
IsAllowed-delete s none e good = tt
IsAllowed-delete s (some role) e good = ((role, e, refl, good), tt)

IsGood-form : (f : RoleForm) → is_role_form f ≡ true → IsClosed f.permissions → IsGood f
unfolding is_role_form
IsGood-form f e closed = (ground (arith, e), ground (arith, e), closed)

IsAllowed-step : (ev : Event) (s : State) → IsTidy s → All (IsAllowed s) (step ev s).1
unfolding step can_edit
IsAllowed-step create_clicked s h = tt
IsAllowed-step (edit_clicked role) s h = tt
IsAllowed-step (delete_clicked role) s h = tt
IsAllowed-step dialog_closed s h = tt
IsAllowed-step (name_typed name) s h = tt
IsAllowed-step (permission_checked p checked) s h = tt
IsAllowed-step submitted s h =
    if_keeps (All (IsAllowed s)) (can_edit s && is_role_form s.form)
      (handle_submit s.editing_role s.form ∷ []) []
      (λ e. (
        IsAllowed-submit s s.editing_role refl (ground (arith, e))
            (IsGood-form s.form (ground (arith, e)) (IsClosed-of_tidy s h)),
        tt,
      ))
      tt
IsAllowed-step delete_cancelled s h = tt
IsAllowed-step delete_confirmed s h =
    IsAllowed-delete s s.deleting_role refl (IsDeletable-of_tidy s h)
IsAllowed-step created s h = tt
IsAllowed-step updated s h = tt
IsAllowed-step deleted s h = tt

IsTidy-initial : IsTidy initial
unfolding IsTidy
IsTidy-initial = (IsClosed-nil, tt)

-- Where the roles of the server have their permissions with all that they depend on: after any
-- events, what the section sends is allowed. A role is saved only with a name of four characters, and
-- with permissions, each with all that it depends on; an immutable role is not changed, and one that
-- is protected or immutable is not deleted.
pub run-IsAllowed :
    (evs : List Event) (ev : Event)
    → All IsFromServer evs
    → All (IsAllowed (run evs initial).0) (step ev (run evs initial).0).1
run-IsAllowed evs ev k =
    IsAllowed-step ev (run evs initial).0 (IsTidy-run evs initial k IsTidy-initial)

-- A change of the roles of a user is of another user than the one who makes it; a role that is assigned
-- is one of the roles and not yet the user's, and one that is taken away is the user's.
abbrev pub IsChange : Option Text → List Role → User → RoleChange → Type 0
IsChange me roles user (assign_role user_id role_id) =
    (user_id ≡ user.id)
    × (me ≢ some user.id)
    × (includes (map (λ r. r.id) roles) role_id ≡ true)
    × (includes user.role_ids role_id ≡ false)
IsChange me roles user (unassign_role user_id role_id) =
    (user_id ≡ user.id) × (me ≢ some user.id) × (includes user.role_ids role_id ≡ true)

not_self : (me : Option Text) (user : User) → is_self me user ≡ false → me ≢ some user.id
unfolding is_self
not_self none user e h = absurd (none-ne-some _ h)
not_self (some me) user e h = absurd (false≢true (sym e ∙ (eq_iff me user.id).1 (some_inj.0 h)))

map-filter :
    (t : ℕ → Bool) (roles : List Role)
    → map (λ r. r.id) (filter (λ r. t r.id) roles) ≡ filter t (map (λ r. r.id) roles)
unfolding filter
map-filter t [] = refl
map-filter t (r ∷ roles) = elim (Bool-cases (t r.id)) [
  | inl e ↦ rw e (ap (λ ids. r.id ∷ ids) (map-filter t roles))
  | inr e ↦ rw e (map-filter t roles)
]

includes-available :
    (roles : List Role) (user : User) (id : ℕ)
    → includes (map (λ r. r.id) (available_roles roles user)) id
      ≡ (includes (map (λ r. r.id) roles) id && not (includes user.role_ids id))
unfolding available_roles
includes-available roles user id =
    ap (λ ids. includes ids id) (map-filter (λ i. not (includes user.role_ids i)) roles)
    ∙ includes-filter (λ i. not (includes user.role_ids i)) (map (λ r. r.id) roles) id

-- Whichever role is chosen for a user, and whichever badge is clicked, what is sent is such a change.
pub on_role_chosen-IsChange :
    (me : Option Text) (roles : List Role) (user : User) (role_id : ℕ)
    → All (IsChange me roles user) (on_role_chosen me roles user role_id)
      × All (IsChange me roles user) (on_badge_clicked me user role_id)
unfolding on_role_chosen on_badge_clicked
on_role_chosen-IsChange me roles user role_id = (
  if_keeps (All (IsChange me roles user)) _ (assign_role user.id role_id ∷ []) []
      (λ e.
        let both = includes-available roles user role_id in
        (
          (
            refl,
            not_self me user (ground (arith, e)),
            ground (arith, e, both),
            ground (arith, e, both),
          ),
          tt,
        ))
      tt,
  if_keeps (All (IsChange me roles user)) _ (unassign_role user.id role_id ∷ []) []
      (λ e. ((refl, not_self me user (ground (arith, e)), ground (arith, e)), tt)) tt,
)
