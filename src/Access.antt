-- ===== src/Access.antt =====
-- The administration of roles and users: client/src/features/access-control/roles-section.tsx with
-- role-form-dialog.tsx and schemas.ts, and users-section.tsx.
pub mod Saved
mod Tests
use marc_comparator.Base.{
  ℕ, ◌≡◌, Bool, true, false, not, ◌&&◌, ◌||◌, Option, none, some, List, [], ◌∷◌, ◌++◌, map, filter,
  length, is_empty, if◌then◌else◌, ◌==◌, nat_eq, leb,
}
use marc_comparator.Base.Text.{Text, text_eq}
use marc_comparator.Base.Sets.{includes}
use marc_comparator.Permission.{Permission, toggle_permission}

pub record Role : Type 0 where
  pub id : ℕ
  pub name : Text
  pub permissions : List Permission
  pub is_immutable : Bool
  pub is_protected : Bool

-- `RoleFormValues`, the values of the form in the dialog.
pub record RoleForm : Type 0 where
  pub name : Text
  pub permissions : List Permission

abbrev pub form_of : Option Role → RoleForm
form_of none = record { name = []; permissions = [] }
form_of (some role) = record { name = role.name; permissions = role.permissions }

-- `roleSchema`.
unfoldable pub is_role_form : RoleForm → Bool
is_role_form f = leb 4 (length f.name) && not (is_empty f.permissions)

-- The state of the section and of its dialog.
pub record State : Type 0 where
  pub editing_role : Option Role
  pub is_dialog_open : Bool
  pub deleting_role : Option Role
  pub form : RoleForm

abbrev pub initial : State
initial = record {
  editing_role = none;
  is_dialog_open = false;
  deleting_role = none;
  form = form_of none;
}

pub data Request : Type 0 where
  create_role : RoleForm → Request
  update_role : (id : ℕ) → RoleForm → Request
  delete_role : (id : ℕ) → Request

abbrev pub is_immutable_role : Option Role → Bool
is_immutable_role none = false
is_immutable_role (some role) = role.is_immutable

-- The controls of the dialog can be used.
unfoldable pub can_edit : State → Bool
can_edit s = s.is_dialog_open && not (is_immutable_role s.editing_role)

-- The dialog opens: the effect resets the form to the role.
unfoldable pub open_dialog : Option Role → State → State
open_dialog role s = record s { editing_role = role; is_dialog_open = true; form = form_of role }

unfoldable pub close_dialog : State → State
close_dialog s = record s { editing_role = none; is_dialog_open = false }

abbrev pub with_permissions : RoleForm → Option (List Permission) → RoleForm
with_permissions f none = f
with_permissions f (some permissions) = record f { permissions = permissions }

-- A checkbox of the dialog changes.
unfoldable pub check_permission : Permission → Bool → RoleForm → RoleForm
check_permission p checked f = with_permissions f (toggle_permission f.permissions p checked)

unfoldable pub handle_submit : Option Role → RoleForm → Request
handle_submit (some role) values = update_role role.id values
handle_submit none values = create_role values

abbrev pub delete_request : Option Role → List Request
delete_request none = []
delete_request (some role) = delete_role role.id ∷ []

pub data Event : Type 0 where
  create_clicked : Event
  edit_clicked delete_clicked : Role → Event
  dialog_closed : Event
  name_typed : Text → Event
  permission_checked : Permission → Bool → Event
  submitted : Event
  delete_cancelled delete_confirmed : Event
  created updated deleted : Event

-- The answer to the question whether to delete closes the question as well.
unfoldable pub step : Event → State → State × List Request
unfolding open_dialog close_dialog check_permission can_edit is_role_form handle_submit
step create_clicked s = (open_dialog none s, [])
step (edit_clicked role) s = (if role.is_immutable then s else open_dialog (some role) s, [])
step (delete_clicked role) s = (
  if role.is_protected || role.is_immutable then s else record s { deleting_role = some role },
  [],
)
step dialog_closed s = (close_dialog s, [])
step (name_typed name) s =
    (if can_edit s then record s { form = record (s.form) { name = name } } else s, [])
step (permission_checked p checked) s =
    (if can_edit s then record s { form = check_permission p checked s.form } else s, [])
step submitted s =
    (s, if can_edit s && is_role_form s.form then handle_submit s.editing_role s.form ∷ [] else [])
step delete_cancelled s = (record s { deleting_role = none }, [])
step delete_confirmed s = (record s { deleting_role = none }, delete_request s.deleting_role)
step created s = (record s { is_dialog_open = false }, [])
step updated s = (record s { is_dialog_open = false; editing_role = none }, [])
step deleted s = (record s { deleting_role = none }, [])

unfoldable pub run : List Event → State → State × List Request
unfolding step
run [] s = (s, [])
run (ev ∷ evs) s =
    let after = step ev s in let rest = run evs after.0 in (rest.0, after.1 ++ rest.1)

-- A user with the identifiers of the roles that the user has.
pub record User : Type 0 where
  pub id : Text
  pub role_ids : List ℕ

unfoldable pub is_self : Option Text → User → Bool
is_self none user = false
is_self (some me) user = me == user.id

unfoldable pub available_roles : List Role → User → List Role
available_roles roles user = filter (λ r. not (includes user.role_ids r.id)) roles

pub data RoleChange : Type 0 where
  assign_role unassign_role : (user_id : Text) (role_id : ℕ) → RoleChange

-- A role is chosen in the select box of a user, or the badge of a role is clicked.
unfoldable pub on_role_chosen : Option Text → List Role → User → ℕ → List RoleChange
unfolding is_self available_roles
on_role_chosen me roles user role_id =
    if not (is_self me user) && includes (map (λ r. r.id) (available_roles roles user)) role_id
    then assign_role user.id role_id ∷ []
    else []

unfoldable pub on_badge_clicked : Option Text → User → ℕ → List RoleChange
unfolding is_self
on_badge_clicked me user role_id =
    if not (is_self me user) && includes user.role_ids role_id
    then unassign_role user.id role_id ∷ []
    else []
