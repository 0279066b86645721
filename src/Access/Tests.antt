-- ===== src/Access/Tests.antt =====
-- The administration on concrete roles, and the theorems about it.

use marc_comparator.Base.{ℕ, true, false, some, Option, List, [], ◌∷◌, All}
use marc_comparator.Base.Text.{Text, lit}
use marc_comparator.Permission.{review_records, permission_eq}
use marc_comparator.Access.{
  Role, initial, Event, create_clicked, name_typed, permission_checked, submitted, run, step, User,
}
use marc_comparator.Access.Saved.{IsAllowed, run-IsAllowed}

abbrev creating : List Event
creating = create_clicked ∷ name_typed (lit "Readers") ∷ permission_checked review_records true ∷ []

run-IsAllowed_example :
    All (IsAllowed (run creating initial).0) (step submitted (run creating initial).0).1
run-IsAllowed_example = run-IsAllowed creating submitted (tt, (tt, (tt, tt)))

abbrev readers : Role
readers = record {
  id = 1;
  name = lit "Readers";
  permissions = [];
  is_immutable = false;
  is_protected = false;
}

abbrev user : User
user = record { id = lit "u"; role_ids = [] }

abbrev me : Option Text
me = some (lit "me")

abbrev role_id : ℕ
role_id = 1
