-- ===== src/Permission/Guards.antt =====
-- `hasPermission` on the three kinds of guard.
use marc_comparator.Base.{
  ◌≡◌, Bool, true, false, Option, none, some, List, [], ◌∷◌, arith, all, any, ◌↔◌, ◌⊎◌,
}
use marc_comparator.Base.Sets.{includes}
use marc_comparator.Permission.{Permission, permission_eq, one, any_of, all_of, has_permission}
use marc_comparator.Permission.Graph.{IsClosed, IsClosed-Needs, Needs}

-- A guard "all" of a longer list passes exactly when the first permission passes and "all" of the
-- others does; a guard "any" of it is refused exactly when the first is refused and "any" of the
-- others is; and "all" of no permission is undecided exactly while the user is loading or not known.
pub has_permission-lists :
    (loading : Bool) (me : Option (List Permission)) (p : Permission) (ps : List Permission)
    → ((has_permission loading me (all_of (p ∷ ps)) ≡ some true) ↔ (
        (has_permission loading me (one p) ≡ some true)
        × (has_permission loading me (all_of ps) ≡ some true)))
      × ((has_permission loading me (any_of (p ∷ ps)) ≡ some false) ↔ (
          (has_permission loading me (one p) ≡ some false)
          × (has_permission loading me (any_of ps) ≡ some false)))
      × ((has_permission loading me (all_of []) ≡ none) ↔ ((loading ≡ true) ⊎ (me ≡ none)))
unfolding has_permission all any
has_permission-lists true me p ps = ground arith
has_permission-lists false none p ps = ground arith
has_permission-lists false (some xs) p ps = ground arith

-- A known user whose permissions are closed under dependencies and who has `p` passes the guard on
-- each permission that `p` needs, directly or through others, and any list guard of such.
pub has_permission-Needs :
    (xs : List Permission) (p q : Permission)
    → IsClosed xs
    → Needs p q
    → has_permission false (some xs) (one p) ≡ some true
    → (has_permission false (some xs) (one q) ≡ some true)
      × (has_permission false (some xs) (all_of (p ∷ q ∷ [])) ≡ some true)
unfolding has_permission all
has_permission-Needs xs p q closed needs h =
    let held : includes xs p ≡ true = ground arith in
    ground (arith, IsClosed-Needs xs closed held needs)
