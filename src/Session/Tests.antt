-- ===== src/Session/Tests.antt =====
-- The layout for a concrete user, and the theorem about it.
use marc_comparator.Base.{
  ◌≡◌, refl, true, false, not, ◌&&◌, none, some, List, [], ◌∷◌, map, filter, any,
}
use marc_comparator.Base.Text.{Text, lit}
use marc_comparator.Base.Sets.{includes}
use marc_comparator.Permission.{manage_tasks, has_permission, permission_eqb}
use marc_comparator.Session.{Queries, Location, screen, after_effect, run, visible_items, redirect}
use marc_comparator.Session.Pages.{is_known, was_sent_away, shows_pages, run-shows_pages}

abbrev user : Queries Text
user = record {
  is_health_loading = false;
  is_health_error = false;
  is_me_loading = false;
  is_me_error = false;
  me = some (lit "u");
}

abbrev loading : List (Queries Text)
loading =
    record user { is_health_loading = true } ∷ record user { is_me_loading = true; me = none } ∷ []

abbrev at_tasks : Location
at_tasks = record { path = lit "/tasks"; search_part = lit "?taskId=1" }

abbrev same_text : Text → Text
same_text t = t

-- Whoever must sign in loses the search of the URL.
to_login :
    redirect same_text at_tasks (record user { me = none }) ≡ some (lit "/login?redirect=/tasks")
unfolding redirect
to_login = refl

menu_of_worker :
    map (λ item. item.0) (visible_items false (some (manage_tasks ∷ []))) ≡ lit "/tasks" ∷ []
unfolding visible_items has_permission filter any includes permission_eqb
menu_of_worker = refl

run-shows_pages_example :
    (shows_pages (screen (run same_text at_tasks loading false) user)
      ≡ (is_known user && not (was_sent_away same_text at_tasks loading)))
    × (shows_pages (screen (run same_text at_tasks loading false) user) ≡ true
        → after_effect same_text at_tasks user (run same_text at_tasks loading false) ≡ false)
run-shows_pages_example = run-shows_pages same_text at_tasks loading user
