-- ===== src/Session.antt =====
-- Who sees the pages: client/src/layout/app-layout.tsx and menu-panel.tsx, client/src/router.tsx, the
-- pages of client/src/features/auth with schemas.ts and hooks/use-auth.ts, and
-- client/src/features/errors/service-unavailable-page.tsx; and the setting of client/src/hooks/use-font-size.ts.
pub mod Pages
mod Tests
use marc_comparator.Base.{
  ℕ, ◌≡◌, Bool, true, false, not, ◌&&◌, ◌||◌, Option, none, some, List, [], ◌∷◌, ◌++◌, map, filter,
  length, if◌then◌else◌, ◌==◌, leb, present, or_else, nat_eqb,
}
use marc_comparator.Base.Text.{Text, lit, text_eq, truthy}
use marc_comparator.Base.Sets.{includes}
use marc_comparator.Permission.{
  Permission, Guard, one, any_of, manage_tasks, manage_app_settings, manage_task_settings,
  manage_access_control, has_permission,
}

-- What the two queries of the layout have: `M` is the user.
pub record Queries (M : Type 0) : Type 0 where
  pub is_health_loading : Bool
  pub is_health_error : Bool
  pub is_me_loading : Bool
  pub is_me_error : Bool
  pub me : Option M

-- The place of the page: the path and the search of the URL.
pub record Location : Type 0 where
  pub path : Text
  pub search_part : Text

-- The effect of the layout: where it sends the browser. `encode` is `encodeURIComponent`.
unfoldable pub redirect : {M : Type 0} → (Text → Text) → Location → Queries M → Option Text
redirect encode at q =
    if q.is_health_error
    then some (lit "/service-unavailable?redirect=" ++ encode (at.path ++ at.search_part))
    else if not q.is_health_loading && not q.is_me_loading && (q.is_me_error || not (present q.me))
    then some (lit "/login?redirect=" ++ encode at.path)
    else none

pub data Screen : Type 0 where
  skeleton : Screen
  blank : Screen
  pages : Screen

unfoldable pub screen : {M : Type 0} → Bool → Queries M → Screen
screen redirecting q =
    if q.is_health_loading || q.is_me_loading
    then skeleton
    else if redirecting || q.is_health_error || q.is_me_error || not (present q.me)
    then blank
    else pages

-- The state `redirecting` after the effect, with the place that the browser is sent to.
unfoldable pub after_effect : {M : Type 0} → (Text → Text) → Location → Queries M → Bool → Bool
unfolding redirect
after_effect encode at q redirecting = redirecting || present (redirect encode at q)

unfoldable pub run : {M : Type 0} → (Text → Text) → Location → List (Queries M) → Bool → Bool
unfolding after_effect
run encode at [] redirecting = redirecting
run encode at (q ∷ qs) redirecting = run encode at qs (after_effect encode at q redirecting)

-- The items of the menu by their paths.
abbrev pub menu_items : List (Text × Guard)
menu_items =
    (lit "/tasks", one manage_tasks)
    ∷ (lit "/settings", any_of (manage_app_settings ∷ manage_task_settings ∷ []))
    ∷ (lit "/access-control", one manage_access_control)
    ∷ (lit "/maintenance", one manage_app_settings)
    ∷ []

abbrev pub is_not_refused : Option Bool → Bool
is_not_refused none = true
is_not_refused (some b) = b

unfoldable pub visible_items : Bool → Option (List Permission) → List (Text × Guard)
visible_items is_loading permissions =
    filter (λ item. is_not_refused (has_permission is_loading permissions item.1)) menu_items

-- The pages by their paths; a path that is none of them leads to the first page.
pub data Page : Type 0 where
  login_page service_unavailable_page signup_page logout_page : Page
  records_page tasks_page settings_page access_control_page maintenance_page : Page
  to_first_page : Page

unfoldable pub page_of : Text → Page
page_of path =
    if path == lit "/login"
    then login_page
    else if path == lit "/service-unavailable"
    then service_unavailable_page
    else if path == lit "/signup"
    then signup_page
    else if path == lit "/logout"
    then logout_page
    else if path == lit "/"
    then records_page
    else if path == lit "/tasks"
    then tasks_page
    else if path == lit "/settings"
    then settings_page
    else if path == lit "/access-control"
    then access_control_page
    else if path == lit "/maintenance"
    then maintenance_page
    else to_first_page

-- `searchParams.get("redirect") || "/"`, after signing in and when the server is back.
abbrev pub redirect_to : Option Text → Text
redirect_to none = lit "/"
redirect_to (some to) = if truthy to then to else lit "/"

pub record LoginForm : Type 0 where
  pub email : Text
  pub password : Text

pub record SignupForm : Type 0 where
  pub email : Text
  pub first_name : Text
  pub last_name : Text
  pub password : Text
  pub confirm_password : Text

unfoldable pub is_login_form : (Text → Bool) → LoginForm → Bool
is_login_form is_email f = is_email f.email && truthy f.password

unfoldable pub is_signup_form : (Text → Bool) → SignupForm → Bool
is_signup_form is_email f =
    is_email f.email
    && truthy f.first_name
    && truthy f.last_name
    && leb 8 (length f.password)
    && leb 8 (length f.confirm_password)
    && f.password == f.confirm_password

-- What the pages do with the answer of the server: they lead to another page, or show an error.
pub data Outcome : Type 0 where
  navigate : Text → Outcome
  root_error : Text → Outcome

unfoldable pub on_login : Text → Option Text → Bool → Outcome
on_login message to succeeded = if succeeded then navigate (redirect_to to) else root_error message

-- `detail` is what the server tells of an error, if it does.
unfoldable pub on_signup : Text → Bool → Option Text → Outcome
on_signup message succeeded detail =
    if succeeded then navigate (lit "/login") else root_error (or_else detail message)

-- `handleTryAgain`: the status of the answer, if there was one, and whether the button is disabled.
unfoldable pub handle_try_again : Option Text → Option ℕ → Option Text
handle_try_again to none = none
handle_try_again to (some status) = if nat_eqb status 200 then some (redirect_to to) else none

-- The font size: what is stored counts where it is one of the options.
abbrev pub font_size_options : List Text
font_size_options = lit "small" ∷ lit "default" ∷ lit "large" ∷ lit "x-large" ∷ []

unfoldable pub stored_size : Option Text → Text
stored_size none = lit "default"
stored_size (some size) =
    if truthy size && includes font_size_options size then size else lit "default"

-- The attribute of the document for a size, and what is stored.
unfoldable pub size_attribute : Text → Option Text
size_attribute size = if size == lit "default" then none else some size
