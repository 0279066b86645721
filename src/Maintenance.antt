-- ===== src/Maintenance.antt =====
-- The page of maintenance: client/src/features/maintenance/maintenance-page.tsx, and
-- maintenance-action-card.tsx. `N` are the numbers that `parse_int` gives; it gives none where
-- `parseInt` gives NaN.
mod Tests
use marc_comparator.Base.{
  Bool, true, false, not, ◌&&◌, Option, none, some, List, [], ◌∷◌, ◌++◌, if◌then◌else◌,
}
use marc_comparator.Base.Text.{Text, lit, truthy}

-- The properties of a card that reach its request.
pub record Card : Type 0 where
  pub endpoint : Text
  pub show_max_age : Bool

abbrev pub cards : List Card
cards =
    record { endpoint = lit "/maintenance/delete-tasks"; show_max_age = true }
    ∷ record { endpoint = lit "/maintenance/refresh-analytics"; show_max_age = false }
    ∷ record { endpoint = lit "/maintenance/cleanup-stale-locks"; show_max_age = false }
    ∷ record { endpoint = lit "/maintenance/compact-sectors"; show_max_age = false }
    ∷ record { endpoint = lit "/maintenance/rebuild-search-vectors"; show_max_age = false }
    ∷ []

pub record CardState : Type 0 where
  pub max_age_days : Text
  pub is_pending : Bool

abbrev pub new_card : CardState
new_card = record { max_age_days = []; is_pending = false }

-- A request, with its body `{ max_age_days }` where it has one.
pub record MaintenanceRequest (N : Type 0) : Type 0 where
  pub endpoint : Text
  pub body : Option (Option N)

pub data CardEvent : Type 0 where
  age_typed : Text → CardEvent
  run_clicked settled : CardEvent

module _ {N : Type 0} (parse_int : Text → Option N) (card : Card) where
  unfoldable pub mutation_request : CardState → MaintenanceRequest N
  mutation_request s = record {
    endpoint = card.endpoint;
    body =
        if card.show_max_age && truthy s.max_age_days
        then some (parse_int s.max_age_days)
        else none;
  }

  -- The button is disabled while the mutation is pending; the input is there on some cards only.
  unfoldable pub card_step : CardEvent → CardState → CardState × List (MaintenanceRequest N)
  unfolding mutation_request
  card_step (age_typed text) s =
      (if card.show_max_age then record s { max_age_days = text } else s, [])
  card_step run_clicked s =
      if not s.is_pending
      then (record s { is_pending = true }, mutation_request s ∷ [])
      else (s, [])
  card_step settled s = (record s { is_pending = false }, [])

  -- The requests of a run.
  unfoldable pub card_run : List CardEvent → CardState → List (MaintenanceRequest N)
  unfolding card_step
  card_run [] s = []
  card_run (ev ∷ evs) s = let after = card_step ev s in after.1 ++ card_run evs after.0
