-- ===== src/Rtac/History.antt =====
-- neems-data/src/rtac/alarms.rs: alarm events and the in-memory history.
-- The hash map of active alarms is an association list by alarm number. `none` is the panic of
-- `Vec::remove(0)` on an empty vector.
use neems_core.Rtac.Alarm.Definition.{AlarmDefinition, AlarmZone}
use Prim.Native.String.{String}
use mathlib.Core.List.{reverse}
use neems_core.Prelude.{
  ℕ, Bool, Option, none, some, List, [], map, leb, length, take, any, ◌∷◌, ◌++◌, ◌==◌,
  if◌then◌else◌,
}
use mathlib.Core.Option
pub mod Latest

pub data AlarmSeverity : Type 0 where
  info warning critical emergency : AlarmSeverity

-- The derived order.
unfoldable pub severity_rank : AlarmSeverity → ℕ
severity_rank info = 0
severity_rank warning = 1
severity_rank critical = 2
severity_rank emergency = 3

unfoldable pub severity_from_level : ℕ → AlarmSeverity
severity_from_level level =
    if level == 1
    then emergency
    else if level == 2
    then critical
    else if level == 3
    then warning
    else info

pub data AlarmState : Type 0 where
  active cleared : AlarmState

pub record Alarm (T : Type 0) : Type 0 where
  pub name : String
  pub alarm_num : ℕ
  pub zone : AlarmZone
  pub state : AlarmState
  pub severity : AlarmSeverity
  pub timestamp : T
  pub message : Option String

pub record AlarmHistory (T : Type 0) : Type 0 where
  pub events : List (Alarm T)
  pub max_events : ℕ
  pub active_alarms : List (Alarm T)

module _ {T : Type 0} where
  -- `Alarm::new` and `Alarm::cleared`
  unfoldable pub alarm_new : AlarmDefinition → T → Alarm T
  alarm_new def now = record {
    name = def.name;
    alarm_num = def.alarm_num;
    zone = def.zone;
    state = active;
    severity = severity_from_level def.level;
    timestamp = now;
    message = none;
  }

  unfoldable pub alarm_cleared : AlarmDefinition → T → Alarm T
  unfolding alarm_new
  alarm_cleared def now = record (alarm_new def now) { state = cleared }

  unfoldable pub is_critical_or_higher : Alarm T → Bool
  unfolding severity_rank
  is_critical_or_higher a = leb (severity_rank critical) (severity_rank a.severity)

  unfoldable pub new_history : ℕ → AlarmHistory T
  new_history max_events = record { events = []; max_events = max_events; active_alarms = [] }

  -- `HashMap::remove` and `HashMap::insert`, keyed by alarm number.
  unfoldable pub remove_alarm : ℕ → List (Alarm T) → List (Alarm T)
  remove_alarm num [] = []
  remove_alarm num (a ∷ as') =
      let rest = remove_alarm num as' in if a.alarm_num == num then rest else a ∷ rest

  unfoldable pub insert_alarm : Alarm T → List (Alarm T) → List (Alarm T)
  unfolding remove_alarm
  insert_alarm a as' = a ∷ remove_alarm a.alarm_num as'

  unfoldable pub active_after : Alarm T → AlarmState → List (Alarm T) → List (Alarm T)
  unfolding insert_alarm
  active_after a active as' = insert_alarm a as'
  active_after a cleared as' = remove_alarm a.alarm_num as'

  -- The events after one more: at capacity the oldest goes first.
  unfoldable pub push_event : ℕ → List (Alarm T) → Alarm T → Option (List (Alarm T))
  push_event max_events [] a = if leb max_events 0 then none else some (a ∷ [])
  push_event max_events (e ∷ es) a =
      some (if leb max_events (length (e ∷ es)) then es ++ a ∷ [] else (e ∷ es) ++ a ∷ [])

  unfoldable pub record_alarm : AlarmHistory T → Alarm T → Option (AlarmHistory T)
  unfolding active_after push_event
  record_alarm h a =
      Option.map
        (λ es. record h { events = es; active_alarms = active_after a a.state h.active_alarms })
        (push_event h.max_events h.events a)

  -- `recent_events`
  unfoldable pub recent_events : AlarmHistory T → ℕ → List (Alarm T)
  recent_events h count = take count (reverse h.events)

  unfoldable pub has_critical_alarms : AlarmHistory T → Bool
  unfolding is_critical_or_higher
  has_critical_alarms h = any is_critical_or_higher h.active_alarms

  -- The receive loop of `AlarmHandlerTask::run`, which records each alarm as it comes.
  unfoldable pub record_all : AlarmHistory T → List (Alarm T) → Option (AlarmHistory T)
  unfolding record_alarm
  record_all h [] = some h
  record_all h (a ∷ as') = elim (record_alarm h a) [ none ↦ none | some h' ↦ record_all h' as' ]
