-- ===== src/Schedules/Active.antt =====
-- neems-api/src/api/application_rule.rs, `get_site_active_command`: the command that a site runs at
-- an instant, given as a day and the seconds since its midnight. Whether the caller may view the
-- schedule is an argument. An instant of the answer is the seconds from the calendar's day 0.
pub mod Latest
use mathlib.Core.Option
use neems_core.Schedules.Db.{Db, DbResult, Sqlite, err, find_site, not_found, ok, ◌>>=◌, ◌>>◌}
use neems_core.Schedules.Chrono.{Chrono, pred_opt}
use neems_core.Schedules.Rules.{EffectiveScheduleResponse, first, get_effective_schedule}
use neems_core.Schedules.Model.{ScheduleCommandDto, ScheduleCommandType}
use neems_core.Prelude.Sort.{sort_by}
use neems_core.Prelude.{
  ℕ, Bool, true, false, Option, none, some, List, [], map, unwrap_or, ◌*◌, ◌∷◌, if◌then◌else◌,
}
use neems_core.Prelude.Int.{ℤ, pos, leb_ℤ, ◌+ℤ◌}

pub record ActiveScheduleCommand : Type 0 where
  pub command_id : ℕ
  pub command_type : ScheduleCommandType
  pub target_soc_percent : Option ℤ
  pub duration_seconds : Option ℤ
  pub ramp_duration_seconds : ℤ
  pub starts_at : ℤ

pub data ActiveCommand : Type 0 where
  forbidden internal_error : ActiveCommand
  command_is : Option ActiveScheduleCommand → ActiveCommand

-- `sort_by_key` on the offset
abbrev pub dto_le : ScheduleCommandDto → ScheduleCommandDto → Bool
dto_le a b = leb_ℤ a.execution_offset_seconds b.execution_offset_seconds

-- `iter().rev().find`
unfoldable pub rfind : {A : Type 0} → (A → Bool) → List A → Option A
rfind p [] = none
rfind p (x ∷ xs) = elim (rfind p xs) [ some y ↦ some y | none ↦ if p x then some x else none ]

unfoldable pub last_of : {A : Type 0} → A → List A → A
last_of x [] = x
last_of x (y ∷ ys) = last_of y ys

-- The command, and whether it carries over from the day before.
unfoldable pub chosen :
    ScheduleCommandDto
    → List ScheduleCommandDto
    → Option ScheduleCommandDto
    → ScheduleCommandDto × Bool
unfolding last_of
chosen first rest (some c) = (c, false)
chosen first rest none = (last_of first rest, true)

unfoldable pub choose : ℤ → ScheduleCommandDto → List ScheduleCommandDto → ScheduleCommandDto × Bool
unfolding rfind chosen
choose now_secs first rest =
    chosen first rest (rfind (λ c. leb_ℤ c.execution_offset_seconds now_secs) (first ∷ rest))

unfoldable pub ramp_of : Db → ℕ → ℤ
unfolding find_site
ramp_of db site =
    unwrap_or (Option.map (λ s. s.ramp_duration_seconds) (find_site db site)) (pos 120)

-- Midnight of a day.
abbrev pub midnight : ℕ → ℤ
midnight day = pos (day * 86400)

unfoldable pub active_of : Db → ℕ → ℕ → ScheduleCommandDto × Bool → ActiveScheduleCommand
unfolding pred_opt ramp_of
active_of db site today (c, carried_over) = record {
  command_id = c.id;
  command_type = c.command_type;
  target_soc_percent = c.target_soc_percent;
  duration_seconds = c.duration_seconds;
  ramp_duration_seconds = ramp_of db site;
  starts_at =
      midnight (if carried_over then unwrap_or (pred_opt today) today else today)
      +ℤ c.execution_offset_seconds;
}

unfoldable pub active_in : Db → ℕ → ℕ → ℤ → List ScheduleCommandDto → Option ActiveScheduleCommand
unfolding choose active_of
active_in db site today now_secs [] = none
active_in db site today now_secs (c ∷ cs) = some (active_of db site today (choose now_secs c cs))

abbrev pub active_response : Db → ℕ → ℕ → ℤ → DbResult EffectiveScheduleResponse → ActiveCommand
active_response db site today now_secs (ok e) =
    command_is (active_in db site today now_secs (sort_by dto_le e.library_item.commands))
active_response db site today now_secs (err not_found) = command_is none
active_response db site today now_secs (err other) = internal_error

unfoldable pub get_site_active_command : Chrono → Sqlite → Db → Bool → ℕ → ℕ → ℤ → ActiveCommand
unfolding active_in get_effective_schedule
get_site_active_command c q db may_view site today now_secs =
    if may_view
    then active_response db site today now_secs (get_effective_schedule c q db site today)
    else forbidden
