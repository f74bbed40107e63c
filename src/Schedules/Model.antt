-- ===== src/Schedules/Model.antt =====
-- neems-api/src/models/schedule_library.rs and application_rule.rs, and the tables of
-- neems-api/migrations/2025-12-14-120000_add_schedule_library_system: the rows, the requests and
-- the errors of the schedule library. An id is a number, an `i32` value an integer, and an instant
-- (`NaiveDateTime`) a number in the order of time. A JSON column is what serde reads in it:
-- `malformed` where it is not of its type. The audit rows of `entity_activity` are left out.
use Prim.Native.String.{String}
use neems_core.Prelude.Collect.{◌>>=◌}
use neems_core.Prelude.Texts.{same_text}
use neems_core.Prelude.{ℕ, Bool, Option, none, some, List, if◌then◌else◌}
use neems_core.Prelude.Int.{ℤ}

pub data RuleType : Type 0 where
  default_rule day_of_week specific_date : RuleType

-- `RuleType::as_str`
unfoldable pub rule_type_text : RuleType → String
rule_type_text default_rule = "default"
rule_type_text day_of_week = "day_of_week"
rule_type_text specific_date = "specific_date"

-- `RuleType::from_str`
unfoldable pub rule_type_of : String → Option RuleType
rule_type_of s =
    if same_text s "default"
    then some default_rule
    else if same_text s "day_of_week"
    then some day_of_week
    else if same_text s "specific_date"
    then some specific_date
    else none

-- The command types of a schedule; the protocol's `CommandType` has three more.
pub data ScheduleCommandType : Type 0 where
  charge discharge trickle_charge : ScheduleCommandType

unfoldable pub command_type_text : ScheduleCommandType → String
command_type_text ScheduleCommandType.charge = "charge"
command_type_text ScheduleCommandType.discharge = "discharge"
command_type_text ScheduleCommandType.trickle_charge = "trickle_charge"

unfoldable pub command_type_of : String → Option ScheduleCommandType
command_type_of s =
    if same_text s "charge"
    then some ScheduleCommandType.charge
    else if same_text s "discharge"
    then some ScheduleCommandType.discharge
    else if same_text s "trickle_charge"
    then some ScheduleCommandType.trickle_charge
    else none

pub data Column (A : Type 0) : Type 0 where
  null malformed : Column A
  holds : A → Column A

pub record ApplicationRuleDb : Type 0 where
  pub id : ℕ
  pub template_id : ℕ
  pub rule_type : String
  pub days_of_week : Column (List ℤ)
  pub specific_dates : Column (List String)
  pub override_reason : Option String
  pub created_at : ℕ

pub record ApplicationRule : Type 0 where
  pub id : ℕ
  pub library_item_id : ℕ
  pub rule_type : RuleType
  pub days_of_week : Option (List ℤ)
  pub specific_dates : Option (List String)
  pub override_reason : Option String
  pub created_at : ℕ

-- Reading a column: none where `serde_json::from_str` fails.
unfoldable pub read_column : {A : Type 0} → Column A → Option (Option A)
read_column null = some none
read_column malformed = none
read_column (holds a) = some (some a)

-- `to_api_model`, none where it returns an error
unfoldable pub to_api_model : ApplicationRuleDb → Option ApplicationRule
unfolding rule_type_of read_column
to_api_model r = do
  t ← rule_type_of r.rule_type
  days ← read_column r.days_of_week
  dates ← read_column r.specific_dates
  some (record {
    id = r.id;
    library_item_id = r.template_id;
    rule_type = t;
    days_of_week = days;
    specific_dates = dates;
    override_reason = r.override_reason;
    created_at = r.created_at;
  })

pub record CreateApplicationRuleRequest : Type 0 where
  pub rule_type : RuleType
  pub days_of_week : Option (List ℤ)
  pub specific_dates : Option (List String)
  pub override_reason : Option String

pub record ScheduleTemplate : Type 0 where
  pub id : ℕ
  pub site_id : ℕ
  pub name : String
  pub description : Option String
  pub is_active : Bool
  pub is_default : Bool
  pub created_at : ℕ

pub record ScheduleTemplateEntry : Type 0 where
  pub id : ℕ
  pub template_id : ℕ
  pub execution_offset_seconds : ℤ
  pub schedule_command_id : ℕ
  pub is_active : Bool

-- A row of `schedule_commands`; its unused `parameters` are left out.
pub record ScheduleCommand : Type 0 where
  pub id : ℕ
  pub site_id : ℕ
  pub type_ : String
  pub duration_seconds : Option ℤ
  pub target_soc_percent : Option ℤ
  pub is_active : Bool

pub record ScheduleCommandDto : Type 0 where
  pub id : ℕ
  pub execution_offset_seconds : ℤ
  pub command_type : ScheduleCommandType
  pub duration_seconds : Option ℤ
  pub target_soc_percent : Option ℤ

pub record ScheduleLibraryItem : Type 0 where
  pub id : ℕ
  pub site_id : ℕ
  pub name : String
  pub description : Option String
  pub commands : List ScheduleCommandDto
  pub created_at : ℕ

pub record CreateCommandRequest : Type 0 where
  pub execution_offset_seconds : ℤ
  pub command_type : ScheduleCommandType
  pub duration_seconds : Option ℤ
  pub target_soc_percent : Option ℤ

pub record CreateLibraryItemRequest : Type 0 where
  pub name : String
  pub description : Option String
  pub commands : List CreateCommandRequest

pub record UpdateLibraryItemRequest : Type 0 where
  pub name : Option String
  pub description : Option String
  pub commands : Option (List CreateCommandRequest)

-- The fields of a site that the schedules read.
pub record Site : Type 0 where
  pub id : ℕ
  pub ramp_duration_seconds : ℤ
  pub off_peak_start_minutes : Option ℤ
  pub off_peak_end_minutes : Option ℤ
  pub peak_revenue_start_minutes : Option ℤ
  pub peak_revenue_end_minutes : Option ℤ
