-- ===== src/Schedules/Store.antt =====
-- neems-api/src/orm/application_rule.rs and schedule_library.rs: the rules created and deleted, and
-- the default schedule of a site.
pub mod Requests
pub mod Invariant
pub mod Changes
pub mod Steps
pub mod Default
pub mod Edits
use Prim.Native.String.{String}
use neems_core.Schedules.Db.{
  Db, DbResult, Sqlite, default_of, err, find_template, insert_rule, insert_template, invalid_data,
  not_found, ok, or_fail, ◌>>=◌, ◌>>◌,
}
use neems_core.Schedules.Model.{
  ApplicationRule, ApplicationRuleDb, CreateApplicationRuleRequest, RuleType, ScheduleLibraryItem,
  day_of_week, default_rule, specific_date, to_api_model,
}
use neems_core.Schedules.Library.{get_library_item}
use neems_core.Prelude.Texts.{same_text}
use neems_core.Prelude.{ℕ, Bool, true, not, none, some, length, find, any, filter, ◌&&◌, ◌==◌}

-- The default rules of a site's templates.
unfoldable pub default_rule_of : Db → ℕ → ApplicationRuleDb → Bool
default_rule_of db site r =
    any (λ t. (t.site_id == site) && (t.id == r.template_id)) db.templates
    && same_text r.rule_type "default"

unfoldable pub clear_defaults : Db → ℕ → RuleType → DbResult Db
unfolding find_template default_rule_of
clear_defaults db template_id default_rule = do
  t ← or_fail (find_template db template_id) not_found
  ok (record db { rules = filter (λ r. not (default_rule_of db t.site_id r)) db.rules })
clear_defaults db template_id day_of_week = ok db
clear_defaults db template_id specific_date = ok db

unfoldable pub create_application_rule :
    Sqlite → Db → ℕ → CreateApplicationRuleRequest → DbResult (ApplicationRule × Db)
unfolding clear_defaults insert_rule to_api_model
create_application_rule q db template_id request =
    clear_defaults db template_id request.rule_type >>= λ db'.
    insert_rule q db' template_id request >>= λ (row, db'').
    or_fail (to_api_model row) invalid_data >>= λ rule. ok (rule, db'')

-- The number of rows deleted.
unfoldable pub delete_application_rule : Db → ℕ → DbResult (ℕ × Db)
delete_application_rule db rule_id = ok (
  length (filter (λ r. r.id == rule_id) db.rules),
  record db { rules = filter (λ r. not (r.id == rule_id)) db.rules },
)

-- The tables after an operation that may fail.
abbrev pub after : {A : Type 0} → Db → DbResult (A × Db) → Db
after db (ok (a, db')) = db'
after db (err e) = db

abbrev pub default_rule_request : CreateApplicationRuleRequest
default_rule_request = record {
  rule_type = default_rule;
  days_of_week = none;
  specific_dates = none;
  override_reason = none;
}

unfoldable pub create_default_schedule : Sqlite → Db → ℕ → DbResult (ScheduleLibraryItem × Db)
unfolding insert_template create_application_rule get_library_item
create_default_schedule q db site =
    insert_template q db site "Default" (some "Default schedule") true >>= λ (template_id, db').
    let db'' = after db' (create_application_rule q db' template_id default_rule_request) in
    get_library_item db'' template_id >>= λ item. ok (item, db'')

unfoldable pub ensure_default_schedule_exists :
    Sqlite → Db → ℕ → DbResult (ScheduleLibraryItem × Db)
unfolding default_of create_default_schedule get_library_item
ensure_default_schedule_exists q db site = elim (find (default_of site) db.templates) [
  | some t ↦ get_library_item db t.id >>= λ item. ok (item, db)
  | none ↦ create_default_schedule q db site
]
