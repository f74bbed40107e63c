-- ===== src/Schedules/Db.antt =====
-- The tables that the schedules live in, with the constraints and triggers of
-- neems-api/migrations/2025-12-14-120000_add_schedule_library_system, and the statements that
-- neems-api/src/orm/schedule_library.rs and application_rule.rs run on them. SQLite is a
-- parameter: the id that it gives a row, its order of names and its clock. A failed operation
-- leaves the tables as they were, since the transaction is rolled back.
pub mod Ensures
use Prim.Native.String.{String}
use neems_core.Schedules.Model.{
  ApplicationRuleDb, Column, CreateApplicationRuleRequest, CreateCommandRequest, ScheduleCommand,
  ScheduleTemplate, ScheduleTemplateEntry, Site, command_type_text, day_of_week, default_rule,
  holds, null, rule_type_text, specific_date,
}
use mathlib.Core.List.{Memᴰ}
use neems_core.Prelude.Texts.{same_text}
use neems_core.Prelude.{
  ℕ, refl, Bool, true, false, not, Option, none, some, List, [], map, is_some, find, any, filter,
  ◌≡◌, ◌&&◌, ◌||◌, ◌∷◌, ◌++◌, ◌==◌,
}
use neems_core.Prelude.Int.{ℤ, pos, ltb_ℤ, leb_ℤ}

pub data DbError : Type 0 where
  not_found unique_violation foreign_key_violation check_violation aborted invalid_data : DbError

pub data DbResult (A : Type 0) : Type 0 where
  ok : A → DbResult A
  err : DbError → DbResult A

infixl 5 ◌>>=◌ ◌>>◌
abbrev pub ◌>>=◌ : {A B : Type 0} → DbResult A → (A → DbResult B) → DbResult B
ok a >>= f = f a
err e >>= f = err e

abbrev pub ◌>>◌ : {B : Type 0} → DbResult (Unit {0}) → DbResult B → DbResult B
m >> k = m >>= λ _. k

-- `return Err(e)` where a test holds.
abbrev pub fail_if : Bool → DbError → DbResult (Unit {0})
fail_if true e = err e
fail_if false e = ok tt

abbrev pub or_fail : {A : Type 0} → Option A → DbError → DbResult A
or_fail none e = err e
or_fail (some a) e = ok a

pub >>=-ok :
    {A B : Type 0} (m : DbResult A) (f : A → DbResult B) (b : B)
    → (m >>= f) ≡ ok b
    → (a : A) × (m ≡ ok a) × (f a ≡ ok b)
>>=-ok (ok a) f b h = (a, refl, h)
>>=-ok (err e) f b h = cc

pub ok_injective : {A : Type 0} (a b : A) → ◌≡◌ {A = DbResult A} (ok a) (ok b) → a ≡ b
ok_injective a b h = cc

pub fail_if-ok : (b : Bool) (e : DbError) (u : Unit {0}) → fail_if b e ≡ ok u → b ≡ false
fail_if-ok true e u h = cc
fail_if-ok false e u h = refl

pub or_fail-ok : {A : Type 0} (o : Option A) (e : DbError) (a : A) → or_fail o e ≡ ok a → o ≡ some a
or_fail-ok none e a h = cc
or_fail-ok (some b) e a h = cc

pub record Db : Type 0 where
  pub sites : List Site
  pub templates : List ScheduleTemplate
  pub entries : List ScheduleTemplateEntry
  pub commands : List ScheduleCommand
  pub rules : List ApplicationRuleDb

pub record Sqlite : Type 0 where
  pub new_id : List ℕ → ℕ
  pub name_le : String → String → Bool
  pub current_timestamp : Db → ℕ

-- What the code relies on: an id that no row of the table has.
pub record IsFresh (q : Sqlite) : Type 0 where
  pub fresh : (ids : List ℕ) → ¬ Memᴰ (q.new_id ids) ids

-- `find(id)` of a template.
unfoldable pub find_template : Db → ℕ → Option ScheduleTemplate
find_template db id = find (λ t. t.id == id) db.templates

unfoldable pub find_site : Db → ℕ → Option Site
find_site db id = find (λ s. s.id == id) db.sites

unfoldable pub find_command : Db → ℕ → Option ScheduleCommand
find_command db id = find (λ c. c.id == id) db.commands

-- The active default templates of a site.
unfoldable pub default_of : ℕ → ScheduleTemplate → Bool
default_of site t = (t.site_id == site) && (t.is_default && t.is_active)

-- INSERT INTO schedule_templates: the trigger, the unique name and the foreign key.
unfoldable pub insert_template : Sqlite → Db → ℕ → String → Option String → Bool → DbResult (ℕ × Db)
unfolding find_site default_of
insert_template q db site name description is_default = do
  fail_if (is_default && any (default_of site) db.templates) aborted
  fail_if (any (λ t. (t.site_id == site) && same_text t.name name) db.templates) unique_violation
  fail_if (not (is_some (find_site db site))) foreign_key_violation
  let id = q.new_id (map (λ t. t.id) db.templates)
  ok (
    id,
    record db {
      templates =
          db.templates
          ++ (record {
            id = id;
            site_id = site;
            name = name;
            description = description;
            is_active = true;
            is_default = is_default;
            created_at = q.current_timestamp db;
          }
              ∷ []);
    },
  )

-- INSERT INTO schedule_commands
unfoldable pub insert_command : Sqlite → Db → ℕ → CreateCommandRequest → DbResult (ℕ × Db)
unfolding find_site command_type_text
insert_command q db site r = do
  fail_if (not (is_some (find_site db site))) foreign_key_violation
  let id = q.new_id (map (λ c. c.id) db.commands)
  ok (
    id,
    record db {
      commands =
          db.commands
          ++ (record {
            id = id;
            site_id = site;
            type_ = command_type_text r.command_type;
            duration_seconds = r.duration_seconds;
            target_soc_percent = r.target_soc_percent;
            is_active = true;
          }
              ∷ []);
    },
  )

-- INSERT INTO schedule_template_entries: the CHECK on the offset and the two foreign keys.
unfoldable pub insert_entry : Sqlite → Db → ℕ → ℤ → ℕ → DbResult Db
unfolding find_template find_command
insert_entry q db template offset command = do
  fail_if (ltb_ℤ offset (pos 0) || leb_ℤ (pos 86400) offset) check_violation
  fail_if (not (is_some (find_template db template))) foreign_key_violation
  fail_if (not (is_some (find_command db command))) foreign_key_violation
  ok (record db {
    entries =
        db.entries
        ++ (record {
          id = q.new_id (map (λ e. e.id) db.entries);
          template_id = template;
          execution_offset_seconds = offset;
          schedule_command_id = command;
          is_active = true;
        }
            ∷ []);
  })

-- DELETE FROM schedule_templates, which cascades to the entries and the rules.
unfoldable pub delete_template : Db → ℕ → Db
delete_template db id = record db {
  templates = filter (λ t. not (t.id == id)) db.templates;
  entries = filter (λ e. not (e.template_id == id)) db.entries;
  rules = filter (λ r. not (r.template_id == id)) db.rules;
}

-- DELETE FROM schedule_commands, which an entry that refers to the row restricts.
unfoldable pub delete_command : Db → ℕ → DbResult Db
delete_command db id = do
  fail_if (any (λ e. e.schedule_command_id == id) db.entries) foreign_key_violation
  ok (record db { commands = filter (λ c. not (c.id == id)) db.commands })

-- The JSON of a request's list, which serde reads back.
abbrev pub write_column : {A : Type 0} → Option A → Column A
write_column none = null
write_column (some a) = holds a

-- The CHECK of application_rules: which columns go with which type.
unfoldable pub columns_fit : CreateApplicationRuleRequest → Bool
columns_fit r = elim r.rule_type [
  | default_rule ↦ not (is_some r.days_of_week) && not (is_some r.specific_dates)
  | day_of_week ↦ is_some r.days_of_week && not (is_some r.specific_dates)
  | specific_date ↦ not (is_some r.days_of_week) && is_some r.specific_dates
]

-- INSERT INTO application_rules
unfoldable pub insert_rule :
    Sqlite → Db → ℕ → CreateApplicationRuleRequest → DbResult (ApplicationRuleDb × Db)
unfolding columns_fit find_template rule_type_text
insert_rule q db template r = do
  fail_if (not (columns_fit r)) check_violation
  fail_if (not (is_some (find_template db template))) foreign_key_violation
  let row : ApplicationRuleDb = record {
    id = q.new_id (map (λ x. x.id) db.rules);
    template_id = template;
    rule_type = rule_type_text r.rule_type;
    days_of_week = write_column r.days_of_week;
    specific_dates = write_column r.specific_dates;
    override_reason = r.override_reason;
    created_at = q.current_timestamp db;
  }
  ok (row, record db { rules = db.rules ++ (row ∷ []) })
