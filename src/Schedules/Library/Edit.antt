-- ===== src/Schedules/Library/Edit.antt =====
-- neems-api/src/orm/schedule_library.rs: the items of the library updated, deleted, cloned, and
-- created from the defaults of a site.
use Prim.Native.String.{String}
use neems_core.Schedules.Db.{
  Db, DbResult, Sqlite, delete_command, delete_template, fail_if, find_site, find_template,
  foreign_key_violation, invalid_data, not_found, ok, or_fail, unique_violation, ◌>>=◌, ◌>>◌,
}
use neems_core.Schedules.Model.{
  CreateCommandRequest, ScheduleCommandDto, ScheduleCommandType, ScheduleLibraryItem,
  ScheduleTemplate, ScheduleTemplateEntry, Site, UpdateLibraryItemRequest,
}
use neems_core.Schedules.Library.{
  add_command, create_library_item, get_library_item, validate_command, validate_execution_offsets,
  validate_library_item_name,
}
use neems_core.Prelude.Texts.{same_text}
use neems_core.Prelude.{
  ℕ, not, Option, none, some, List, [], map, any, filter, ◌&&◌, ◌∷◌, ◌==◌, if◌then◌else◌,
}
use neems_core.Prelude.Int.{ℤ, pos, leb_ℤ, ◌-ℤ◌, ◌*ℤ◌}

-- The deletion of an item's entries, each with its command.
unfoldable pub delete_entries : Db → List ScheduleTemplateEntry → DbResult Db
unfolding delete_command
delete_entries db [] = ok db
delete_entries db (e ∷ es) =
    delete_command (record db { entries = filter (λ x. not (x.id == e.id)) db.entries })
      e.schedule_command_id
    >>= λ db'. delete_entries db' es

unfoldable pub validate_commands : List CreateCommandRequest → DbResult (Unit {0})
unfolding validate_command
validate_commands [] = ok tt
validate_commands (c ∷ cs) = validate_command c >> validate_commands cs

unfoldable pub add_commands : Sqlite → Db → ℕ → ℕ → List CreateCommandRequest → DbResult Db
unfolding add_command
add_commands q db site template [] = ok db
add_commands q db site template (c ∷ cs) =
    add_command q db site template c >>= λ (id, db'). add_commands q db' site template cs

unfoldable pub replace_commands : Sqlite → Db → ℕ → ℕ → List CreateCommandRequest → DbResult Db
unfolding validate_execution_offsets validate_commands delete_entries add_commands
replace_commands q db site item_id commands =
    validate_execution_offsets commands
    >> (validate_commands commands
        >> (delete_entries db (filter (λ e. e.template_id == item_id) db.entries) >>= λ db'.
            add_commands q db' site item_id commands))

-- UPDATE schedule_templates SET name: the unique name.
unfoldable pub set_name : Db → ScheduleTemplate → String → DbResult Db
set_name db t name = do
  fail_if
      (any (λ x. (x.site_id == t.site_id) && (same_text x.name name && not (x.id == t.id)))
        db.templates)
      unique_violation
  ok (record db {
    templates = map (λ x. if x.id == t.id then record x { name = name } else x) db.templates;
  })

unfoldable pub set_description : Db → ScheduleTemplate → String → Db
set_description db t text = record db {
  templates =
      map (λ x. if x.id == t.id then record x { description = some text } else x) db.templates;
}

-- The optional parts of an update.
unfoldable pub update_name : Db → ScheduleTemplate → Option String → DbResult Db
unfolding set_name
update_name db t none = ok db
update_name db t (some name) = set_name db t name

unfoldable pub update_description : Db → ScheduleTemplate → Option String → Db
unfolding set_description
update_description db t none = db
update_description db t (some text) = set_description db t text

unfoldable pub update_commands :
    Sqlite → Db → ScheduleTemplate → ℕ → Option (List CreateCommandRequest) → DbResult Db
unfolding replace_commands
update_commands q db t item_id none = ok db
update_commands q db t item_id (some commands) = replace_commands q db t.site_id item_id commands

abbrev pub validate_new_name : Db → ScheduleTemplate → ℕ → Option String → DbResult (Unit {0})
validate_new_name db t item_id none = ok tt
validate_new_name db t item_id (some name) =
    validate_library_item_name db t.site_id name (some item_id)

unfoldable pub update_library_item :
    Sqlite → Db → ℕ → UpdateLibraryItemRequest → DbResult (ScheduleLibraryItem × Db)
unfolding find_template update_name update_description update_commands get_library_item
update_library_item q db item_id request = or_fail (find_template db item_id) not_found >>= λ t.
    validate_new_name db t item_id request.name
    >> (update_name db t request.name >>= λ db'.
        update_commands q (update_description db' t request.description) t item_id request.commands
        >>= λ db''. get_library_item db'' item_id >>= λ item. ok (item, db''))

unfoldable pub delete_library_item : Db → ℕ → DbResult (ℕ × Db)
unfolding find_template delete_template
delete_library_item db item_id = do
  t ← or_fail (find_template db item_id) not_found
  fail_if t.is_default foreign_key_violation
  ok (1, delete_template db item_id)

-- The request that copies a command.
unfoldable pub request_of : ScheduleCommandDto → CreateCommandRequest
request_of c = record {
  execution_offset_seconds = c.execution_offset_seconds;
  command_type = c.command_type;
  duration_seconds = c.duration_seconds;
  target_soc_percent = c.target_soc_percent;
}

unfoldable pub clone_library_item :
    Sqlite → Db → ℕ → String → Option String → DbResult (ScheduleLibraryItem × Db)
unfolding get_library_item create_library_item request_of
clone_library_item q db item_id new_name new_description = do
  original ← get_library_item db item_id
  create_library_item q db original.site_id (record {
    name = new_name;
    description = new_description;
    commands = map request_of original.commands;
  })

-- `commands_from_site_defaults`, with the error of its caller. The products are those of `i32`
-- values that do not overflow.
unfoldable pub commands_from_site_defaults : Site → ℤ → DbResult (List CreateCommandRequest)
commands_from_site_defaults site end_of_charge_soc_percent = do
  off_peak_start ← or_fail site.off_peak_start_minutes invalid_data
  off_peak_end ← or_fail site.off_peak_end_minutes invalid_data
  peak_start ← or_fail site.peak_revenue_start_minutes invalid_data
  peak_end ← or_fail site.peak_revenue_end_minutes invalid_data
  fail_if (leb_ℤ off_peak_end off_peak_start) invalid_data
  fail_if (leb_ℤ peak_end peak_start) invalid_data
  ok (
      record {
        execution_offset_seconds = off_peak_start *ℤ pos 60;
        command_type = ScheduleCommandType.charge;
        duration_seconds = some ((off_peak_end -ℤ off_peak_start) *ℤ pos 60);
        target_soc_percent = some end_of_charge_soc_percent;
      }
      ∷ record {
        execution_offset_seconds = peak_start *ℤ pos 60;
        command_type = ScheduleCommandType.discharge;
        duration_seconds = some ((peak_end -ℤ peak_start) *ℤ pos 60);
        target_soc_percent = none;
      }
      ∷ [])

unfoldable pub create_library_item_from_site_defaults :
    Sqlite → Db → ℕ → String → Option String → ℤ → DbResult (ScheduleLibraryItem × Db)
unfolding find_site commands_from_site_defaults create_library_item
create_library_item_from_site_defaults q db site_id name description end_of_charge_soc_percent = do
  site ← or_fail (find_site db site_id) not_found
  commands ← commands_from_site_defaults site end_of_charge_soc_percent
  create_library_item q db site_id
      (record { name = name; description = description; commands = commands })
