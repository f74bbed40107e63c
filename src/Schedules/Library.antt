-- ===== src/Schedules/Library.antt =====
-- neems-api/src/orm/schedule_library.rs: the validations of a schedule's commands, and the items
-- of the library created, read, updated, deleted and cloned.
pub mod Valid
pub mod Added
pub mod Edit
pub mod Readback
pub mod Copies
pub mod Stored
use Prim.Native.String.{String}
use neems_core.Schedules.Model.{
  CreateCommandRequest, CreateLibraryItemRequest, ScheduleCommand, ScheduleCommandDto,
  ScheduleLibraryItem, ScheduleTemplate, ScheduleTemplateEntry, command_type_of,
}
use neems_core.Schedules.Db.{
  ◌>>=◌, ◌>>◌, Db, DbResult, Sqlite, fail_if, find_command, find_template, insert_command,
  insert_entry, insert_template, invalid_data, not_found, ok, or_fail, unique_violation,
}
use neems_core.Prelude.Collect.{collect, filter_map}
use neems_core.Prelude.Texts.{same_text}
use neems_core.Prelude.Sort.{sort_by}
use mathlib.Core.Option
use neems_core.Prelude.{
  ℕ, Bool, true, false, not, Option, none, some, List, [], map, any, filter, ◌&&◌, ◌||◌, ◌∷◌, ◌==◌,
}
use neems_core.Prelude.Int.{ℤ, pos, ltb_ℤ, leb_ℤ, eqb_ℤ}

-- `validate_library_item_name`
unfoldable pub validate_library_item_name : Db → ℕ → String → Option ℕ → DbResult (Unit {0})
validate_library_item_name db site name exclude_id =
    fail_if
      (any
        (λ t.
          (t.site_id == site)
          && (same_text t.name name
              && (t.is_active && elim exclude_id [ none ↦ true | some id ↦ not (t.id == id) ])))
        db.templates)
      unique_violation

-- `offsets.windows(2)` has a pair of equals.
unfoldable pub has_equal_window : List ℤ → Bool
has_equal_window [] = false
has_equal_window (a ∷ []) = false
has_equal_window (a ∷ b ∷ rest) = eqb_ℤ a b || has_equal_window (b ∷ rest)

unfoldable pub validate_execution_offsets : List CreateCommandRequest → DbResult (Unit {0})
unfolding has_equal_window
validate_execution_offsets commands = do
  fail_if
      (any
        (λ c.
          ltb_ℤ c.execution_offset_seconds (pos 0) || leb_ℤ (pos 86400) c.execution_offset_seconds)
        commands)
      invalid_data
  let offsets = sort_by leb_ℤ (map (λ c. c.execution_offset_seconds) commands)
  fail_if (has_equal_window offsets) invalid_data

unfoldable pub validate_command : CreateCommandRequest → DbResult (Unit {0})
validate_command c = do
  fail_if (elim c.duration_seconds [ none ↦ false | some d ↦ leb_ℤ d (pos 0) ]) invalid_data
  fail_if
      (elim c.target_soc_percent [
        | none ↦ false
        | some s ↦ not (leb_ℤ (pos 0) s && leb_ℤ s (pos 100))
      ])
      invalid_data

-- The insertion of one command and of its entry.
unfoldable pub add_command : Sqlite → Db → ℕ → ℕ → CreateCommandRequest → DbResult (ℕ × Db)
unfolding insert_command insert_entry
add_command q db site template c = insert_command q db site c >>= λ (cmd_id, db').
    insert_entry q db' template c.execution_offset_seconds cmd_id >>= λ db''. ok (cmd_id, db'')

-- The DTO of a created command.
unfoldable pub dto_of : ℕ → CreateCommandRequest → ScheduleCommandDto
dto_of id c = record {
  id = id;
  execution_offset_seconds = c.execution_offset_seconds;
  command_type = c.command_type;
  duration_seconds = c.duration_seconds;
  target_soc_percent = c.target_soc_percent;
}

-- The loop of `create_library_item` over the commands.
unfoldable pub create_commands :
    Sqlite → Db → ℕ → ℕ → List CreateCommandRequest → DbResult (List ScheduleCommandDto × Db)
unfolding validate_command add_command dto_of
create_commands q db site template [] = ok ([], db)
create_commands q db site template (c ∷ cs) =
    validate_command c
    >> (add_command q db site template c >>= λ (id, db').
        create_commands q db' site template cs >>= λ (dtos, db''). ok (dto_of id c ∷ dtos, db''))

unfoldable pub create_library_item :
    Sqlite → Db → ℕ → CreateLibraryItemRequest → DbResult (ScheduleLibraryItem × Db)
unfolding validate_execution_offsets validate_library_item_name insert_template create_commands
    find_template
create_library_item q db site request =
    validate_execution_offsets request.commands
    >> (validate_library_item_name db site request.name none
        >> (insert_template q db site request.name request.description false
            >>= λ (template_id, db').
                create_commands q db' site template_id request.commands >>= λ (created, db'').
                or_fail (find_template db'' template_id) not_found >>= λ t. ok (
                  record {
                    id = t.id;
                    site_id = t.site_id;
                    name = t.name;
                    description = t.description;
                    commands = created;
                    created_at = t.created_at;
                  },
                  db'',
                )))

-- The inner join of an entry with its command, and the mapping to a DTO, whose id is the entry's.
unfoldable pub joined :
    Db → ScheduleTemplateEntry → Option (ScheduleTemplateEntry × ScheduleCommand)
unfolding find_command
joined db e = Option.map (λ c. (e, c)) (find_command db e.schedule_command_id)

unfoldable pub to_dto : ScheduleTemplateEntry × ScheduleCommand → Option ScheduleCommandDto
unfolding command_type_of
to_dto (e, c) =
    Option.map
      (λ t. record {
        id = e.id;
        execution_offset_seconds = e.execution_offset_seconds;
        command_type = t;
        duration_seconds = c.duration_seconds;
        target_soc_percent = c.target_soc_percent;
      })
      (command_type_of c.type_)

-- ORDER BY execution_offset_seconds
abbrev pub offset_le :
    ScheduleTemplateEntry × ScheduleCommand → ScheduleTemplateEntry × ScheduleCommand → Bool
offset_le (a, c) (b, d) = leb_ℤ a.execution_offset_seconds b.execution_offset_seconds

unfoldable pub entries_of : Db → ℕ → List (ScheduleTemplateEntry × ScheduleCommand)
unfolding joined
entries_of db item_id =
    filter_map (joined db) (filter (λ e. (e.template_id == item_id) && e.is_active) db.entries)

unfoldable pub get_library_item : Db → ℕ → DbResult ScheduleLibraryItem
unfolding find_template entries_of to_dto
get_library_item db item_id = or_fail (find_template db item_id) not_found >>= λ t.
    or_fail (collect to_dto (sort_by offset_le (entries_of db item_id))) invalid_data
    >>= λ commands. ok (record {
      id = t.id;
      site_id = t.site_id;
      name = t.name;
      description = t.description;
      commands = commands;
      created_at = t.created_at;
    })

-- Each template's item, until one fails.
unfoldable pub get_each : Db → List ScheduleTemplate → DbResult (List ScheduleLibraryItem)
unfolding get_library_item
get_each db [] = ok []
get_each db (t ∷ ts) = get_library_item db t.id >>= λ i. get_each db ts >>= λ is. ok (i ∷ is)

unfoldable pub get_library_items_for_site : Sqlite → Db → ℕ → DbResult (List ScheduleLibraryItem)
unfolding get_each
get_library_items_for_site q db site = get_each db (
    sort_by (λ a b. q.name_le a.name b.name)
      (filter (λ t. (t.site_id == site) && t.is_active) db.templates))
