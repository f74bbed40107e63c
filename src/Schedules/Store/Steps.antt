-- ===== src/Schedules/Store/Steps.antt =====
-- neems-api/src/orm/schedule_library.rs and application_rule.rs: every operation leaves the tables
-- well formed.
use Prim.Native.String.{String}
use neems_core.Schedules.Db.{
  Db, IsFresh, Sqlite, aborted, check_violation, default_of, find_command, find_site, find_template,
  foreign_key_violation, insert_command, insert_entry, insert_template, not_found, unique_violation,
}
use neems_core.Schedules.Model.{
  CreateCommandRequest, CreateLibraryItemRequest, ScheduleCommandDto, ScheduleLibraryItem,
}
use neems_core.Schedules.Db.Ensures.{
  Ensures, Ensures-bind, Ensures-check, Ensures-fail_if, Ensures-or_fail,
}
use neems_core.Schedules.Store.Invariant.{
  IsWellFormed, add_command_row-IsWellFormed, add_entry-IsWellFormed, add_template-IsWellFormed,
}
use neems_core.Schedules.Library.{
  add_command, create_commands, create_library_item, validate_command, validate_execution_offsets,
  validate_library_item_name,
}
use neems_core.Prelude.Texts.{same_text}
use neems_core.Prelude.Rows.{find-any}
use neems_core.Prelude.{
  ℕ, Bool, false, not, Option, none, List, [], map, is_some, find, any, ◌&&◌, ◌||◌, ◌∷◌, ◌==◌,
}
use neems_core.Prelude.Int.{ℤ, pos, ltb_ℤ, leb_ℤ}

pub insert_template-IsWellFormed :
    (q : Sqlite) (db : Db) (site : ℕ) (name : String) (description : Option String)
    (is_default : Bool)
    → IsFresh q
    → IsWellFormed db
    → Ensures
        (λ (r : ℕ × Db). IsWellFormed r.1)
        (insert_template q db site name description is_default)
unfolding insert_template
insert_template-IsWellFormed q db site name description is_default f w =
    Ensures-fail_if _ (is_default && any (default_of site) db.templates) aborted _ (λ alone.
      Ensures-fail_if _ (any (λ t. (t.site_id == site) && same_text t.name name) db.templates)
        unique_violation _
        (λ named.
          Ensures-fail_if _ (not (is_some (find_site db site))) foreign_key_violation _ (λ known.
            add_template-IsWellFormed db _ w (f.fresh (map (λ t. t.id) db.templates)) alone)))

pub insert_command-IsWellFormed :
    (q : Sqlite) (db : Db) (site : ℕ) (c : CreateCommandRequest)
    → IsWellFormed db
    → Ensures (λ (r : ℕ × Db). IsWellFormed r.1) (insert_command q db site c)
unfolding insert_command
insert_command-IsWellFormed q db site c w =
    Ensures-fail_if _ (not (is_some (find_site db site))) foreign_key_violation _
      (λ known. add_command_row-IsWellFormed db _ w)

pub insert_entry-IsWellFormed :
    (q : Sqlite) (db : Db) (template : ℕ) (offset : ℤ) (command : ℕ)
    → IsWellFormed db
    → Ensures IsWellFormed (insert_entry q db template offset command)
unfolding insert_entry find_template find_command
insert_entry-IsWellFormed q db template offset command w =
    Ensures-fail_if _ (ltb_ℤ offset (pos 0) || leb_ℤ (pos 86400) offset) check_violation _
      (λ within.
        Ensures-fail_if _ (not (is_some (find (λ t. t.id == template) db.templates)))
          foreign_key_violation _
          (λ has_template.
            Ensures-fail_if _ (not (is_some (find (λ c. c.id == command) db.commands)))
              foreign_key_violation _
              (λ has_command.
                add_entry-IsWellFormed db _ w
                  (find-any (λ t. t.id == template) db.templates has_template)
                  (find-any (λ c. c.id == command) db.commands has_command))))

pub add_command-IsWellFormed :
    (q : Sqlite) (db : Db) (site template : ℕ) (c : CreateCommandRequest)
    → IsWellFormed db
    → Ensures (λ (r : ℕ × Db). IsWellFormed r.1) (add_command q db site template c)
unfolding add_command
add_command-IsWellFormed q db site template c w =
    Ensures-bind (λ (r : ℕ × Db). IsWellFormed r.1) _ (insert_command q db site c) _
      (insert_command-IsWellFormed q db site c w)
      (λ r v.
        Ensures-bind IsWellFormed _ (insert_entry q r.1 template c.execution_offset_seconds r.0) _
          (insert_entry-IsWellFormed q r.1 template c.execution_offset_seconds r.0 v) (λ db'' u. u))

pub create_commands-IsWellFormed :
    (q : Sqlite) (db : Db) (site template : ℕ) (cs : List CreateCommandRequest)
    → IsWellFormed db
    → Ensures
        (λ (r : List ScheduleCommandDto × Db). IsWellFormed r.1)
        (create_commands q db site template cs)
unfolding create_commands
create_commands-IsWellFormed q db site template [] w = w
create_commands-IsWellFormed q db site template (c ∷ cs) w =
    Ensures-check _ (validate_command c) _ (
      Ensures-bind (λ (r : ℕ × Db). IsWellFormed r.1) _ (add_command q db site template c) _
        (add_command-IsWellFormed q db site template c w)
        (λ r v.
          Ensures-bind (λ (s : List ScheduleCommandDto × Db). IsWellFormed s.1) _
            (create_commands q r.1 site template cs) _
            (create_commands-IsWellFormed q r.1 site template cs v) (λ s u. u)))

pub create_library_item-IsWellFormed :
    (q : Sqlite) (db : Db) (site : ℕ) (request : CreateLibraryItemRequest)
    → IsFresh q
    → IsWellFormed db
    → Ensures
        (λ (r : ScheduleLibraryItem × Db). IsWellFormed r.1)
        (create_library_item q db site request)
unfolding create_library_item
create_library_item-IsWellFormed q db site request f w =
    Ensures-check _ (validate_execution_offsets request.commands) _ (
      Ensures-check _ (validate_library_item_name db site request.name none) _ (
        Ensures-bind (λ (r : ℕ × Db). IsWellFormed r.1) _
          (insert_template q db site request.name request.description false) _
          (insert_template-IsWellFormed q db site request.name request.description false f w)
          (λ r v.
            Ensures-bind (λ (s : List ScheduleCommandDto × Db). IsWellFormed s.1) _
              (create_commands q r.1 site r.0 request.commands) _
              (create_commands-IsWellFormed q r.1 site r.0 request.commands v)
              (λ s u. Ensures-or_fail _ (find_template s.1 r.0) not_found _ (λ t e. u)))))
