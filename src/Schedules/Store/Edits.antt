-- ===== src/Schedules/Store/Edits.antt =====
-- neems-api/src/orm/schedule_library.rs: an update, a deletion and a clone leave the tables well
-- formed.
use Prim.Native.String.{String}
use neems_core.Schedules.Db.{
  Db, IsFresh, Sqlite, delete_command, find_site, find_template, foreign_key_violation, not_found,
  unique_violation,
}
use neems_core.Schedules.Model.{
  CreateCommandRequest, ScheduleLibraryItem, ScheduleTemplate, ScheduleTemplateEntry,
  UpdateLibraryItemRequest,
}
use neems_core.Schedules.Db.Ensures.{
  Ensures, Ensures-bind, Ensures-check, Ensures-fail_if, Ensures-of, Ensures-or_fail,
}
use neems_core.Schedules.Store.Changes.{
  IsUpdate, delete_command_row-IsWellFormed, delete_template-IsWellFormed,
  update_templates-IsWellFormed,
}
use neems_core.Schedules.Store.Invariant.{IsWellFormed, filter_entries-IsWellFormed}
use neems_core.Schedules.Library.{add_command, get_library_item, validate_execution_offsets}
use neems_core.Schedules.Store.Steps.{add_command-IsWellFormed, create_library_item-IsWellFormed}
use neems_core.Schedules.Library.Edit.{
  request_of, add_commands, clone_library_item, commands_from_site_defaults,
  create_library_item_from_site_defaults, delete_entries, delete_library_item, replace_commands,
  set_description, set_name, update_commands, update_description, update_library_item, update_name,
  validate_commands, validate_new_name,
}
use neems_core.Prelude.Texts.{same_text}
use neems_core.Prelude.{
  ℕ, refl, not, Option, none, some, List, [], map, if-keeps, any, filter, ◌≡◌, ◌&&◌, ◌∷◌, ◌==◌,
  if◌then◌else◌,
}
use neems_core.Prelude.Int.{ℤ}

delete_command-IsWellFormed :
    (db : Db) (id : ℕ) → IsWellFormed db → Ensures IsWellFormed (delete_command db id)
unfolding delete_command
delete_command-IsWellFormed db id w =
    Ensures-fail_if _ (any (λ e. e.schedule_command_id == id) db.entries) foreign_key_violation _
      (λ free. delete_command_row-IsWellFormed db id w free)

delete_entries-IsWellFormed :
    (db : Db) (es : List ScheduleTemplateEntry)
    → IsWellFormed db
    → Ensures IsWellFormed (delete_entries db es)
unfolding delete_entries
delete_entries-IsWellFormed db [] w = w
delete_entries-IsWellFormed db (e ∷ es) w =
    let cut : Db = record db { entries = filter (λ x. not (x.id == e.id)) db.entries } in
    Ensures-bind IsWellFormed _ (delete_command cut e.schedule_command_id)
      (λ db'. delete_entries db' es)
      (delete_command-IsWellFormed cut e.schedule_command_id
        (filter_entries-IsWellFormed db (λ x. not (x.id == e.id)) w))
      (λ db' v. delete_entries-IsWellFormed db' es v)

add_commands-IsWellFormed :
    (q : Sqlite) (db : Db) (site template : ℕ) (cs : List CreateCommandRequest)
    → IsWellFormed db
    → Ensures IsWellFormed (add_commands q db site template cs)
unfolding add_commands
add_commands-IsWellFormed q db site template [] w = w
add_commands-IsWellFormed q db site template (c ∷ cs) w =
    Ensures-bind (λ (r : ℕ × Db). IsWellFormed r.1) _ (add_command q db site template c) _
      (add_command-IsWellFormed q db site template c w)
      (λ r v. add_commands-IsWellFormed q r.1 site template cs v)

replace_commands-IsWellFormed :
    (q : Sqlite) (db : Db) (site item_id : ℕ) (cs : List CreateCommandRequest)
    → IsWellFormed db
    → Ensures IsWellFormed (replace_commands q db site item_id cs)
unfolding replace_commands
replace_commands-IsWellFormed q db site item_id cs w =
    Ensures-check _ (validate_execution_offsets cs) _ (
      Ensures-check _ (validate_commands cs) _ (
        Ensures-bind IsWellFormed _
          (delete_entries db (filter (λ e. e.template_id == item_id) db.entries)) _
          (delete_entries-IsWellFormed db (filter (λ e. e.template_id == item_id) db.entries) w)
          (λ db' v. add_commands-IsWellFormed q db' site item_id cs v)))

-- An update of the row of one id.
row-IsUpdate :
    (id : ℕ) (g : ScheduleTemplate → ScheduleTemplate)
    → IsUpdate g
    → IsUpdate (λ x. if x.id == id then g x else x)
row-IsUpdate id g u = record {
  same_id = λ t.
      if-keeps (λ (x : ScheduleTemplate). x.id ≡ t.id) (t.id == id) (λ _. u.same_id t) (λ _. refl);
  same_site = λ t.
      if-keeps (λ (x : ScheduleTemplate). x.site_id ≡ t.site_id) (t.id == id) (λ _. u.same_site t)
        (λ _. refl);
  same_default = λ t.
      if-keeps (λ (x : ScheduleTemplate). x.is_default ≡ t.is_default) (t.id == id)
        (λ _. u.same_default t) (λ _. refl);
  same_active = λ t.
      if-keeps (λ (x : ScheduleTemplate). x.is_active ≡ t.is_active) (t.id == id)
        (λ _. u.same_active t) (λ _. refl);
}

update_name-IsWellFormed :
    (db : Db) (t : ScheduleTemplate) (name : Option String)
    → IsWellFormed db
    → Ensures IsWellFormed (update_name db t name)
unfolding update_name set_name
update_name-IsWellFormed db t none w = w
update_name-IsWellFormed db t (some name) w =
    Ensures-fail_if _
      (any (λ x. (x.site_id == t.site_id) && (same_text x.name name && not (x.id == t.id)))
        db.templates)
      unique_violation _
      (λ free.
        update_templates-IsWellFormed db _
          (row-IsUpdate t.id (λ x. record x { name = name })
            (record {
              same_id = λ x. refl;
              same_site = λ x. refl;
              same_default = λ x. refl;
              same_active = λ x. refl;
            }))
          w)

update_description-IsWellFormed :
    (db : Db) (t : ScheduleTemplate) (text : Option String)
    → IsWellFormed db
    → IsWellFormed (update_description db t text)
unfolding update_description set_description
update_description-IsWellFormed db t none w = w
update_description-IsWellFormed db t (some text) w =
    update_templates-IsWellFormed db _
      (row-IsUpdate t.id (λ x. record x { description = some text })
        (record {
          same_id = λ x. refl;
          same_site = λ x. refl;
          same_default = λ x. refl;
          same_active = λ x. refl;
        }))
      w

update_commands-IsWellFormed :
    (q : Sqlite) (db : Db) (t : ScheduleTemplate) (item_id : ℕ)
    (cs : Option (List CreateCommandRequest))
    → IsWellFormed db
    → Ensures IsWellFormed (update_commands q db t item_id cs)
unfolding update_commands
update_commands-IsWellFormed q db t item_id none w = w
update_commands-IsWellFormed q db t item_id (some cs) w =
    replace_commands-IsWellFormed q db t.site_id item_id cs w

pub update_library_item-IsWellFormed :
    (q : Sqlite) (db : Db) (item_id : ℕ) (request : UpdateLibraryItemRequest)
    → IsWellFormed db
    → Ensures
        (λ (r : ScheduleLibraryItem × Db). IsWellFormed r.1)
        (update_library_item q db item_id request)
unfolding update_library_item
update_library_item-IsWellFormed q db item_id request w =
    Ensures-or_fail _ (find_template db item_id) not_found _ (λ t e.
      Ensures-check _ (validate_new_name db t item_id request.name) _ (
        Ensures-bind IsWellFormed _ (update_name db t request.name) _
          (update_name-IsWellFormed db t request.name w)
          (λ db' v.
            Ensures-bind IsWellFormed _
              (update_commands q (update_description db' t request.description) t item_id
                request.commands)
              _
              (update_commands-IsWellFormed q (update_description db' t request.description) t
                item_id request.commands
                (update_description-IsWellFormed db' t request.description v))
              (λ db'' u.
                Ensures-bind (λ i. Unit {0}) _ (get_library_item db'' item_id) _
                  (Ensures-of _ _ (λ i p. tt)) (λ item x. u)))))

pub delete_library_item-IsWellFormed :
    (db : Db) (item_id : ℕ)
    → IsWellFormed db
    → Ensures (λ (r : ℕ × Db). IsWellFormed r.1) (delete_library_item db item_id)
unfolding delete_library_item
delete_library_item-IsWellFormed db item_id w =
    Ensures-or_fail _ (find_template db item_id) not_found _ (λ t e.
      Ensures-fail_if _ t.is_default foreign_key_violation _
        (λ plain. delete_template-IsWellFormed db item_id w))

pub clone_library_item-IsWellFormed :
    (q : Sqlite) (db : Db) (item_id : ℕ) (name : String) (description : Option String)
    → IsFresh q
    → IsWellFormed db
    → Ensures
        (λ (r : ScheduleLibraryItem × Db). IsWellFormed r.1)
        (clone_library_item q db item_id name description)
unfolding clone_library_item
clone_library_item-IsWellFormed q db item_id name description f w =
    Ensures-bind (λ i. Unit {0}) _ (get_library_item db item_id) _ (Ensures-of _ _ (λ i p. tt))
      (λ original x.
        create_library_item-IsWellFormed q db original.site_id
          (record {
            name = name;
            description = description;
            commands = map request_of original.commands;
          })
          f w)

pub create_library_item_from_site_defaults-IsWellFormed :
    (q : Sqlite) (db : Db) (site : ℕ) (name : String) (description : Option String) (soc : ℤ)
    → IsFresh q
    → IsWellFormed db
    → Ensures
        (λ (r : ScheduleLibraryItem × Db). IsWellFormed r.1)
        (create_library_item_from_site_defaults q db site name description soc)
unfolding create_library_item_from_site_defaults
create_library_item_from_site_defaults-IsWellFormed q db site name description soc f w =
    Ensures-or_fail _ (find_site db site) not_found _ (λ s e.
      Ensures-bind (λ i. Unit {0}) _ (commands_from_site_defaults s soc) _
        (Ensures-of _ _ (λ i p. tt))
        (λ commands x.
          create_library_item-IsWellFormed q db site
            (record { name = name; description = description; commands = commands }) f w))
