-- ===== src/Examples/Library.antt =====
-- Examples of the theorems on the library of schedules and its tables.
use Prim.Native.String.{String}
use neems_core.Schedules.Library.Valid.{is_outside, validate_execution_offsets_iff, offset}
use neems_core.Schedules.Model.{
  ScheduleCommand, ScheduleLibraryItem, ScheduleTemplateEntry, command_type_text, ApplicationRuleDb,
  CreateCommandRequest, CreateLibraryItemRequest, ScheduleCommandType, ScheduleTemplate,
  command_type_of,
}
use neems_core.Schedules.Store.Invariant.{IsWellFormed}
use mathlib.Core.List.{Memᴰ, Permᴰ}
use neems_core.Schedules.Store.Requests.{
  Request, create_rule, delete_item, ensure_default, serve_all, serve_all-IsWellFormed,
}
use neems_core.Prelude.Members.{all-mem}
use neems_core.Examples.Calendar.{
  charge_row, base_item, morning, second_of_january, site, summer, summer_item, always, base,
  counting, counting-IsFresh, tables,
}
use neems_core.Schedules.Store.{ensure_default_schedule_exists, default_rule_request}
use neems_core.Schedules.Library.{
  add_command, create_commands, create_library_item, dto_of, has_equal_window, validate_command,
  validate_execution_offsets, validate_library_item_name, entries_of, get_library_item, joined,
  to_dto,
}
use neems_core.Schedules.Db.{
  Db, default_of, find_site, insert_command, insert_entry, insert_template, find_command,
  find_template, ok,
}
use neems_core.Prelude.Sort.{AreSortedBy, insert_by, sort_by}
use neems_core.Schedules.Library.Edit.{clone_library_item, request_of}
use neems_core.Prelude.Texts.{same_text, same_text_iff}
use neems_core.Schedules.Library.Stored.{IsStored}
use neems_core.Schedules.Library.Copies.{clone_library_item-same, contents}
use neems_core.Schedules.Library.Readback.{create_library_item-IsStored}
use neems_core.Schedules.Store.Default.{ensure_default_schedule_exists-twice}
use neems_core.Prelude.{
  ℕ, refl, sym, ap, true, false, none, some, List, [], map, arith, any, ◌≡◌, ◌∙◌, ◌≢◌, ◌↔◌, ◌&&◌,
  ◌∷◌, ◌==◌,
}
use neems_core.Prelude.Int.{pos}

one_default : (a : ApplicationRuleDb) → Memᴰ a tables.rules → a.rule_type ≡ "default" → a ≡ always
one_default a (Memᴰ.head e) h = e
one_default a (Memᴰ.tail (Memᴰ.head e)) h = absurd (
    ground (
      arith,
      (same_text_iff a.rule_type "default").1 h,
      ap (λ (r : ApplicationRuleDb). same_text r.rule_type "default") e,
    ))
one_default a (Memᴰ.tail (Memᴰ.tail m)) h = elim m [ ]

one_base :
    (s : ScheduleTemplate)
    → Memᴰ s tables.templates
    → (s.is_default && s.is_active) ≡ true
    → s ≡ base
one_base s (Memᴰ.head e) h = e
one_base s (Memᴰ.tail (Memᴰ.head e)) h =
    absurd (cc (h, ap (λ (t : ScheduleTemplate). t.is_default && t.is_active) e))
one_base s (Memᴰ.tail (Memᴰ.tail m)) h = elim m [ ]

tables-IsWellFormed : IsWellFormed tables
tables-IsWellFormed = record {
  template_key = refl;
  rule_template =
      λ r m. all-mem (λ x. any (λ t. t.id == x.template_id) tables.templates) tables.rules r refl m;
  entry_template = λ e m.
      all-mem (λ x. any (λ t. t.id == x.template_id) tables.templates) tables.entries e refl m;
  entry_command = λ e m.
      all-mem (λ x. any (λ c. c.id == x.schedule_command_id) tables.commands) tables.entries e refl
        m;
  one_default_rule =
      λ a b s t ma mb ms mt ea eb same da dbb. one_default a ma da ∙ sym (one_default b mb dbb);
  one_default_template = λ s t ms mt same ds dt. one_base s ms ds ∙ sym (one_base t mt dt);
}

abbrev requests : List Request
requests = create_rule 2 default_rule_request ∷ delete_item 2 ∷ ensure_default 1 ∷ []

serve_all-IsWellFormed_example : IsWellFormed (serve_all counting tables requests)
serve_all-IsWellFormed_example =
    serve_all-IsWellFormed counting tables requests counting-IsFresh tables-IsWellFormed

abbrev evening : CreateCommandRequest
evening = record {
  execution_offset_seconds = pos 72000;
  command_type = ScheduleCommandType.discharge;
  duration_seconds = none;
  target_soc_percent = none;
}

abbrev stored_command : ℕ → String → CreateCommandRequest → ScheduleCommand
stored_command id text c = record {
  id = id;
  site_id = 1;
  type_ = text;
  duration_seconds = c.duration_seconds;
  target_soc_percent = c.target_soc_percent;
  is_active = true;
}

abbrev stored_entry : ℕ → ℕ → CreateCommandRequest → ScheduleTemplateEntry
stored_entry id command c = record {
  id = id;
  template_id = 3;
  execution_offset_seconds = c.execution_offset_seconds;
  schedule_command_id = command;
  is_active = true;
}

abbrev morning_request : CreateCommandRequest
morning_request = record {
  execution_offset_seconds = pos 3600;
  command_type = ScheduleCommandType.charge;
  duration_seconds = some (pos 600);
  target_soc_percent = some (pos 80);
}

abbrev third : String → ScheduleTemplate
third name = record {
  id = 3;
  site_id = 1;
  name = name;
  description = none;
  is_active = true;
  is_default = false;
  created_at = 100;
}

abbrev winter_tables : Db
winter_tables = record {
  sites = site ∷ [];
  templates = base ∷ summer ∷ third "Winter" ∷ [];
  entries = morning ∷ stored_entry 8 10 evening ∷ stored_entry 9 11 morning_request ∷ [];
  commands =
      charge_row
      ∷ stored_command 10 "discharge" evening
      ∷ stored_command 11 "charge" morning_request
      ∷ [];
  rules = always ∷ second_of_january ∷ [];
}

abbrev winter_item : ScheduleLibraryItem
winter_item = record {
  id = 3;
  site_id = 1;
  name = "Winter";
  description = none;
  commands = dto_of 10 evening ∷ dto_of 11 morning_request ∷ [];
  created_at = 100;
}

abbrev winter_request : CreateLibraryItemRequest
winter_request = record {
  name = "Winter";
  description = none;
  commands = evening ∷ morning_request ∷ [];
}

winter-created :
    create_library_item counting tables 1 winter_request ≡ ok (winter_item, winter_tables)
unfolding create_library_item validate_execution_offsets validate_library_item_name insert_template
    create_commands validate_command add_command insert_command insert_entry find_template find_site
    find_command default_of command_type_text has_equal_window sort_by insert_by dto_of
winter-created = refl

create_library_item-IsStored_example : IsStored tables 1 winter_request winter_item winter_tables
create_library_item-IsStored_example =
    create_library_item-IsStored counting tables 1 winter_request winter_item winter_tables
      counting-IsFresh tables-IsWellFormed winter-created

abbrev copy_item : ScheduleLibraryItem
copy_item = record {
  id = 3;
  site_id = 1;
  name = "Copy";
  description = none;
  commands = dto_of 10 morning_request ∷ [];
  created_at = 100;
}

abbrev copy_tables : Db
copy_tables = record {
  sites = site ∷ [];
  templates = base ∷ summer ∷ third "Copy" ∷ [];
  entries = morning ∷ stored_entry 8 10 morning_request ∷ [];
  commands = charge_row ∷ stored_command 10 "charge" morning_request ∷ [];
  rules = always ∷ second_of_january ∷ [];
}

copy-created : clone_library_item counting tables 2 "Copy" none ≡ ok (copy_item, copy_tables)
unfolding clone_library_item request_of get_library_item entries_of joined to_dto command_type_of
    create_library_item validate_execution_offsets validate_library_item_name insert_template
    create_commands validate_command add_command insert_command insert_entry find_template find_site
    find_command default_of command_type_text has_equal_window sort_by insert_by dto_of
copy-created = refl

summer-read : get_library_item tables 2 ≡ ok summer_item
unfolding get_library_item entries_of joined to_dto command_type_of find_template find_command
    sort_by insert_by
summer-read = refl

clone_library_item-same_example :
    (map contents copy_item.commands ≡ map contents summer_item.commands)
    × (get_library_item copy_tables 2 ≡ ok summer_item)
    × ((back : ScheduleLibraryItem) × (get_library_item copy_tables 3 ≡ ok back)
        × (back.name ≡ "Copy")
        × (back.description ≡ none)
        × (back.site_id ≡ 1)
        × Permᴰ (map contents back.commands) (map contents summer_item.commands))
clone_library_item-same_example =
    clone_library_item-same counting tables 2 "Copy" none summer_item copy_item copy_tables
      counting-IsFresh tables-IsWellFormed summer-read copy-created

validate_execution_offsets_iff_example :
    (validate_execution_offsets (evening ∷ morning_request ∷ []) ≡ ok tt) ↔ (
      ((c : CreateCommandRequest) → Memᴰ c (evening ∷ morning_request ∷ []) → is_outside c ≡ false)
      × AreSortedBy (λ x y. x ≢ y) (map offset (evening ∷ morning_request ∷ [])))
validate_execution_offsets_iff_example =
    validate_execution_offsets_iff (evening ∷ morning_request ∷ [])

default-ensured : ensure_default_schedule_exists counting tables 1 ≡ ok (base_item, tables)
unfolding ensure_default_schedule_exists default_of get_library_item entries_of joined to_dto
    command_type_of find_template find_command sort_by insert_by
default-ensured = refl

ensure_default_schedule_exists-twice_example :
    ensure_default_schedule_exists counting tables 1 ≡ ok (base_item, tables)
ensure_default_schedule_exists-twice_example =
    ensure_default_schedule_exists-twice counting tables 1 base_item tables default-ensured
