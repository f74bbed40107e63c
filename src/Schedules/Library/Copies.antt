-- ===== src/Schedules/Library/Copies.antt =====
-- neems-api/src/orm/schedule_library.rs: what a clone, the site's defaults and a deletion do.
use mathlib.Core.List.{Permᴰ}
use mathlib.Core.Path.{subst}
use Prim.Native.String.{String}
use neems_core.Prelude.Sort.{sort_by, sort_by-perm}
use neems_core.Schedules.Library.Stored.{request_le}
use neems_core.Schedules.Db.{
  >>=-ok, find_template, not_found, or_fail, or_fail-ok, Db, IsFresh, Sqlite, ok,
}
use neems_core.Schedules.Model.{
  CreateCommandRequest, ScheduleCommandDto, ScheduleCommandType, ScheduleTemplate,
  CreateLibraryItemRequest, ScheduleLibraryItem,
}
use neems_core.Schedules.Store.Invariant.{IsWellFormed}
use neems_core.Schedules.Library.Edit.{clone_library_item, request_of}
use neems_core.Schedules.Library.{create_library_item, get_library_item}
use neems_core.Schedules.Library.Readback.{create_library_item-IsStored}
use neems_core.Prelude.{ℕ, refl, sym, ap, Option, some, List, [], ◌∷◌, map, ◌≡◌, ◌∙◌}
use neems_core.Prelude.Int.{ℤ}

clone_of :
    (q : Sqlite) (db : Db) (item_id : ℕ) (name : String) (description : Option String)
    (original : ScheduleLibraryItem)
    → get_library_item db item_id ≡ ok original
    → clone_library_item q db item_id name description
      ≡ create_library_item q db original.site_id (record {
        name = name;
        description = description;
        commands = map request_of original.commands;
      })
unfolding clone_library_item
clone_of q db item_id name description original h = rw h refl

template_of :
    (db : Db) (id : ℕ) (item : ScheduleLibraryItem)
    → get_library_item db id ≡ ok item
    → (t : ScheduleTemplate) × (find_template db id ≡ some t)
unfolding get_library_item
template_of db id item h =
    let (t, e, rest) = >>=-ok (or_fail (find_template db id) not_found) _ item h in
    (t, or_fail-ok (find_template db id) not_found t e)

-- What a command does, without its id.
abbrev pub contents : ScheduleCommandDto → ℤ × ScheduleCommandType × Option ℤ × Option ℤ
contents c = (c.execution_offset_seconds, c.command_type, c.duration_seconds, c.target_soc_percent)

abbrev asked : CreateCommandRequest → ℤ × ScheduleCommandType × Option ℤ × Option ℤ
asked r = (r.execution_offset_seconds, r.command_type, r.duration_seconds, r.target_soc_percent)

asked-request_of : (cs : List ScheduleCommandDto) → map asked (map request_of cs) ≡ map contents cs
unfolding request_of
asked-request_of [] = refl
asked-request_of (c ∷ cs) = ap (λ l. contents c ∷ l) (asked-request_of cs)

asked-perm : {rs ss : List CreateCommandRequest} → Permᴰ rs ss → Permᴰ (map asked rs) (map asked ss)
asked-perm Permᴰ.nil = Permᴰ.nil
asked-perm (Permᴰ.cons e p) = Permᴰ.cons (ap asked e) (asked-perm p)
asked-perm (Permᴰ.swap d e) = Permᴰ.swap (ap asked d) (ap asked e)
asked-perm (Permᴰ.trans p q) = Permᴰ.trans (asked-perm p) (asked-perm q)

-- What is read in the order of the offsets is a rearrangement of what was copied.
read_back :
    (cs back : List ScheduleCommandDto)
    → map request_of back ≡ sort_by request_le (map request_of cs)
    → Permᴰ (map contents back) (map contents cs)
read_back cs back e =
    let p = asked-perm (sort_by-perm request_le (map request_of cs)) in
    subst (λ l. Permᴰ (map contents back) l) (asked-request_of cs)
      (subst (λ l. Permᴰ l (map asked (map request_of cs)))
        (sym (ap (map asked) e) ∙ asked-request_of back) p)

-- A clone has the commands of the original, in their order, with the same offsets, types, durations
-- and targets. It is read back at its site under the new name and description, with these commands
-- in some order; the original reads as before. The tables are well formed, and SQLite gives new rows new ids.
pub clone_library_item-same :
    (q : Sqlite) (db : Db) (item_id : ℕ) (name : String) (description : Option String)
    (original copy : ScheduleLibraryItem) (db' : Db)
    → IsFresh q
    → IsWellFormed db
    → get_library_item db item_id ≡ ok original
    → clone_library_item q db item_id name description ≡ ok (copy, db')
    → (map contents copy.commands ≡ map contents original.commands)
      × (get_library_item db' item_id ≡ ok original)
      × ((back : ScheduleLibraryItem) × (get_library_item db' copy.id ≡ ok back)
          × (back.name ≡ name)
          × (back.description ≡ description)
          × (back.site_id ≡ original.site_id)
          × Permᴰ (map contents back.commands) (map contents original.commands))
clone_library_item-same q db item_id name description original copy db' f w ho hc =
    let r : CreateLibraryItemRequest = record {
      name = name;
      description = description;
      commands = map request_of original.commands;
    } in
    let s =
      create_library_item-IsStored q db original.site_id r copy db' f w
        (sym (clone_of q db item_id name description original ho) ∙ hc) in
    let (t, found) = template_of db item_id original ho in
    (
      sym (asked-request_of copy.commands)
          ∙ ap (map asked) s.created
          ∙ asked-request_of original.commands,
      s.others item_id t found ∙ ho,
      (
        s.back,
        s.reads,
        s.same_name,
        s.same_description,
        s.same_site,
        read_back original.commands s.back.commands s.same_commands,
      ),
    )
