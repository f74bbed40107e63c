-- ===== src/Schedules/Library/Readback.antt =====
-- neems-api/src/orm/schedule_library.rs: `get_library_item` after `create_library_item`.
use neems_core.Schedules.Db.{
  aborted, default_of, find_command, find_site, foreign_key_violation, insert_template, not_found,
  or_fail, unique_violation, IsFresh, Db, Sqlite, find_template, ok, ◌>>=◌,
}
use neems_core.Schedules.Model.{
  ScheduleCommandDto, CreateCommandRequest, CreateLibraryItemRequest, ScheduleCommand,
  ScheduleLibraryItem, ScheduleTemplate, ScheduleTemplateEntry,
}
use neems_core.Schedules.Library.Added.{StoreAll}
use neems_core.Schedules.Library.Stored.{
  IsStored, create_commands-AddedAll, entries_of-fresh, AddedAll, collect-StoreAll, request_le,
  sort_by-StoreAll,
}
use neems_core.Schedules.Library.{
  create_commands, create_library_item, joined, validate_execution_offsets,
  validate_library_item_name, entries_of, get_library_item, offset_le,
}
use neems_core.Schedules.Library.Edit.{request_of}
use neems_core.Prelude.Sort.{sort_by}
use neems_core.Schedules.Store.Invariant.{add_template-IsWellFormed, IsWellFormed}
use mathlib.Core.List.{Memᴰ}
use neems_core.Prelude.Rows.{find-any, find-append, find-appended, fresh-any}
use mathlib.Core.Path.{subst}
use neems_core.Schedules.Db.Ensures.{
  Ensures, Ensures-bind, Ensures-check, Ensures-fail_if, Ensures-or_fail, ok-Ensures,
}
use neems_core.Prelude.Texts.{same_text}
use neems_core.Prelude.{
  ℕ, refl, sym, ap, true, false, not, none, some, List, [], map, arith, is_some, find, any, ◌≡◌,
  ◌∙◌, ◌≢◌, ◌&&◌, ◌∷◌, ◌++◌, ◌==◌,
}

-- The row of a new item.
abbrev template_row : Sqlite → Db → ℕ → CreateLibraryItemRequest → ScheduleTemplate
template_row q db site request = record {
  id = q.new_id (map (λ t. t.id) db.templates);
  site_id = site;
  name = request.name;
  description = request.description;
  is_active = true;
  is_default = false;
  created_at = q.current_timestamp db;
}

abbrev with_template : Sqlite → Db → ℕ → CreateLibraryItemRequest → Db
with_template q db site request = record db {
  templates = db.templates ++ (template_row q db site request ∷ []);
}

-- The item of a template, of which the rows store the commands, reads.
reads-StoreAll :
    (d : Db) (t : ScheduleTemplate) (ps : List (ScheduleTemplateEntry × ScheduleCommand))
    (cs : List CreateCommandRequest)
    → find_template d t.id ≡ some t
    → entries_of d t.id ≡ ps
    → StoreAll ps cs
    → (back : ScheduleLibraryItem) × (get_library_item d t.id ≡ ok back)
      × (back.site_id ≡ t.site_id)
      × (back.name ≡ t.name)
      × (back.description ≡ t.description)
      × (map request_of back.commands ≡ sort_by request_le cs)
unfolding get_library_item
reads-StoreAll d t ps cs found rows ss =
    let (ds, e, same) =
      collect-StoreAll (sort_by offset_le ps) (sort_by request_le cs) (sort_by-StoreAll ps cs ss) in
    (
      record {
        id = t.id;
        site_id = t.site_id;
        name = t.name;
        description = t.description;
        commands = ds;
        created_at = t.created_at;
      },
      rw (found, rows, e) refl,
      refl,
      refl,
      refl,
      same,
    )

-- An item reads the same where its template and its rows are the same.
reads-same :
    (d db : Db) (id : ℕ)
    → find_template d id ≡ find_template db id
    → entries_of d id ≡ entries_of db id
    → get_library_item d id ≡ get_library_item db id
unfolding get_library_item
reads-same d db id found rows = rw (found, rows) refl

module _ (q : Sqlite) (db : Db) (site : ℕ) (request : CreateLibraryItemRequest) (f : IsFresh q)
    (w : IsWellFormed db) (t : ScheduleTemplate) (is_row : t ≡ template_row q db site request)
    (dtos : List ScheduleCommandDto) (d : Db)
    (all_added : AddedAll (with_template q db site request) t.id request.commands dtos d) where
  new_id : ¬ Memᴰ t.id (map (λ x. x.id) db.templates)
  new_id =
      subst (λ x. ¬ Memᴰ x.id (map (λ y. y.id) db.templates)) (sym is_row)
        (f.fresh (map (λ x. x.id) db.templates))

  found_old :
      (other : ℕ) (s : ScheduleTemplate)
      → find_template db other ≡ some s
      → find_template d other ≡ find_template db other
  unfolding find_template
  found_old other s e =
      let there = find-any (λ x. x.id == other) db.templates (rw e refl) in
      ap (λ l. find (λ x. x.id == other) l) all_added.same_templates
      ∙ find-append (λ x. x.id == other) db.templates _ there

  found_new : find_template d t.id ≡ some t
  unfolding find_template
  found_new =
      ap (λ l. find (λ x. x.id == t.id) l) all_added.same_templates
      ∙ (ap (λ x. find (λ y. y.id == t.id) (db.templates ++ (x ∷ []))) (sym is_row)
          ∙ find-appended (λ x. x.id == t.id) db.templates t
              (fresh-any (λ x. x.id) db.templates t.id new_id) (ground arith))

  old_differs : (other : ℕ) (s : ScheduleTemplate) → find_template db other ≡ some s → other ≢ t.id
  unfolding find_template
  old_differs other s e same =
      let there = find-any (λ x. x.id == other) db.templates (rw e refl) in
      cc (
        subst (λ n. any (λ x. x.id == n) db.templates ≡ true) same there,
        fresh-any (λ x. x.id) db.templates t.id new_id,
      )

  no_rows_yet : entries_of (with_template q db site request) t.id ≡ []
  unfolding entries_of joined find_command
  no_rows_yet = entries_of-fresh db t.id w new_id

  read_back :
      (back : ScheduleLibraryItem) × (get_library_item d t.id ≡ ok back)
      × (back.site_id ≡ t.site_id)
      × (back.name ≡ t.name)
      × (back.description ≡ t.description)
      × (map request_of back.commands ≡ sort_by request_le request.commands)
  read_back =
      let (ps, e, ss) = all_added.rows in
      reads-StoreAll d t ps request.commands found_new (e ∙ ap (λ l. l ++ ps) no_rows_yet) ss

  stored :
      IsStored db site request
        (record {
          id = t.id;
          site_id = t.site_id;
          name = t.name;
          description = t.description;
          commands = dtos;
          created_at = t.created_at;
        })
        d
  unfolding entries_of joined find_command
  stored =
      let (item, reads, site_is, name_is, text_is, commands_are) = read_back in
      record {
        created = all_added.shown;
        back = item;
        reads = reads;
        same_site = site_is ∙ ap (λ x. x.site_id) is_row;
        same_name = name_is ∙ ap (λ x. x.name) is_row;
        same_description = text_is ∙ ap (λ x. x.description) is_row;
        same_commands = commands_are;
        others = λ other s e.
            reads-same d db other (found_old other s e)
              (all_added.others other (old_differs other s e));
      }

insert_template-row :
    (q : Sqlite) (db : Db) (site : ℕ) (request : CreateLibraryItemRequest)
    → Ensures
        (λ (r : ℕ × Db). r ≡ ((template_row q db site request).id, with_template q db site request))
        (insert_template q db site request.name request.description false)
unfolding insert_template
insert_template-row q db site request =
    Ensures-fail_if p (false && any (default_of site) db.templates) aborted _ (λ alone.
      Ensures-fail_if p
        (any (λ t. (t.site_id == site) && same_text t.name request.name) db.templates)
        unique_violation _
        (λ free.
          Ensures-fail_if p (not (is_some (find_site db site))) foreign_key_violation _
            (λ known. refl)))
  where
    p : ℕ × Db → Type 0
    p r = r ≡ ((template_row q db site request).id, with_template q db site request)

created-IsStored :
    (q : Sqlite) (db : Db) (site : ℕ) (request : CreateLibraryItemRequest)
    → IsFresh q
    → IsWellFormed db
    → Ensures
        (λ (r : ScheduleLibraryItem × Db). IsStored db site request r.0 r.1)
        (create_library_item q db site request)
unfolding create_library_item
created-IsStored q db site request f w =
    Ensures-check _ (validate_execution_offsets request.commands) _ (
      Ensures-check _ (validate_library_item_name db site request.name none) _ (
        Ensures-bind (λ (r : ℕ × Db). r ≡ (row.id, with_template q db site request)) _
          (insert_template q db site request.name request.description false) _
          (insert_template-row q db site request)
          (λ r e.
            subst
              (λ (p : ℕ × Db).
                Ensures (λ (r : ScheduleLibraryItem × Db). IsStored db site request r.0 r.1)
                  (create_commands q p.1 site p.0 request.commands >>= λ (created, d).
                    or_fail (find_template d p.0) not_found >>= λ t. ok (
                      record {
                        id = t.id;
                        site_id = t.site_id;
                        name = t.name;
                        description = t.description;
                        commands = created;
                        created_at = t.created_at;
                      },
                      d,
                    )))
              (sym e)
              (Ensures-bind
                (λ (s : List ScheduleCommandDto × Db).
                  AddedAll (with_template q db site request) row.id request.commands s.0 s.1)
                _ (create_commands q (with_template q db site request) site row.id request.commands)
                _
                (create_commands-AddedAll q (with_template q db site request) site row.id
                  request.commands f sound)
                (λ s a. Ensures-or_fail _ (find_template s.1 row.id) not_found _ (λ t g.
                  let is_row : t ≡ row =
                    cc (g, found_new q db site request f w row refl s.0 s.1 a) in
                  stored q db site request f w t is_row s.0 s.1 (
                    subst
                      (λ n. AddedAll (with_template q db site request) n request.commands s.0 s.1)
                      (ap (λ x. x.id) (sym is_row)) a)))))))
  where
    row : ScheduleTemplate
    row = template_row q db site request

    sound : IsWellFormed (with_template q db site request)
    sound = add_template-IsWellFormed db row w (f.fresh (map (λ t. t.id) db.templates)) refl

-- A created library item is read back as it was asked for: under its id `get_library_item` finds
-- the site, the name and the description of the request, and its commands in the order of their
-- offsets; the answer of `create_library_item` holds the same commands in the order of the
-- request; and every item that was there reads as before. The tables are well formed, and SQLite
-- gives new rows new ids.
pub create_library_item-IsStored :
    (q : Sqlite) (db : Db) (site : ℕ) (request : CreateLibraryItemRequest)
    (item : ScheduleLibraryItem) (db' : Db)
    → IsFresh q
    → IsWellFormed db
    → create_library_item q db site request ≡ ok (item, db')
    → IsStored db site request item db'
create_library_item-IsStored q db site request item db' f w h =
    ok-Ensures (λ (r : ScheduleLibraryItem × Db). IsStored db site request r.0 r.1)
      (create_library_item q db site request) (item, db') (created-IsStored q db site request f w) h
