-- ===== src/Schedules/Library/Stored.antt =====
-- neems-api/src/orm/schedule_library.rs: a created item is read back as it was asked for.
use neems_core.Schedules.Db.{find_template, ok, Db, IsFresh, Sqlite}
use neems_core.Schedules.Library.Added.{Added, StoreAll, Stores, add_command-Added}
use neems_core.Schedules.Model.{
  CreateLibraryItemRequest, ScheduleLibraryItem, ScheduleTemplate, CreateCommandRequest,
  ScheduleCommand, ScheduleCommandDto, ScheduleTemplateEntry,
}
use neems_core.Schedules.Db.Ensures.{Ensures, Ensures-bind, Ensures-check}
use neems_core.Schedules.Store.Invariant.{IsWellFormed}
use neems_core.Schedules.Library.{
  get_library_item, add_command, create_commands, dto_of, entries_of, offset_le, to_dto,
  validate_command,
}
use mathlib.Core.List.{Memᴰ, append-nil, append_assoc}
use neems_core.Prelude.Collect.{collect}
use neems_core.Prelude.Sort.{insert_by, sort_by}
use neems_core.Schedules.Library.Edit.{request_of}
use neems_core.Prelude.Rows.{fresh-any}
use mathlib.Core.Path.{subst}
use neems_core.Prelude.{
  ℕ, refl, sym, ap, inl, inr, Bool, true, false, some, List, [], map, arith, Bool-cases, any,
  filter, ◌≡◌, ◌∙◌, ◌≢◌, ◌&&◌, ◌∷◌, ◌++◌, ◌==◌,
}
use neems_core.Prelude.Int.{leb_ℤ}

-- What the insertion of all the commands does.
pub record AddedAll (db : Db) (template : ℕ) (cs : List CreateCommandRequest)
    (dtos : List ScheduleCommandDto) (db' : Db) : Type 0 where
  pub sound : IsWellFormed db'
  pub same_templates : db'.templates ≡ db.templates
  pub rows :
      (ps : List (ScheduleTemplateEntry × ScheduleCommand)) × (entries_of db' template
        ≡ entries_of db template ++ ps)
      × StoreAll ps cs
  pub others : (other : ℕ) → other ≢ template → entries_of db' other ≡ entries_of db other
  pub shown : map request_of dtos ≡ cs

request_of-dto_of : (id : ℕ) (c : CreateCommandRequest) → request_of (dto_of id c) ≡ c
unfolding request_of dto_of
request_of-dto_of id c = refl

AddedAll-cons :
    (db db1 db2 : Db) (template id : ℕ) (c : CreateCommandRequest) (cs : List CreateCommandRequest)
    (dtos : List ScheduleCommandDto)
    → Added db template c db1
    → AddedAll db1 template cs dtos db2
    → AddedAll db template (c ∷ cs) (dto_of id c ∷ dtos) db2
AddedAll-cons db db1 db2 template id c cs dtos a b =
    let (p, e, s) = a.rows in
    let (ps, es, ss) = b.rows in
    record {
      sound = b.sound;
      same_templates = b.same_templates ∙ a.same_templates;
      rows = (
        p ∷ ps,
        es ∙ (ap (λ l. l ++ ps) e ∙ append_assoc (entries_of db template) (p ∷ []) ps),
        (s, ss),
      );
      others = λ other n. b.others other n ∙ a.others other n;
      shown = rw (b.shown, request_of-dto_of id c) refl;
    }

pub create_commands-AddedAll :
    (q : Sqlite) (db : Db) (site template : ℕ) (cs : List CreateCommandRequest)
    → IsFresh q
    → IsWellFormed db
    → Ensures
        (λ (r : List ScheduleCommandDto × Db). AddedAll db template cs r.0 r.1)
        (create_commands q db site template cs)
unfolding create_commands
create_commands-AddedAll q db site template [] f w = record {
  sound = w;
  same_templates = refl;
  rows = ([], sym (append-nil (entries_of db template)), tt);
  others = λ other n. refl;
  shown = refl;
}
create_commands-AddedAll q db site template (c ∷ cs) f w = Ensures-check _ (validate_command c) _ (
    Ensures-bind (λ (r : ℕ × Db). Added db template c r.1) _ (add_command q db site template c) _
      (add_command-Added q db site template c f w)
      (λ r v.
        Ensures-bind (λ (s : List ScheduleCommandDto × Db). AddedAll r.1 template cs s.0 s.1) _
          (create_commands q r.1 site template cs) _
          (create_commands-AddedAll q r.1 site template cs f v.sound)
          (λ s u. AddedAll-cons db r.1 s.1 template r.0 c cs s.0 v u)))

-- The order by offset of the requests.
abbrev pub request_le : CreateCommandRequest → CreateCommandRequest → Bool
request_le a b = leb_ℤ a.execution_offset_seconds b.execution_offset_seconds

insert_by-StoreAll :
    (p : ScheduleTemplateEntry × ScheduleCommand) (c : CreateCommandRequest)
    (ps : List (ScheduleTemplateEntry × ScheduleCommand)) (cs : List CreateCommandRequest)
    → Stores p c
    → StoreAll ps cs
    → StoreAll (insert_by offset_le p ps) (insert_by request_le c cs)
unfolding insert_by
insert_by-StoreAll p c [] [] s ss = (s, tt)
insert_by-StoreAll p c (a ∷ ps) (b ∷ cs) s ss =
    let same : request_le c b ≡ offset_le p a = rw (s.3, ss.0.3) refl in
    elim (Bool-cases (offset_le p a)) [
      | inl t ↦ rw (same, t) (s, ss)
      | inr f ↦ rw (same, f) (ss.0, insert_by-StoreAll p c ps cs s ss.1)
    ]
insert_by-StoreAll p c [] (b ∷ cs) s ss = elim ss [ ]
insert_by-StoreAll p c (a ∷ ps) [] s ss = elim ss [ ]

pub sort_by-StoreAll :
    (ps : List (ScheduleTemplateEntry × ScheduleCommand)) (cs : List CreateCommandRequest)
    → StoreAll ps cs
    → StoreAll (sort_by offset_le ps) (sort_by request_le cs)
unfolding sort_by
sort_by-StoreAll [] [] ss = tt
sort_by-StoreAll (p ∷ ps) (c ∷ cs) ss =
    insert_by-StoreAll p c (sort_by offset_le ps) (sort_by request_le cs) ss.0
      (sort_by-StoreAll ps cs ss.1)
sort_by-StoreAll [] (c ∷ cs) ss = elim ss [ ]
sort_by-StoreAll (p ∷ ps) [] ss = elim ss [ ]

pub collect-StoreAll :
    (ps : List (ScheduleTemplateEntry × ScheduleCommand)) (cs : List CreateCommandRequest)
    → StoreAll ps cs
    → (ds : List ScheduleCommandDto) × (collect to_dto ps ≡ some ds) × (map request_of ds ≡ cs)
collect-StoreAll [] [] ss = ([], refl, refl)
collect-StoreAll (p ∷ ps) (c ∷ cs) ss =
    let (d, e, r, o) = ss.0 in
    let (ds, es, rs) = collect-StoreAll ps cs ss.1 in (d ∷ ds, rw (e, es) refl, rw (r, rs) refl)
collect-StoreAll [] (c ∷ cs) ss = elim ss [ ]
collect-StoreAll (p ∷ ps) [] ss = elim ss [ ]

-- The item read back: the fields of the request, and its commands in the order of their offsets.
pub record IsStored (db : Db) (site : ℕ) (request : CreateLibraryItemRequest)
    (item : ScheduleLibraryItem) (db' : Db) : Type 0 where
  pub created : map request_of item.commands ≡ request.commands
  pub back : ScheduleLibraryItem
  pub reads : get_library_item db' item.id ≡ ok back
  pub same_site : back.site_id ≡ site
  pub same_name : back.name ≡ request.name
  pub same_description : back.description ≡ request.description
  pub same_commands : map request_of back.commands ≡ sort_by request_le request.commands
  pub others :
      (other : ℕ) (t : ScheduleTemplate)
      → find_template db other ≡ some t
      → get_library_item db' other ≡ get_library_item db other

-- A new item has no rows yet.
pub entries_of-fresh :
    (db : Db) (id : ℕ)
    → IsWellFormed db
    → ¬ Memᴰ id (map (λ t. t.id) db.templates)
    → entries_of db id ≡ []
unfolding entries_of
entries_of-fresh db id w fresh = rw (none_of db.entries (λ e m. m)) refl
  where
    none_of :
        (es : List ScheduleTemplateEntry)
        → ((e : ScheduleTemplateEntry) → Memᴰ e es → Memᴰ e db.entries)
        → filter (λ e. (e.template_id == id) && e.is_active) es ≡ []
    none_of [] k = refl
    none_of (e ∷ es) k =
        let known = w.entry_template e (k e (Memᴰ.head refl)) in
        let differs : (e.template_id == id) ≡ false = elim (Bool-cases (e.template_id == id)) [
          | inl t ↦
              let same : e.template_id ≡ id = ground arith in
              absurd (
                cc (
                  subst (λ n. any (λ x. x.id == n) db.templates ≡ true) same known,
                  fresh-any (λ x. x.id) db.templates id fresh,
                ))
          | inr f ↦ f
        ] in
        rw differs (none_of es (λ a m. k a (Memᴰ.tail m)))
