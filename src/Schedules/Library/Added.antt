-- ===== src/Schedules/Library/Added.antt =====
-- neems-api/src/orm/schedule_library.rs: what the insertion of one command adds to the rows of its item.
use neems_core.Schedules.Db.{
  check_violation, find_site, find_template, foreign_key_violation, ok, find_command, IsFresh,
  Sqlite, insert_command, insert_entry, Db, ◌>>=◌,
}
use neems_core.Schedules.Model.{
  CreateCommandRequest, ScheduleCommand, ScheduleCommandDto, ScheduleCommandType,
  ScheduleTemplateEntry, command_type_of, command_type_text,
}
use mathlib.Core.List.{append-nil, Memᴰ}
use neems_core.Prelude.Collect.{filter-append, filter_map-agree, filter_map-append, filter_map}
use neems_core.Schedules.Library.Edit.{request_of}
use neems_core.Schedules.Library.{joined, add_command, entries_of, to_dto}
use neems_core.Schedules.Db.Ensures.{Ensures-bind, Ensures-fail_if, Ensures}
use neems_core.Schedules.Store.Invariant.{
  add_command_row-IsWellFormed, add_entry-IsWellFormed, IsWellFormed,
}
use neems_core.Prelude.Rows.{find-any, any-own, find-append, find-appended, fresh-any}
use neems_core.Prelude.Members.{mem-filter}
use mathlib.Core.Path.{subst}
use neems_core.Prelude.{
  ℕ, refl, sym, ap, Bool, true, false, not, Option, some, List, [], map, arith, is_some, any,
  filter, ◌≡◌, ◌∙◌, ◌≢◌, ◌&&◌, ◌||◌, ◌∷◌, ◌++◌, ◌==◌,
}
use neems_core.Prelude.Int.{pos, ltb_ℤ, leb_ℤ}

-- A joined row that reads as the command that was asked for.
abbrev pub Stores : ScheduleTemplateEntry × ScheduleCommand → CreateCommandRequest → Type 0
Stores p c =
    (d : ScheduleCommandDto) × (to_dto p ≡ some d)
    × (request_of d ≡ c)
    × (p.0.execution_offset_seconds ≡ c.execution_offset_seconds)

-- The rows read as the commands, one by one.
abbrev pub StoreAll :
    List (ScheduleTemplateEntry × ScheduleCommand) → List CreateCommandRequest → Type 0
StoreAll [] [] = Unit {0}
StoreAll [] (c ∷ cs) = ⊥
StoreAll (p ∷ ps) [] = ⊥
StoreAll (p ∷ ps) (c ∷ cs) = Stores p c × StoreAll ps cs

command_type_of-text : (t : ScheduleCommandType) → command_type_of (command_type_text t) ≡ some t
unfolding command_type_of command_type_text
command_type_of-text ScheduleCommandType.charge = refl
command_type_of-text ScheduleCommandType.discharge = refl
command_type_of-text ScheduleCommandType.trickle_charge = refl

-- The two rows of one command.
abbrev command_row : ℕ → ℕ → CreateCommandRequest → ScheduleCommand
command_row id site c = record {
  id = id;
  site_id = site;
  type_ = command_type_text c.command_type;
  duration_seconds = c.duration_seconds;
  target_soc_percent = c.target_soc_percent;
  is_active = true;
}

Stores-rows :
    (e : ScheduleTemplateEntry) (id site : ℕ) (c : CreateCommandRequest)
    → e.execution_offset_seconds ≡ c.execution_offset_seconds
    → Stores (e, command_row id site c) c
unfolding to_dto request_of
Stores-rows e id site c h = (
  record {
    id = e.id;
    execution_offset_seconds = e.execution_offset_seconds;
    command_type = c.command_type;
    duration_seconds = c.duration_seconds;
    target_soc_percent = c.target_soc_percent;
  },
  rw (command_type_of-text c.command_type) refl,
  rw h refl,
  h,
)

-- An insertion of a command and its entry adds one pair of rows to the item, which reads as the
-- command, and leaves the other items as they are.
pub record Added (db : Db) (template : ℕ) (c : CreateCommandRequest) (db' : Db) : Type 0 where
  pub sound : IsWellFormed db'
  pub same_templates : db'.templates ≡ db.templates
  pub rows :
      (p : ScheduleTemplateEntry × ScheduleCommand) × (entries_of db' template
        ≡ entries_of db template ++ (p ∷ []))
      × Stores p c
  pub others : (other : ℕ) → other ≢ template → entries_of db' other ≡ entries_of db other

one-row :
    {A B : Type 0} (f : A → Option B) (p : A → Bool) (a : A) (b : B)
    → p a ≡ true
    → f a ≡ some b
    → filter_map f (filter p (a ∷ [])) ≡ b ∷ []
one-row f p a b h k = rw (h, k) refl

no-row :
    {A B : Type 0} (f : A → Option B) (p : A → Bool) (a : A)
    → p a ≡ false
    → filter_map f (filter p (a ∷ [])) ≡ []
no-row f p a h = rw h refl

-- The tables with one more command and one more entry.
abbrev with_rows : Db → ScheduleCommand → ScheduleTemplateEntry → Db
with_rows db k e = record db {
  commands = db.commands ++ (k ∷ []);
  entries = db.entries ++ (e ∷ []);
}

module _ (db : Db) (template site id : ℕ) (c : CreateCommandRequest) (e : ScheduleTemplateEntry)
    (w : IsWellFormed db) (new : ¬ Memᴰ id (map (λ k. k.id) db.commands))
    (of_command : e.schedule_command_id ≡ id) where
  after_rows : Db
  after_rows = with_rows db (command_row id site c) e

  joined-old : (a : ScheduleTemplateEntry) → Memᴰ a db.entries → joined after_rows a ≡ joined db a
  unfolding joined find_command after_rows
  joined-old a m =
      rw
        (find-append (λ k. k.id == a.schedule_command_id) db.commands (command_row id site c ∷ [])
          (w.entry_command a m))
        refl

  joined-new : joined after_rows e ≡ some (e, command_row id site c)
  unfolding joined find_command after_rows
  joined-new =
      rw
        (
          of_command,
          find-appended (λ k. k.id == id) db.commands (command_row id site c)
              (fresh-any (λ k. k.id) db.commands id new) (ground arith),
        )
        refl

  entries_of-with_rows :
      (t : ℕ)
      → entries_of after_rows t
        ≡ entries_of db t
          ++ filter_map
              (joined after_rows)
              (filter (λ a. (a.template_id == t) && a.is_active) (e ∷ []))
  unfolding entries_of after_rows
  entries_of-with_rows t =
      let mine : ScheduleTemplateEntry → Bool = λ a. (a.template_id == t) && a.is_active in
      rw (filter-append mine db.entries (e ∷ [])) (
        filter_map-append (joined after_rows) (filter mine db.entries) (filter mine (e ∷ []))
        ∙ ap (λ l. l ++ filter_map (joined after_rows) (filter mine (e ∷ [])))
            (filter_map-agree (joined after_rows) (joined db) (filter mine db.entries)
              (λ a m. joined-old a (mem-filter mine db.entries a m).1)))

  Added-rows :
      any (λ t. t.id == template) db.templates ≡ true
      → e.template_id ≡ template
      → e.is_active ≡ true
      → e.execution_offset_seconds ≡ c.execution_offset_seconds
      → Added db template c after_rows
  unfolding after_rows
  Added-rows known of_template live offset = record {
    sound =
        add_entry-IsWellFormed
          (record db { commands = db.commands ++ (command_row id site c ∷ []) }) e
          (add_command_row-IsWellFormed db (command_row id site c) w) (rw of_template known)
          (rw of_command
            (any-own (λ k. k.id == id) db.commands (command_row id site c) (ground arith)));
    same_templates = refl;
    rows = ((e, command_row id site c), own, Stores-rows e id site c offset);
    others = λ other differs.
        entries_of-with_rows other
        ∙ (ap (λ l. entries_of db other ++ l)
              (no-row (joined after_rows) (λ a. (a.template_id == other) && a.is_active) e
                (ground (arith, of_template, differs)))
            ∙ append-nil (entries_of db other));
  }
    where
      own :
          entries_of after_rows template
          ≡ entries_of db template ++ ((e, command_row id site c) ∷ [])
      own =
          entries_of-with_rows template
          ∙ ap (λ l. entries_of db template ++ l)
              (one-row (joined after_rows) (λ a. (a.template_id == template) && a.is_active) e
                (e, command_row id site c) (ground (arith, of_template, live)) joined-new)

pub add_command-Added :
    (q : Sqlite) (db : Db) (site template : ℕ) (c : CreateCommandRequest)
    → IsFresh q
    → IsWellFormed db
    → Ensures (λ (r : ℕ × Db). Added db template c r.1) (add_command q db site template c)
unfolding add_command insert_command insert_entry find_template after_rows
add_command-Added q db site template c f w =
    Ensures-bind (λ (r : ℕ × Db). r ≡ (id, db1)) _ (insert_command q db site c) _
      (Ensures-fail_if _ (not (is_some (find_site db site))) foreign_key_violation _
        (λ known. refl))
      (λ r e.
        subst
          (λ p.
            Ensures (λ (s : ℕ × Db). Added db template c s.1)
              (insert_entry q p.1 template c.execution_offset_seconds p.0 >>= λ d. ok (p.0, d)))
          (sym e)
          (Ensures-bind (λ d. Added db template c d) _
            (insert_entry q db1 template c.execution_offset_seconds id) _ inserted (λ d a. a)))
  where
    id : ℕ
    id = q.new_id (map (λ k. k.id) db.commands)

    db1 : Db
    db1 = record db { commands = db.commands ++ (command_row id site c ∷ []) }

    inserted :
        Ensures
          (λ d. Added db template c d)
          (insert_entry q db1 template c.execution_offset_seconds id)
    inserted =
        Ensures-fail_if _
          (ltb_ℤ c.execution_offset_seconds (pos 0) || leb_ℤ (pos 86400) c.execution_offset_seconds)
          check_violation _
          (λ within.
            Ensures-fail_if _ (not (is_some (find_template db1 template))) foreign_key_violation _
              (λ known.
                Ensures-fail_if _ (not (is_some (find_command db1 id))) foreign_key_violation _
                  (λ has.
                    Added-rows db template site id c _ w (f.fresh (map (λ k. k.id) db.commands))
                      refl (find-any (λ t. t.id == template) db.templates known) refl refl refl)))
