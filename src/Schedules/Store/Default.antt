-- ===== src/Schedules/Store/Default.antt =====
-- neems-api/src/orm/schedule_library.rs: `ensure_default_schedule_exists` twice.
use neems_core.Schedules.Db.{
  DbResult, aborted, check_violation, columns_fit, default_of, err, find_site, find_template,
  foreign_key_violation, insert_rule, insert_template, invalid_data, not_found, ok,
  unique_violation, Db, Sqlite, ◌>>=◌,
}
use neems_core.Schedules.Model.{
  ApplicationRule, ApplicationRuleDb, RuleType, ScheduleLibraryItem, ScheduleTemplate, day_of_week,
  default_rule, specific_date, to_api_model, CreateApplicationRuleRequest,
}
use neems_core.Schedules.Store.{
  clear_defaults, create_default_schedule, default_rule_request, ensure_default_schedule_exists,
  after, create_application_rule,
}
use neems_core.Schedules.Db.Ensures.{
  Ensures, Ensures-bind, Ensures-fail_if, Ensures-of, Ensures-or_fail, ok-Ensures,
}
use neems_core.Prelude.Rows.{find-appended, none-any}
use neems_core.Prelude.Members.{find-none}
use neems_core.Schedules.Library.{get_library_item}
use neems_core.Prelude.Texts.{same_text}
use mathlib.Core.Path.{subst}
use neems_core.Prelude.{
  ℕ, refl, sym, ap, true, not, Option, none, some, [], map, arith, is_some, find, any, ◌≡◌, ◌∙◌,
  ◌&&◌, ◌∷◌, ◌++◌, ◌==◌,
}

-- The templates stay where an operation returns those that there were.
after-templates :
    {A : Type 0} (db : Db) (r : DbResult (A × Db))
    → Ensures (λ (p : A × Db). p.1.templates ≡ db.templates) r
    → (after db r).templates ≡ db.templates
after-templates db (ok (a, d)) h = h
after-templates db (err e) h = refl

clear_defaults-templates :
    (db : Db) (id : ℕ) (t : RuleType)
    → Ensures (λ (d : Db). d.templates ≡ db.templates) (clear_defaults db id t)
unfolding clear_defaults
clear_defaults-templates db id default_rule =
    Ensures-or_fail (λ (d : Db). d.templates ≡ db.templates) (find_template db id) not_found _
      (λ t e. refl)
clear_defaults-templates db id day_of_week = refl
clear_defaults-templates db id specific_date = refl

insert_rule-templates :
    (q : Sqlite) (db d : Db) (id : ℕ) (r : CreateApplicationRuleRequest)
    → d.templates ≡ db.templates
    → Ensures (λ (p : ApplicationRuleDb × Db). p.1.templates ≡ db.templates) (insert_rule q d id r)
unfolding insert_rule
insert_rule-templates q db d id r h =
    Ensures-fail_if p (not (columns_fit r)) check_violation _ (λ fits.
      Ensures-fail_if p (not (is_some (find_template d id))) foreign_key_violation _ (λ known. h))
  where
    p : ApplicationRuleDb × Db → Type 0
    p x = x.1.templates ≡ db.templates

create_application_rule-templates :
    (q : Sqlite) (db : Db) (id : ℕ) (r : CreateApplicationRuleRequest)
    → Ensures
        (λ (p : ApplicationRule × Db). p.1.templates ≡ db.templates)
        (create_application_rule q db id r)
unfolding create_application_rule
create_application_rule-templates q db id r =
    Ensures-bind (λ (d : Db). d.templates ≡ db.templates) _ (clear_defaults db id r.rule_type) _
      (clear_defaults-templates db id r.rule_type)
      (λ d h.
        Ensures-bind (λ (p : ApplicationRuleDb × Db). p.1.templates ≡ db.templates) _
          (insert_rule q d id r) _ (insert_rule-templates q db d id r h)
          (λ p k.
            Ensures-or_fail (λ (x : ApplicationRule × Db). x.1.templates ≡ db.templates)
              (to_api_model p.0) invalid_data _ (λ rule e. k)))

-- What the tables hold once a site has its default schedule: the item is that of the first
-- active default template of the site.
HasDefault : Db → ℕ → ScheduleLibraryItem → Type 0
HasDefault d site item =
    (t : ScheduleTemplate) × (find (default_of site) d.templates ≡ some t)
    × (get_library_item d t.id ≡ ok item)

module _ (q : Sqlite) (db : Db) (site : ℕ)
    (none_yet : find (default_of site) db.templates ≡ none) where
  default_row : ScheduleTemplate
  default_row = record {
    id = q.new_id (map (λ t. t.id) db.templates);
    site_id = site;
    name = "Default";
    description = some "Default schedule";
    is_active = true;
    is_default = true;
    created_at = q.current_timestamp db;
  }

  with_default : Db
  with_default = record db { templates = db.templates ++ (default_row ∷ []) }

  inserted-default :
      Ensures
        (λ (r : ℕ × Db). r ≡ (default_row.id, with_default))
        (insert_template q db site "Default" (some "Default schedule") true)
  unfolding insert_template default_row with_default
  inserted-default =
      Ensures-fail_if p (true && any (default_of site) db.templates) aborted _ (λ alone.
        Ensures-fail_if p
          (any (λ t. (t.site_id == site) && same_text t.name "Default") db.templates)
          unique_violation _
          (λ free.
            Ensures-fail_if p (not (is_some (find_site db site))) foreign_key_violation _
              (λ known. refl)))
    where
      p : ℕ × Db → Type 0
      p r = r ≡ (default_row.id, with_default)

  default-found :
      (d : Db)
      → d.templates ≡ with_default.templates
      → find (default_of site) d.templates ≡ some default_row
  unfolding default_of default_row with_default
  default-found d h =
      ap (λ l. find (default_of site) l) h
      ∙ find-appended (default_of site) db.templates default_row
          (none-any (default_of site) db.templates
            (λ a m. find-none (default_of site) db.templates a none_yet m))
          (ground arith)

  created-HasDefault :
      Ensures
        (λ (r : ScheduleLibraryItem × Db). HasDefault r.1 site r.0)
        (create_default_schedule q db site)
  unfolding create_default_schedule HasDefault
  created-HasDefault =
      Ensures-bind (λ (r : ℕ × Db). r ≡ (default_row.id, with_default)) _
        (insert_template q db site "Default" (some "Default schedule") true) _ inserted-default
        (λ r e.
          subst
            (λ (p : ℕ × Db).
              Ensures (λ (s : ScheduleLibraryItem × Db). HasDefault s.1 site s.0)
                (get_library_item
                    (after p.1 (create_application_rule q p.1 p.0 default_rule_request)) p.0
                  >>= λ item.
                      ok
                        (item, after p.1 (create_application_rule q p.1 p.0 default_rule_request))))
            (sym e)
            (Ensures-bind (λ item. get_library_item d default_row.id ≡ ok item) _
              (get_library_item d default_row.id) _
              (Ensures-of (λ item. get_library_item d default_row.id ≡ ok item)
                (get_library_item d default_row.id) (λ item h. h))
              (λ item h. (default_row, default-found d kept, h))))
    where
      d : Db
      d =
          after with_default
            (create_application_rule q with_default default_row.id default_rule_request)

      kept : d.templates ≡ with_default.templates
      kept =
          after-templates with_default _
            (create_application_rule-templates q with_default default_row.id default_rule_request)

found-HasDefault :
    (q : Sqlite) (db : Db) (site : ℕ) (o : Option ScheduleTemplate)
    → find (default_of site) db.templates ≡ o
    → Ensures
        (λ (r : ScheduleLibraryItem × Db). HasDefault r.1 site r.0)
        (elim o [
          | some t ↦ get_library_item db t.id >>= λ item. ok (item, db)
          | none ↦ create_default_schedule q db site
        ])
unfolding HasDefault
found-HasDefault q db site none e = created-HasDefault q db site e
found-HasDefault q db site (some t) e =
    Ensures-bind (λ item. get_library_item db t.id ≡ ok item)
      (λ (r : ScheduleLibraryItem × Db). HasDefault r.1 site r.0) (get_library_item db t.id) _
      (Ensures-of (λ item. get_library_item db t.id ≡ ok item) (get_library_item db t.id)
        (λ item h. h))
      (λ item h. (t, e, h))

again :
    (q : Sqlite) (db : Db) (site : ℕ) (t : ScheduleTemplate) (item : ScheduleLibraryItem)
    (o : Option ScheduleTemplate)
    → o ≡ some t
    → get_library_item db t.id ≡ ok item
    → ◌≡◌ {A = DbResult (ScheduleLibraryItem × Db)}
        (elim o [
          | some u ↦ get_library_item db u.id >>= λ i. ok (i, db)
          | none ↦ create_default_schedule q db site
        ])
        (ok (item, db))
again q db site t item o e reads = rw e (rw reads refl)

-- Once the default schedule of a site was found or created, asking for it again finds the same
-- item and changes nothing.
pub ensure_default_schedule_exists-twice :
    (q : Sqlite) (db : Db) (site : ℕ) (item : ScheduleLibraryItem) (db' : Db)
    → ensure_default_schedule_exists q db site ≡ ok (item, db')
    → ensure_default_schedule_exists q db' site ≡ ok (item, db')
unfolding ensure_default_schedule_exists HasDefault
ensure_default_schedule_exists-twice q db site item db' h =
    let (t, found, reads) =
      ok-Ensures (λ (r : ScheduleLibraryItem × Db). HasDefault r.1 site r.0)
        (ensure_default_schedule_exists q db site) (item, db')
        (found-HasDefault q db site (find (default_of site) db.templates) refl) h in
    again q db' site t item (find (default_of site) db'.templates) found reads
