-- ===== src/Schedules/Store/Requests.antt =====
-- neems-api/src/orm/schedule_library.rs and application_rule.rs: the operations on rules and on the
-- default schedule leave the tables well formed, and so does every request.
use Prim.Native.String.{String}
use neems_core.Schedules.Db.{
  DbResult, IsFresh, check_violation, columns_fit, default_of, err, foreign_key_violation,
  insert_template, invalid_data, ok, Db, Sqlite, find_template, insert_rule, not_found, ◌>>=◌,
}
use neems_core.Schedules.Model.{
  CreateLibraryItemRequest, ScheduleLibraryItem, UpdateLibraryItemRequest, to_api_model,
  ApplicationRule, ApplicationRuleDb, CreateApplicationRuleRequest, RuleType, ScheduleTemplate,
  day_of_week, default_rule, rule_type_text, specific_date,
}
use neems_core.Schedules.Db.Ensures.{
  Ensures-bind, Ensures-fail_if, Ensures-of, Ensures, Ensures-or_fail,
}
use neems_core.Schedules.Store.Invariant.{IsWellFormed, filter_rules-IsWellFormed}
use mathlib.Core.List.{Memᴰ}
use neems_core.Schedules.Store.{
  after, create_default_schedule, default_rule_request, delete_application_rule,
  ensure_default_schedule_exists, clear_defaults, create_application_rule, default_rule_of,
}
use neems_core.Prelude.Members.{find-some, mem-filter}
use mathlib.Core.Path.{subst}
use neems_core.Schedules.Store.Changes.{add_rule-IsWellFormed}
use neems_core.Schedules.Library.Edit.{
  clone_library_item, create_library_item_from_site_defaults, delete_library_item,
  update_library_item,
}
use neems_core.Schedules.Store.Edits.{
  clone_library_item-IsWellFormed, create_library_item_from_site_defaults-IsWellFormed,
  delete_library_item-IsWellFormed, update_library_item-IsWellFormed,
}
use neems_core.Schedules.Library.{create_library_item, get_library_item}
use neems_core.Schedules.Store.Steps.{
  create_library_item-IsWellFormed, insert_template-IsWellFormed,
}
use neems_core.Prelude.{
  ℕ, refl, sym, true, false, not, Option, none, some, List, [], arith, is_some, find, ◌≡◌, ◌∷◌,
  ◌==◌,
}
use neems_core.Prelude.Int.{ℤ}

-- The tables once a template's site has no default rules, if a default rule is to come.
clear_defaults-IsWellFormed :
    (db : Db) (template_id : ℕ) (t : RuleType)
    → IsWellFormed db
    → Ensures
        (λ (d : Db).
          IsWellFormed d
          × (t ≡ default_rule
              → (s : ScheduleTemplate) → find_template d template_id ≡ some s
              → (a : ApplicationRuleDb) → Memᴰ a d.rules
              → default_rule_of d s.site_id a ≡ false))
        (clear_defaults db template_id t)
unfolding clear_defaults find_template default_rule_of
clear_defaults-IsWellFormed db template_id default_rule w =
    Ensures-or_fail _ (find_template db template_id) not_found _ (λ t e. (
      filter_rules-IsWellFormed db (λ r. not (default_rule_of db t.site_id r)) w,
      λ is_default s h a m.
          let same : s ≡ t = cc (h, e) in
          let kept = (mem-filter (λ r. not (default_rule_of db t.site_id r)) db.rules a m).0 in
          subst (λ x. default_rule_of db x.site_id a ≡ false) (sym same) (ground (arith, kept)),
    ))
clear_defaults-IsWellFormed db template_id day_of_week w = (w, λ h. absurd (cc h))
clear_defaults-IsWellFormed db template_id specific_date w = (w, λ h. absurd (cc h))

default-rule_type_text : (t : RuleType) → rule_type_text t ≡ "default" → t ≡ default_rule
unfolding rule_type_text
default-rule_type_text default_rule h = refl
default-rule_type_text day_of_week h = absurd (cc h)
default-rule_type_text specific_date h = absurd (cc h)

is_some-cases : {A : Type 0} (o : Option A) → not (is_some o) ≡ false → (a : A) × (o ≡ some a)
is_some-cases none h = cc
is_some-cases (some a) h = (a, refl)

insert_rule-IsWellFormed :
    (q : Sqlite) (d : Db) (template_id : ℕ) (request : CreateApplicationRuleRequest)
    → IsWellFormed d
    → (request.rule_type ≡ default_rule
        → (s : ScheduleTemplate) → find_template d template_id ≡ some s
        → (a : ApplicationRuleDb) → Memᴰ a d.rules
        → default_rule_of d s.site_id a ≡ false)
    → Ensures
        (λ (r : ApplicationRuleDb × Db). IsWellFormed r.1)
        (insert_rule q d template_id request)
unfolding insert_rule find_template
insert_rule-IsWellFormed q d template_id request w alone =
    Ensures-fail_if _ (not (columns_fit request)) check_violation _ (λ fits.
      Ensures-fail_if _ (not (is_some (find (λ t. t.id == template_id) d.templates)))
        foreign_key_violation _
        (λ known.
          let (s, e) = is_some-cases (find (λ t. t.id == template_id) d.templates) known in
          let (same, m) = find-some (λ t. t.id == template_id) d.templates s e in
          add_rule-IsWellFormed d _ s w m (ground (arith, same))
            (λ is_default. alone (default-rule_type_text request.rule_type is_default) s e)))

pub create_application_rule-IsWellFormed :
    (q : Sqlite) (db : Db) (template_id : ℕ) (request : CreateApplicationRuleRequest)
    → IsWellFormed db
    → Ensures
        (λ (r : ApplicationRule × Db). IsWellFormed r.1)
        (create_application_rule q db template_id request)
unfolding create_application_rule
create_application_rule-IsWellFormed q db template_id request w =
    Ensures-bind _ _ (clear_defaults db template_id request.rule_type) _
      (clear_defaults-IsWellFormed db template_id request.rule_type w)
      (λ d v.
        Ensures-bind (λ (r : ApplicationRuleDb × Db). IsWellFormed r.1) _
          (insert_rule q d template_id request) _
          (insert_rule-IsWellFormed q d template_id request v.0 v.1)
          (λ r u. Ensures-or_fail _ (to_api_model r.0) invalid_data _ (λ rule e. u)))

-- The tables after an operation that keeps them well formed.
pub after-IsWellFormed :
    {A : Type 0} (db : Db) (r : DbResult (A × Db))
    → IsWellFormed db
    → Ensures (λ (p : A × Db). IsWellFormed p.1) r
    → IsWellFormed (after db r)
after-IsWellFormed db (ok (a, d)) w h = h
after-IsWellFormed db (err e) w h = w

pub ensure_default_schedule_exists-IsWellFormed :
    (q : Sqlite) (db : Db) (site : ℕ)
    → IsFresh q
    → IsWellFormed db
    → Ensures
        (λ (r : ScheduleLibraryItem × Db). IsWellFormed r.1)
        (ensure_default_schedule_exists q db site)
unfolding ensure_default_schedule_exists
ensure_default_schedule_exists-IsWellFormed q db site f w =
    by_found (find (default_of site) db.templates)
  where
    created :
        Ensures
          (λ (r : ScheduleLibraryItem × Db). IsWellFormed r.1)
          (create_default_schedule q db site)
    created =
        unfold create_default_schedule in
        Ensures-bind (λ (r : ℕ × Db). IsWellFormed r.1) _
          (insert_template q db site "Default" (some "Default schedule") true) _
          (insert_template-IsWellFormed q db site "Default" (some "Default schedule") true f w)
          (λ r v.
            let d : Db = after r.1 (create_application_rule q r.1 r.0 default_rule_request) in
            Ensures-bind (λ i. Unit {0}) _ (get_library_item d r.0) _ (Ensures-of _ _ (λ i p. tt))
              (λ item x.
                after-IsWellFormed r.1 (create_application_rule q r.1 r.0 default_rule_request) v
                  (create_application_rule-IsWellFormed q r.1 r.0 default_rule_request v)))

    by_found :
        (o : Option ScheduleTemplate)
        → Ensures
            (λ (r : ScheduleLibraryItem × Db). IsWellFormed r.1)
            (elim o [
              | some t ↦ get_library_item db t.id >>= λ item. ok (item, db)
              | none ↦ create_default_schedule q db site
            ])
    by_found none = created
    by_found (some t) =
        Ensures-bind (λ i. Unit {0}) _ (get_library_item db t.id) _ (Ensures-of _ _ (λ i p. tt))
          (λ item x. w)

-- What the web API asks of the library. Deleting a site or a company, which cascades to these
-- tables, is not among it.
pub data Request : Type 0 where
  create_item : ℕ → CreateLibraryItemRequest → Request
  create_from_defaults : ℕ → String → Option String → ℤ → Request
  update_item : ℕ → UpdateLibraryItemRequest → Request
  delete_item : ℕ → Request
  clone_item : ℕ → String → Option String → Request
  ensure_default : ℕ → Request
  create_rule : ℕ → CreateApplicationRuleRequest → Request
  delete_rule : ℕ → Request

-- The tables after a request, which leaves them alone where it fails.
unfoldable pub serve : Sqlite → Db → Request → Db
unfolding create_library_item create_library_item_from_site_defaults update_library_item
    delete_library_item clone_library_item ensure_default_schedule_exists create_application_rule
    delete_application_rule
serve q db (create_item site r) = after db (create_library_item q db site r)
serve q db (create_from_defaults site name text soc) =
    after db (create_library_item_from_site_defaults q db site name text soc)
serve q db (update_item id r) = after db (update_library_item q db id r)
serve q db (delete_item id) = after db (delete_library_item db id)
serve q db (clone_item id name text) = after db (clone_library_item q db id name text)
serve q db (ensure_default site) = after db (ensure_default_schedule_exists q db site)
serve q db (create_rule id r) = after db (create_application_rule q db id r)
serve q db (delete_rule id) = after db (delete_application_rule db id)

unfoldable pub serve_all : Sqlite → Db → List Request → Db
unfolding serve
serve_all q db [] = db
serve_all q db (r ∷ rs) = serve_all q (serve q db r) rs

serve-IsWellFormed :
    (q : Sqlite) (db : Db) (r : Request) → IsFresh q → IsWellFormed db → IsWellFormed (serve q db r)
unfolding serve delete_application_rule
serve-IsWellFormed q db (create_item site r) f w =
    after-IsWellFormed db _ w (create_library_item-IsWellFormed q db site r f w)
serve-IsWellFormed q db (create_from_defaults site name text soc) f w =
    after-IsWellFormed db _ w
      (create_library_item_from_site_defaults-IsWellFormed q db site name text soc f w)
serve-IsWellFormed q db (update_item id r) f w =
    after-IsWellFormed db _ w (update_library_item-IsWellFormed q db id r w)
serve-IsWellFormed q db (delete_item id) f w =
    after-IsWellFormed db _ w (delete_library_item-IsWellFormed db id w)
serve-IsWellFormed q db (clone_item id name text) f w =
    after-IsWellFormed db _ w (clone_library_item-IsWellFormed q db id name text f w)
serve-IsWellFormed q db (ensure_default site) f w =
    after-IsWellFormed db _ w (ensure_default_schedule_exists-IsWellFormed q db site f w)
serve-IsWellFormed q db (create_rule id r) f w =
    after-IsWellFormed db _ w (create_application_rule-IsWellFormed q db id r w)
serve-IsWellFormed q db (delete_rule id) f w =
    filter_rules-IsWellFormed db (λ r. not (r.id == id)) w

-- Whatever requests are served, in whatever order, of these: creating a library item, also from the
-- defaults of its site, changing, deleting and cloning one, ensuring a default schedule, creating and
-- deleting a rule; tables that were well formed stay so. Template ids are distinct, every rule and
-- entry refers to a template and every entry to a command that exist, a site has at most one default
-- rule, and at most one active default schedule. It needs that SQLite gives a new row an id that its
-- table does not have.
pub serve_all-IsWellFormed :
    (q : Sqlite) (db : Db) (rs : List Request)
    → IsFresh q
    → IsWellFormed db
    → IsWellFormed (serve_all q db rs)
unfolding serve_all
serve_all-IsWellFormed q db [] f w = w
serve_all-IsWellFormed q db (r ∷ rs) f w =
    serve_all-IsWellFormed q (serve q db r) rs f (serve-IsWellFormed q db r f w)
