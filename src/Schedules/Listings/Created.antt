-- ===== src/Schedules/Listings/Created.antt =====
-- neems-api/src/orm/application_rule.rs: a rule just created, as the queries see it.
use neems_core.Schedules.Model.{
  ApplicationRule, ApplicationRuleDb, CreateApplicationRuleRequest, read_column, rule_type_of,
  to_api_model,
}
use neems_core.Schedules.Db.{
  Db, IsFresh, check_violation, columns_fit, find_template, foreign_key_violation, Sqlite,
  insert_rule, invalid_data, ok, ok_injective, or_fail, or_fail-ok, >>=-ok,
}
use neems_core.Schedules.Store.{clear_defaults, create_application_rule}
use neems_core.Schedules.Listings.{get_application_rule_by_id}
use neems_core.Schedules.Db.Ensures.{Ensures, Ensures-fail_if, ok-Ensures}
use mathlib.Core.List.{Memᴰ}
use mathlib.Core.Path.{subst}
use neems_core.Prelude.Collect.{>>=-some}
use neems_core.Prelude.Rows.{find-appended, fresh-any}
use neems_core.Prelude.{
  ℕ, refl, sym, ap, Option, none, some, List, not, is_some, [], ◌++◌, ◌∷◌, map, arith, find, ◌==◌,
  ◌≡◌, ◌∙◌,
}

appended-found :
    (rows : List ApplicationRuleDb) (row : ApplicationRuleDb)
    → ¬ Memᴰ row.id (map (λ r. r.id) rows)
    → find (λ r. r.id == row.id) (rows ++ (row ∷ [])) ≡ some row
appended-found rows row f =
    find-appended (λ r. r.id == row.id) rows row (fresh-any (λ r. r.id) rows row.id f)
      (ground arith)

-- A rule that was inserted is what its id finds.
abbrev IsFound : ApplicationRuleDb × Db → Type 0
IsFound (row, db) = find (λ r. r.id == row.id) db.rules ≡ some row

insert_rule-IsFound :
    (q : Sqlite) (db : Db) (template_id : ℕ) (request : CreateApplicationRuleRequest)
    → IsFresh q
    → Ensures IsFound (insert_rule q db template_id request)
unfolding insert_rule
insert_rule-IsFound q db template_id request f =
    Ensures-fail_if IsFound (not (columns_fit request)) check_violation _ (λ a.
      Ensures-fail_if IsFound (not (is_some (find_template db template_id))) foreign_key_violation _
        (λ b. appended-found db.rules _ (f.fresh (map (λ r. r.id) db.rules))))

id_or : ℕ → Option ApplicationRule → ℕ
id_or n none = n
id_or n (some r) = r.id

to_api_model-id :
    (r : ApplicationRuleDb) (rule : ApplicationRule) → to_api_model r ≡ some rule → rule.id ≡ r.id
unfolding to_api_model id_or
to_api_model-id r rule h =
    let (t, e, h1) = >>=-some (rule_type_of r.rule_type) _ rule h in
    let (days, e1, h2) = >>=-some (read_column r.days_of_week) _ rule h1 in
    let (dates, e2, h3) = >>=-some (read_column r.specific_dates) _ rule h2 in
    sym (ap (id_or r.id) h3)

by_id-found :
    (db : Db) (row : ApplicationRuleDb) (id : ℕ) (rule : ApplicationRule)
    → find (λ r. r.id == id) db.rules ≡ some row
    → to_api_model row ≡ some rule
    → get_application_rule_by_id db id ≡ ok (some rule)
unfolding get_application_rule_by_id
by_id-found db row id rule h k = rw (get_application_rule_by_id, h) (rw k refl)

-- A rule that was created is what its id finds.
create_application_rule-get_application_rule_by_id :
    (q : Sqlite) (db : Db) (template_id : ℕ) (request : CreateApplicationRuleRequest)
    (rule : ApplicationRule) (db' : Db)
    → IsFresh q
    → create_application_rule q db template_id request ≡ ok (rule, db')
    → get_application_rule_by_id db' rule.id ≡ ok (some rule)
unfolding create_application_rule
create_application_rule-get_application_rule_by_id q db template_id request rule db' f h =
    let (cleared, e, h1) =
      >>=-ok (clear_defaults db template_id request.rule_type) _ (rule, db') h in
    let (inserted, e1, h2) = >>=-ok (insert_rule q cleared template_id request) _ (rule, db') h1 in
    let (x, e2, h3) = >>=-ok (or_fail (to_api_model inserted.0) invalid_data) _ (rule, db') h2 in
    let same : ◌≡◌ {A = ApplicationRule × Db} (x, inserted.1) (rule, db') = ok_injective _ _ h3 in
    let read : to_api_model inserted.0 ≡ some rule =
      or_fail-ok (to_api_model inserted.0) invalid_data x e2 ∙ ap (λ p. some p.0) same in
    by_id-found db' inserted.0 rule.id rule
      (subst (λ (d : Db). find (λ r. r.id == rule.id) d.rules ≡ some inserted.0)
        (ap (λ p. p.1) same)
        (subst (λ n. find (λ r. r.id == n) inserted.1.rules ≡ some inserted.0)
          (sym (to_api_model-id inserted.0 rule read))
          (ok-Ensures IsFound (insert_rule q cleared template_id request) inserted
            (insert_rule-IsFound q cleared template_id request f) e1)))
      read
