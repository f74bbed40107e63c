-- ===== src/Schedules/Listings.antt =====
-- neems-api/src/orm/application_rule.rs: the queries for application rules. Rules created at the
-- same instant are in the order of the table.
pub mod Created
use neems_core.Schedules.Model.{ApplicationRule, ApplicationRuleDb, to_api_model}
use neems_core.Schedules.Db.{Db, DbResult, invalid_data, ok, or_fail, ◌>>=◌}
use neems_core.Prelude.Sort.{sort_by}
use neems_core.Prelude.Texts.{same_text}
use neems_core.Prelude.{
  ℕ, Bool, Option, none, some, List, [], map, find, any, filter, leb, ◌&&◌, ◌∷◌, ◌==◌,
}

-- ORDER BY created_at DESC
abbrev created_le : ApplicationRuleDb → ApplicationRuleDb → Bool
created_le a b = leb b.created_at a.created_at

-- `map(to_api_model).collect()`, which fails at the first rule that cannot be read.
unfoldable pub read_rules : List ApplicationRuleDb → DbResult (List ApplicationRule)
unfolding to_api_model
read_rules [] = ok []
read_rules (r ∷ rs) =
    or_fail (to_api_model r) invalid_data >>= λ x. read_rules rs >>= λ xs. ok (x ∷ xs)

unfoldable pub get_application_rules_for_template : Db → ℕ → DbResult (List ApplicationRule)
unfolding read_rules
get_application_rules_for_template db template_id =
    read_rules (sort_by created_le (filter (λ r. r.template_id == template_id) db.rules))

unfoldable pub get_application_rule_by_id : Db → ℕ → DbResult (Option ApplicationRule)
unfolding to_api_model
get_application_rule_by_id db rule_id = elim (find (λ r. r.id == rule_id) db.rules) [
  | none ↦ ok none
  | some r ↦ or_fail (to_api_model r) invalid_data >>= λ x. ok (some x)
]

unfoldable pub has_default_rule : Db → ℕ → Bool
has_default_rule db template_id =
    any (λ r. (r.template_id == template_id) && same_text r.rule_type "default") db.rules

unfoldable pub get_application_rules_for_site : Db → ℕ → DbResult (List ApplicationRule)
unfolding read_rules
get_application_rules_for_site db site_id =
    let template_ids = map (λ t. t.id) (filter (λ t. t.site_id == site_id) db.templates) in
    read_rules
      (sort_by created_le (filter (λ r. any (λ i. i == r.template_id) template_ids) db.rules))
