-- ===== src/Schedules/Store/Invariant.antt =====
-- neems-api/src/orm/application_rule.rs and schedule_library.rs, and the tables' keys and foreign
-- keys: what is true of the tables between operations.
use neems_core.Schedules.Model.{
  ApplicationRuleDb, ScheduleCommand, ScheduleTemplate, ScheduleTemplateEntry,
}
use neems_core.Schedules.Db.{Db, default_of}
use mathlib.Core.List.{Memᴰ}
use neems_core.Prelude.Rows.{any-appended, distinct-appended, fresh-any, mem-appended}
use neems_core.Prelude.Members.{any-mem, distinct, mem-filter}
use mathlib.Core.Path.{subst}
use neems_core.Prelude.{
  sym, ap, inl, inr, Bool, true, false, [], map, arith, any, filter, ◌≡◌, ◌∙◌, ◌&&◌, ◌∷◌, ◌++◌,
  ◌==◌,
}

pub record IsWellFormed (db : Db) : Type 0 where
  pub template_key : distinct (λ t. t.id) db.templates ≡ true
  pub rule_template :
      (r : ApplicationRuleDb)
      → Memᴰ r db.rules
      → any (λ t. t.id == r.template_id) db.templates ≡ true
  pub entry_template :
      (e : ScheduleTemplateEntry)
      → Memᴰ e db.entries
      → any (λ t. t.id == e.template_id) db.templates ≡ true
  pub entry_command :
      (e : ScheduleTemplateEntry)
      → Memᴰ e db.entries
      → any (λ c. c.id == e.schedule_command_id) db.commands ≡ true
  pub one_default_rule :
      (a b : ApplicationRuleDb) (s t : ScheduleTemplate)
      → Memᴰ a db.rules
      → Memᴰ b db.rules
      → Memᴰ s db.templates
      → Memᴰ t db.templates
      → s.id ≡ a.template_id
      → t.id ≡ b.template_id
      → s.site_id ≡ t.site_id
      → a.rule_type ≡ "default"
      → b.rule_type ≡ "default"
      → a ≡ b
  pub one_default_template :
      (s t : ScheduleTemplate)
      → Memᴰ s db.templates
      → Memᴰ t db.templates
      → s.site_id ≡ t.site_id
      → (s.is_default && s.is_active) ≡ true
      → (t.is_default && t.is_active) ≡ true
      → s ≡ t

-- A template whose id is new, and that is no second default of its site.
pub add_template-IsWellFormed :
    (db : Db) (t : ScheduleTemplate)
    → IsWellFormed db
    → ¬ Memᴰ t.id (map (λ x. x.id) db.templates)
    → (t.is_default && any (default_of t.site_id) db.templates) ≡ false
    → IsWellFormed (record db { templates = db.templates ++ (t ∷ []) })
unfolding default_of
add_template-IsWellFormed db t w fresh alone = record {
  template_key = distinct-appended (λ x. x.id) db.templates t w.template_key fresh;
  rule_template =
      λ r m. any-appended (λ x. x.id == r.template_id) db.templates (t ∷ []) (w.rule_template r m);
  entry_template =
      λ e m. any-appended (λ x. x.id == e.template_id) db.templates (t ∷ []) (w.entry_template e m);
  entry_command = w.entry_command;
  one_default_rule = λ a b s u ma mb ms mu ea eb same da dbb.
      elim (mem-appended db.templates t s ms) [
        | inr es ↦ absurd (unused a s ma es ea)
        | inl ns ↦ elim (mem-appended db.templates t u mu) [
          | inr eu ↦ absurd (unused b u mb eu eb)
          | inl nu ↦ w.one_default_rule a b s u ma mb ns nu ea eb same da dbb
        ]
      ];
  one_default_template = λ s u ms mu same ds du. elim (mem-appended db.templates t s ms) [
    | inl ns ↦ elim (mem-appended db.templates t u mu) [
      | inl nu ↦ w.one_default_template s u ns nu same ds du
      | inr eu ↦ absurd (second s u ns eu same ds du)
    ]
    | inr es ↦ elim (mem-appended db.templates t u mu) [
      | inl nu ↦ absurd (second u s nu es (sym same) du ds)
      | inr eu ↦ es ∙ sym eu
    ]
  ];
}
  where
    unused :
        (a : ApplicationRuleDb) (s : ScheduleTemplate)
        → Memᴰ a db.rules
        → s ≡ t
        → s.id ≡ a.template_id
        → ⊥
    unused a s ma es ea =
        let out =
          fresh-any (λ x. x.id) db.templates a.template_id
            (subst (λ n. ¬ Memᴰ n (map (λ x. x.id) db.templates)) (ap (λ x. x.id) (sym es) ∙ ea)
              fresh) in
        absurd (cc (out, w.rule_template a ma))

    second :
        (s u : ScheduleTemplate)
        → Memᴰ s db.templates
        → u ≡ t
        → s.site_id ≡ u.site_id
        → (s.is_default && s.is_active) ≡ true
        → (u.is_default && u.is_active) ≡ true
        → ⊥
    second s u ms eu same ds du =
        let here : default_of t.site_id s ≡ true = ground (arith, same, ap (λ x. x.site_id) eu) in
        let some_default = any-mem (default_of t.site_id) db.templates s ms here in
        absurd (ground (arith, alone, some_default, ap (λ x. x.is_default) eu, du))

-- A command whose id is whatever it is.
pub add_command_row-IsWellFormed :
    (db : Db) (c : ScheduleCommand)
    → IsWellFormed db
    → IsWellFormed (record db { commands = db.commands ++ (c ∷ []) })
add_command_row-IsWellFormed db c w = record {
  template_key = w.template_key;
  rule_template = w.rule_template;
  entry_template = w.entry_template;
  entry_command = λ e m.
      any-appended (λ x. x.id == e.schedule_command_id) db.commands (c ∷ []) (w.entry_command e m);
  one_default_rule = w.one_default_rule;
  one_default_template = w.one_default_template;
}

pub add_entry-IsWellFormed :
    (db : Db) (e : ScheduleTemplateEntry)
    → IsWellFormed db
    → any (λ t. t.id == e.template_id) db.templates ≡ true
    → any (λ c. c.id == e.schedule_command_id) db.commands ≡ true
    → IsWellFormed (record db { entries = db.entries ++ (e ∷ []) })
add_entry-IsWellFormed db e w ht hc = record {
  template_key = w.template_key;
  rule_template = w.rule_template;
  entry_template = λ a m. elim (mem-appended db.entries e a m) [
    | inl n ↦ w.entry_template a n
    | inr p ↦ subst (λ x. any (λ t. t.id == x.template_id) db.templates ≡ true) (sym p) ht
  ];
  entry_command = λ a m. elim (mem-appended db.entries e a m) [
    | inl n ↦ w.entry_command a n
    | inr p ↦ subst (λ x. any (λ c. c.id == x.schedule_command_id) db.commands ≡ true) (sym p) hc
  ];
  one_default_rule = w.one_default_rule;
  one_default_template = w.one_default_template;
}

-- Rules deleted.
pub filter_rules-IsWellFormed :
    (db : Db) (keeps : ApplicationRuleDb → Bool)
    → IsWellFormed db
    → IsWellFormed (record db { rules = filter keeps db.rules })
filter_rules-IsWellFormed db keeps w = record {
  template_key = w.template_key;
  rule_template = λ r m. w.rule_template r (mem-filter keeps db.rules r m).1;
  entry_template = w.entry_template;
  entry_command = w.entry_command;
  one_default_rule = λ a b s t ma mb.
      w.one_default_rule a b s t (mem-filter keeps db.rules a ma).1
        (mem-filter keeps db.rules b mb).1;
  one_default_template = w.one_default_template;
}

pub filter_entries-IsWellFormed :
    (db : Db) (keeps : ScheduleTemplateEntry → Bool)
    → IsWellFormed db
    → IsWellFormed (record db { entries = filter keeps db.entries })
filter_entries-IsWellFormed db keeps w = record {
  template_key = w.template_key;
  rule_template = w.rule_template;
  entry_template = λ e m. w.entry_template e (mem-filter keeps db.entries e m).1;
  entry_command = λ e m. w.entry_command e (mem-filter keeps db.entries e m).1;
  one_default_rule = w.one_default_rule;
  one_default_template = w.one_default_template;
}
