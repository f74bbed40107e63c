-- ===== src/Schedules/Store/Changes.antt =====
-- neems-api/src/orm/application_rule.rs and schedule_library.rs: what is true of the tables stays
-- true when a template is deleted or renamed, a command deleted and a rule inserted.
use neems_core.Schedules.Model.{ApplicationRuleDb, ScheduleTemplate}
use neems_core.Schedules.Db.{Db, delete_template}
use neems_core.Schedules.Store.Invariant.{IsWellFormed}
use mathlib.Core.List.{Memᴰ}
use neems_core.Prelude.Rows.{
  any-filter, any-map, any-none, distinct-filter, distinct-map, mem-appended, mem-map,
}
use neems_core.Prelude.Members.{any-mem, distinct-mem, mem-filter}
use neems_core.Schedules.Store.{default_rule_of}
use neems_core.Prelude.Texts.{same_text_iff}
use mathlib.Core.Path.{subst}
use neems_core.Prelude.{
  ℕ, refl, sym, ap, inl, inr, true, false, not, [], map, arith, any, filter, ◌≡◌, ◌∙◌, ◌&&◌, ◌∷◌,
  ◌++◌, ◌==◌,
}

same_id-kept : (n id : ℕ) (a : ℕ) → (n == a) ≡ true → not (a == id) ≡ true → not (n == id) ≡ true
same_id-kept n id a h k = ground arith

pub delete_template-IsWellFormed :
    (db : Db) (id : ℕ) → IsWellFormed db → IsWellFormed (delete_template db id)
unfolding delete_template
delete_template-IsWellFormed db id w = record {
  template_key = distinct-filter (λ t. t.id) (λ t. not (t.id == id)) db.templates w.template_key;
  rule_template = λ r m.
      let (kept, n) = mem-filter (λ x. not (x.template_id == id)) db.rules r m in
      any-filter (λ t. t.id == r.template_id) (λ t. not (t.id == id)) db.templates
        (w.rule_template r n) (λ t h. same_id-kept t.id id r.template_id h kept);
  entry_template = λ e m.
      let (kept, n) = mem-filter (λ x. not (x.template_id == id)) db.entries e m in
      any-filter (λ t. t.id == e.template_id) (λ t. not (t.id == id)) db.templates
        (w.entry_template e n) (λ t h. same_id-kept t.id id e.template_id h kept);
  entry_command =
      λ e m. w.entry_command e (mem-filter (λ x. not (x.template_id == id)) db.entries e m).1;
  one_default_rule = λ a b s t ma mb ms mt.
      w.one_default_rule a b s t (mem-filter (λ x. not (x.template_id == id)) db.rules a ma).1
        (mem-filter (λ x. not (x.template_id == id)) db.rules b mb).1
        (mem-filter (λ x. not (x.id == id)) db.templates s ms).1
        (mem-filter (λ x. not (x.id == id)) db.templates t mt).1;
  one_default_template = λ s t ms mt.
      w.one_default_template s t (mem-filter (λ x. not (x.id == id)) db.templates s ms).1
        (mem-filter (λ x. not (x.id == id)) db.templates t mt).1;
}

-- A command that no entry refers to.
pub delete_command_row-IsWellFormed :
    (db : Db) (id : ℕ)
    → IsWellFormed db
    → any (λ e. e.schedule_command_id == id) db.entries ≡ false
    → IsWellFormed (record db { commands = filter (λ c. not (c.id == id)) db.commands })
delete_command_row-IsWellFormed db id w free = record {
  template_key = w.template_key;
  rule_template = w.rule_template;
  entry_template = w.entry_template;
  entry_command = λ e m.
      let other = any-none (λ x. x.schedule_command_id == id) db.entries e free m in
      any-filter (λ c. c.id == e.schedule_command_id) (λ c. not (c.id == id)) db.commands
        (w.entry_command e m)
        (λ c h. same_id-kept c.id id e.schedule_command_id h (ground (arith, other)));
  one_default_rule = w.one_default_rule;
  one_default_template = w.one_default_template;
}

-- Templates updated where the update keeps the id, the site and the two flags, and is told apart
-- by the id.
pub record IsUpdate (f : ScheduleTemplate → ScheduleTemplate) : Type 0 where
  pub same_id : (t : ScheduleTemplate) → (f t).id ≡ t.id
  pub same_site : (t : ScheduleTemplate) → (f t).site_id ≡ t.site_id
  pub same_default : (t : ScheduleTemplate) → (f t).is_default ≡ t.is_default
  pub same_active : (t : ScheduleTemplate) → (f t).is_active ≡ t.is_active

pub update_templates-IsWellFormed :
    (db : Db) (f : ScheduleTemplate → ScheduleTemplate)
    → IsUpdate f
    → IsWellFormed db
    → IsWellFormed (record db { templates = map f db.templates })
update_templates-IsWellFormed db f u w = record {
  template_key = distinct-map (λ t. t.id) f db.templates u.same_id ∙ w.template_key;
  rule_template = λ r m.
      any-map (λ t. t.id == r.template_id) f db.templates (λ t. rw (u.same_id t) refl)
      ∙ w.rule_template r m;
  entry_template = λ e m.
      any-map (λ t. t.id == e.template_id) f db.templates (λ t. rw (u.same_id t) refl)
      ∙ w.entry_template e m;
  entry_command = w.entry_command;
  one_default_rule = λ a b s t ma mb ms mt ea eb same.
      let (s0, ns, es) = mem-map f db.templates s ms in
      let (t0, nt, et) = mem-map f db.templates t mt in
      w.one_default_rule a b s0 t0 ma mb ns nt (sym (ap (λ x. x.id) es ∙ u.same_id s0) ∙ ea)
        (sym (ap (λ x. x.id) et ∙ u.same_id t0) ∙ eb)
        (sym (ap (λ x. x.site_id) es ∙ u.same_site s0)
          ∙ (same ∙ (ap (λ x. x.site_id) et ∙ u.same_site t0)));
  one_default_template = λ s t ms mt same ds dt.
      let (s0, ns, es) = mem-map f db.templates s ms in
      let (t0, nt, et) = mem-map f db.templates t mt in
      es
      ∙ (ap f (
            w.one_default_template s0 t0 ns nt
              (sym (ap (λ x. x.site_id) es ∙ u.same_site s0)
                ∙ (same ∙ (ap (λ x. x.site_id) et ∙ u.same_site t0)))
              (flags s s0 es ds) (flags t t0 et dt))
          ∙ sym et);
}
  where
    flags :
        (s s0 : ScheduleTemplate)
        → s ≡ f s0
        → (s.is_default && s.is_active) ≡ true
        → (s0.is_default && s0.is_active) ≡ true
    flags s s0 e h =
        let d : s.is_default ≡ s0.is_default = ap (λ x. x.is_default) e ∙ u.same_default s0 in
        let a : s.is_active ≡ s0.is_active = ap (λ x. x.is_active) e ∙ u.same_active s0 in
        subst (λ b. (b && s0.is_active) ≡ true) d (subst (λ b. (s.is_default && b) ≡ true) a h)

-- A rule that refers to a template, and is no second default rule of its site.
pub add_rule-IsWellFormed :
    (db : Db) (r : ApplicationRuleDb) (t : ScheduleTemplate)
    → IsWellFormed db
    → Memᴰ t db.templates
    → t.id ≡ r.template_id
    → (r.rule_type ≡ "default"
        → (a : ApplicationRuleDb) → Memᴰ a db.rules
        → default_rule_of db t.site_id a ≡ false)
    → IsWellFormed (record db { rules = db.rules ++ (r ∷ []) })
unfolding default_rule_of
add_rule-IsWellFormed db r t w mt et alone = record {
  template_key = w.template_key;
  rule_template = λ a m. elim (mem-appended db.rules r a m) [
    | inl n ↦ w.rule_template a n
    | inr p ↦
        subst (λ x. any (λ y. y.id == x.template_id) db.templates ≡ true) (sym p)
          (any-mem (λ y. y.id == r.template_id) db.templates t mt (ground (arith, et)))
  ];
  entry_template = w.entry_template;
  entry_command = w.entry_command;
  one_default_rule = λ a b s u ma mb ms mu ea eb same da dbb. elim (mem-appended db.rules r a ma) [
    | inl na ↦ elim (mem-appended db.rules r b mb) [
      | inl nb ↦ w.one_default_rule a b s u na nb ms mu ea eb same da dbb
      | inr pb ↦ absurd (second a b s u na pb ms mu ea eb same da dbb)
    ]
    | inr pa ↦ elim (mem-appended db.rules r b mb) [
      | inl nb ↦ absurd (second b a u s nb pa mu ms eb ea (sym same) dbb da)
      | inr pb ↦ pa ∙ sym pb
    ]
  ];
  one_default_template = w.one_default_template;
}
  where
    second :
        (a b : ApplicationRuleDb) (s u : ScheduleTemplate)
        → Memᴰ a db.rules
        → b ≡ r
        → Memᴰ s db.templates
        → Memᴰ u db.templates
        → s.id ≡ a.template_id
        → u.id ≡ b.template_id
        → s.site_id ≡ u.site_id
        → a.rule_type ≡ "default"
        → b.rule_type ≡ "default"
        → ⊥
    second a b s u na pb ms mu ea eb same da dbb =
        let own : u ≡ t =
          distinct-mem (λ x. x.id) db.templates u t w.template_key mu mt
            (eb ∙ (ap (λ x. x.template_id) pb ∙ sym et)) in
        let out = alone (sym (ap (λ x. x.rule_type) pb) ∙ dbb) a na in
        let site : s.site_id ≡ t.site_id = same ∙ ap (λ x. x.site_id) own in
        let here =
          any-mem (λ x. (x.site_id == t.site_id) && (x.id == a.template_id)) db.templates s ms
            (ground (arith, site, ea)) in
        let text = (same_text_iff a.rule_type "default").1 da in cc (out, here, text)
