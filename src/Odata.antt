-- ===== src/Odata.antt =====
-- neems-api/src/odata_query.rs: the query options applied to a collection in memory. The options
-- are modelled as `parse_filter`, `parse_orderby` and `parse_*` return them; text is compared and
-- searched by the standard library, a parameter.
pub mod Pages
use Prim.Native.String.{String}
use neems_core.Prelude.Texts.{same_text}
use neems_core.Prelude.Sort.{sort_by}
use neems_core.Prelude.{
  ℕ, Bool, true, not, Option, none, some, List, [], unwrap_or, length, take, drop, find, filter,
  ◌&&◌, ◌∷◌,
}
use neems_core.Prelude.Int.{ℤ, pos, pos_part, ltb_ℤ, leb_ℤ, eqb_ℤ}

pub data OrderDirection : Type 0 where
  asc desc : OrderDirection

pub data FilterOperator : Type 0 where
  eq_op ne_op lt_op le_op gt_op ge_op contains_op starts_with_op ends_with_op : FilterOperator

-- A `Number` keeps no value here: no filter reads it.
pub data FilterValue : Type 0 where
  text_value : String → FilterValue
  integer_value : ℤ → FilterValue
  number_value null_value : FilterValue
  boolean_value : Bool → FilterValue

pub record FilterExpression : Type 0 where
  pub property : String
  pub operator : FilterOperator
  pub value : FilterValue

-- The options that `apply_query` and `validate` read.
pub record OdataQuery : Type 0 where
  pub filter_by : Option FilterExpression
  pub orderby : Option (List (String × OrderDirection))
  pub top : Option ℤ
  pub skip : Option ℤ

-- What is used of `str` and `String`.
pub record Text : Type 0 where
  pub at_most : String → String → Bool
  pub contains : String → String → Bool
  pub starts_with : String → String → Bool
  pub ends_with : String → String → Bool

pub data FieldAccessor (T : Type 0) : Type 0 where
  text_field : (T → String) → FieldAccessor T
  int_field : (T → ℤ) → FieldAccessor T

pub record OdataField (T : Type 0) : Type 0 where
  pub name : String
  pub accessor : FieldAccessor T

abbrev pub top_fits : Option ℤ → Bool
top_fits none = true
top_fits (some t) = leb_ℤ (pos 0) t && leb_ℤ t (pos 1000)

abbrev pub skip_fits : Option ℤ → Bool
skip_fits none = true
skip_fits (some s) = leb_ℤ (pos 0) s

-- `validate`, true where it accepts
unfoldable pub validate : OdataQuery → Bool
validate q = top_fits q.top && skip_fits q.skip

unfoldable pub match_text : Text → FilterOperator → String → String → Bool
match_text x eq_op lhs rhs = same_text lhs rhs
match_text x ne_op lhs rhs = not (same_text lhs rhs)
match_text x contains_op lhs rhs = x.contains lhs rhs
match_text x starts_with_op lhs rhs = x.starts_with lhs rhs
match_text x ends_with_op lhs rhs = x.ends_with lhs rhs
match_text x lt_op lhs rhs = true
match_text x le_op lhs rhs = true
match_text x gt_op lhs rhs = true
match_text x ge_op lhs rhs = true

unfoldable pub match_int : FilterOperator → ℤ → ℤ → Bool
match_int eq_op lhs rhs = eqb_ℤ lhs rhs
match_int ne_op lhs rhs = not (eqb_ℤ lhs rhs)
match_int lt_op lhs rhs = ltb_ℤ lhs rhs
match_int le_op lhs rhs = leb_ℤ lhs rhs
match_int gt_op lhs rhs = ltb_ℤ rhs lhs
match_int ge_op lhs rhs = leb_ℤ rhs lhs
match_int contains_op lhs rhs = true
match_int starts_with_op lhs rhs = true
match_int ends_with_op lhs rhs = true

module _ {T : Type 0} where
  unfoldable pub match_value : Text → FieldAccessor T → FilterOperator → FilterValue → T → Bool
  unfolding match_text match_int
  match_value x (text_field get) op (text_value rhs) item = match_text x op (get item) rhs
  match_value x (int_field get) op (integer_value rhs) item = match_int op (get item) rhs
  match_value x accessor op value item = true

  unfoldable pub find_field : List (OdataField T) → String → Option (OdataField T)
  find_field fields name = find (λ f. same_text f.name name) fields

  unfoldable pub matches_filter : Text → T → FilterExpression → List (OdataField T) → Bool
  unfolding match_value find_field
  matches_filter x item filter_by fields = elim (find_field fields filter_by.property) [
    | none ↦ true
    | some f ↦ match_value x f.accessor filter_by.operator filter_by.value item
  ]

  -- `compare_field` is not `Greater`.
  unfoldable pub field_le : Text → FieldAccessor T → T → T → Bool
  field_le x (text_field get) a b = x.at_most (get a) (get b)
  field_le x (int_field get) a b = leb_ℤ (get a) (get b)

  unfoldable pub directed_le : Text → FieldAccessor T → OrderDirection → T → T → Bool
  unfolding field_le
  directed_le x f asc a b = field_le x f a b
  directed_le x f desc a b = field_le x f b a

  -- A sort by each key, the last key first.
  unfoldable pub sort_keys :
      Text → List (OdataField T) → List (String × OrderDirection) → List T → List T
  unfolding find_field directed_le
  sort_keys x fields [] items = items
  sort_keys x fields ((property, direction) ∷ keys) items =
      let sorted = sort_keys x fields keys items in
      elim (find_field fields property) [
        | none ↦ sorted
        | some f ↦ sort_by (directed_le x f.accessor direction) sorted
      ]

  unfoldable pub retain : Text → List (OdataField T) → Option FilterExpression → List T → List T
  unfolding matches_filter
  retain x fields none items = items
  retain x fields (some f) items = filter (λ item. matches_filter x item f fields) items

  -- `max(0) as usize` is the positive part.
  unfoldable pub paginate : Option ℤ → Option ℤ → List T → List T
  paginate skip top items =
      let rest : List T = elim skip [ none ↦ items | some s ↦ drop (pos_part s) items ] in
      elim top [ none ↦ rest | some t ↦ take (pos_part t) rest ]

  unfoldable pub ordered_items : Text → List T → OdataQuery → List (OdataField T) → List T
  unfolding retain sort_keys
  ordered_items x items q fields =
      sort_keys x fields (unwrap_or q.orderby []) (retain x fields q.filter_by items)

  unfoldable pub apply_query : Text → List T → OdataQuery → List (OdataField T) → List T × ℕ
  unfolding ordered_items paginate
  apply_query x items q fields =
      let ordered = ordered_items x items q fields in
      (paginate q.skip q.top ordered, length ordered)
