-- ===== src/Odata/Pages.antt =====
-- neems-api/src/odata_query.rs: what `apply_query` returns.
use mathlib.Core.List.{Permᴰ}
use mathlib.Core.List.Permᴰ
use Prim.Native.String.{String}
use neems_core.Prelude.Sort.{AreSortedBy, IsOrder, Lex, sort_by, sort_by-AreSorted, sort_by-perm}
use neems_core.Odata.{
  skip_fits, top_fits, FieldAccessor, FilterExpression, OdataField, OdataQuery, OrderDirection,
  Text, apply_query, asc, desc, directed_le, field_le, find_field, int_field, matches_filter,
  ordered_items, paginate, retain, sort_keys, text_field, validate,
}
use neems_core.Prelude.Members.{mem-filter}
use mathlib.Core.Path.{subst}
use neems_core.Prelude.{
  ℕ, zero, suc, refl, ap, Bool, true, false, Option, none, some, List, [], arith, unwrap_or,
  if-keeps, length, ltb, drop, ◌+◌, if◌then◌else◌, take, filter, ◌≤◌, ◌≡◌, ◌∙◌, ◌&&◌, ◌∷◌,
}
use neems_core.Prelude.Int.{ℤ, pos, negsuc, pos_part}

-- What the order of text is.
pub record IsTextOrder (x : Text) : Type 0 where
  pub total : (a b : String) → x.at_most a b ≡ false → x.at_most b a ≡ true
  pub transitive :
      (a b c : String) → x.at_most a b ≡ true → x.at_most b c ≡ true → x.at_most a c ≡ true

-- How many items come before the page, and whether it has room for an index.
abbrev pub skip_count : Option ℤ → ℕ
skip_count none = 0
skip_count (some n) = pos_part n

abbrev pub has_room : Option ℤ → ℕ → Bool
has_room none i = true
has_room (some n) i = ltb i (pos_part n)

module _ {T : Type 0} where
  field_le-IsOrder : (x : Text) (f : FieldAccessor T) → IsTextOrder x → IsOrder (field_le x f)
  unfolding field_le
  field_le-IsOrder x (text_field get) o = record {
    total = λ a b h. o.total (get a) (get b) h;
    transitive = λ a b c h k. o.transitive (get a) (get b) (get c) h k;
  }
  field_le-IsOrder x (int_field get) o = record {
    total = λ a b h. ground arith;
    transitive = λ a b c h k. ground arith;
  }

  directed_le-IsOrder :
      (x : Text) (f : FieldAccessor T) (d : OrderDirection)
      → IsTextOrder x
      → IsOrder (directed_le x f d)
  unfolding directed_le
  directed_le-IsOrder x f asc o =
      let w = field_le-IsOrder x f o in
      record { total = λ a b h. w.total a b h; transitive = λ a b c h k. w.transitive a b c h k }
  directed_le-IsOrder x f desc o =
      let w = field_le-IsOrder x f o in
      record { total = λ a b h. w.total b a h; transitive = λ a b c h k. w.transitive c b a k h }

  -- The order by one key and then by another: a property that is no field does not order.
  abbrev pub ByKey :
      Text → Option (OdataField T) → OrderDirection → (T → T → Type 0) → T → T → Type 0
  ByKey x none d r = r
  ByKey x (some f) asc r = Lex (λ a b. field_le x f.accessor a b) r
  ByKey x (some f) desc r = Lex (λ a b. field_le x f.accessor b a) r

  -- The order that the keys ask for; items that tie on all of them are in the order `r`.
  abbrev pub ByKeys :
      Text
      → List (OdataField T)
      → List (String × OrderDirection)
      → (T → T → Type 0)
      → T
      → T
      → Type 0
  ByKeys x fields [] r = r
  ByKeys x fields ((property, d) ∷ keys) r =
      ByKey x (find_field fields property) d (ByKeys x fields keys r)

  -- The list in the order asked for.
  abbrev pub IsOrdering :
      Text
      → List (OdataField T)
      → List (String × OrderDirection)
      → (T → T → Type 0)
      → List T
      → List T
      → Type 0
  IsOrdering x fields keys r items sorted =
      Permᴰ sorted items × AreSortedBy (ByKeys x fields keys r) sorted

  sort_one :
      (x : Text) (o : Option (OdataField T)) (d : OrderDirection) (r : T → T → Type 0) (xs : List T)
      → IsTextOrder x
      → AreSortedBy r xs
      → Permᴰ (elim o [ none ↦ xs | some f ↦ sort_by (directed_le x f.accessor d) xs ]) xs
        × AreSortedBy
            (ByKey x o d r)
            (elim o [ none ↦ xs | some f ↦ sort_by (directed_le x f.accessor d) xs ])
  unfolding directed_le
  sort_one x none d r xs t s = (Permᴰ.refl xs, s)
  sort_one x (some f) asc r xs t s = (
    sort_by-perm (directed_le x f.accessor asc) xs,
    sort_by-AreSorted (directed_le x f.accessor asc) r xs (directed_le-IsOrder x f.accessor asc t)
        s,
  )
  sort_one x (some f) desc r xs t s = (
    sort_by-perm (directed_le x f.accessor desc) xs,
    sort_by-AreSorted (directed_le x f.accessor desc) r xs (directed_le-IsOrder x f.accessor desc t)
        s,
  )

  sort_keys-IsOrdering :
      (x : Text) (fields : List (OdataField T)) (keys : List (String × OrderDirection))
      (r : T → T → Type 0) (items : List T)
      → IsTextOrder x
      → AreSortedBy r items
      → IsOrdering x fields keys r items (sort_keys x fields keys items)
  unfolding sort_keys
  sort_keys-IsOrdering x fields [] r items t s = (Permᴰ.refl items, s)
  sort_keys-IsOrdering x fields ((property, d) ∷ keys) r items t s =
      let (p, u) = sort_keys-IsOrdering x fields keys r items t s in
      let (p', u') =
        sort_one x (find_field fields property) d (ByKeys x fields keys r)
          (sort_keys x fields keys items) t u in
      (Permᴰ.trans p' p, u')

  filter-AreSortedBy :
      (p : T → Bool) (r : T → T → Type 0) (xs : List T)
      → AreSortedBy r xs
      → AreSortedBy r (filter p xs)
  filter-AreSortedBy p r [] s = s
  filter-AreSortedBy p r (x ∷ xs) s =
      if-keeps (AreSortedBy r) (p x)
        (λ _. ((λ y m. s.0 y (mem-filter p xs y m).1), filter-AreSortedBy p r xs s.1))
        (λ _. filter-AreSortedBy p r xs s.1)

  retain-AreSortedBy :
      (x : Text) (fields : List (OdataField T)) (o : Option FilterExpression) (r : T → T → Type 0)
      (items : List T)
      → AreSortedBy r items
      → AreSortedBy r (retain x fields o items)
  unfolding retain
  retain-AreSortedBy x fields none r items s = s
  retain-AreSortedBy x fields (some f) r items s =
      filter-AreSortedBy (λ item. matches_filter x item f fields) r items s

  length-perm : {xs ys : List T} → Permᴰ xs ys → length xs ≡ length ys
  length-perm Permᴰ.nil = refl
  length-perm (Permᴰ.cons e p) = ap suc (length-perm p)
  length-perm (Permᴰ.swap e e') = refl
  length-perm (Permᴰ.trans p q) = length-perm p ∙ length-perm q

  -- The item at an index.
  abbrev pub item_at : List T → ℕ → Option T
  item_at [] i = none
  item_at (a ∷ rest) zero = some a
  item_at (a ∷ rest) (suc i) = item_at rest i

  item_at-drop : (n i : ℕ) (xs : List T) → item_at (drop n xs) i ≡ item_at xs (n + i)
  item_at-drop zero i xs = let e : i ≡ 0 + i = omega arith in ap (item_at xs) e
  item_at-drop (suc n) i [] = refl
  item_at-drop (suc n) i (x ∷ xs) =
      let e : suc (n + i) ≡ suc n + i = omega arith in item_at-drop n i xs ∙ ap (item_at (x ∷ xs)) e

  item_at-take :
      (n i : ℕ) (xs : List T) → item_at (take n xs) i ≡ (if ltb i n then item_at xs i else none)
  item_at-take zero i xs = let e : ltb i 0 ≡ false = ground arith in rw e refl
  item_at-take (suc n) i [] = if-keeps (λ o. none ≡ o) (ltb i (suc n)) (λ _. refl) (λ _. refl)
  item_at-take (suc n) zero (x ∷ xs) = let e : ltb 0 (suc n) ≡ true = ground arith in rw e refl
  item_at-take (suc n) (suc i) (x ∷ xs) =
      let e : ltb i n ≡ ltb (suc i) (suc n) = ground arith in
      item_at-take n i xs ∙ ap (λ b. if b then item_at xs i else none) e

  -- The page has, at each index that it has room for, the item that many after those skipped.
  abbrev pub IsPage : Option ℤ → Option ℤ → List T → List T → Type 0
  IsPage skip top all page =
      (i : ℕ)
      → item_at page i ≡ (if has_room top i then item_at all (skip_count skip + i) else none)

  paginate-IsPage :
      (skip top : Option ℤ) (all : List T) → IsPage skip top all (paginate skip top all)
  unfolding paginate
  paginate-IsPage none none all i = let e : i ≡ 0 + i = omega arith in ap (item_at all) e
  paginate-IsPage (some s) none all i = item_at-drop (pos_part s) i all
  paginate-IsPage none (some t) all i =
      let e : i ≡ 0 + i = omega arith in
      item_at-take (pos_part t) i all
      ∙ ap (λ k. if ltb i (pos_part t) then item_at all k else none) e
  paginate-IsPage (some s) (some t) all i =
      item_at-take (pos_part t) i (drop (pos_part s) all)
      ∙ ap (λ o. if ltb i (pos_part t) then o else none) (item_at-drop (pos_part s) i all)

  -- Whether an item passes the filter, if there is one.
  abbrev pub passes : Text → List (OdataField T) → Option FilterExpression → T → Bool
  passes x fields none item = true
  passes x fields (some f) item = matches_filter x item f fields

  retain-filter :
      (x : Text) (fields : List (OdataField T)) (o : Option FilterExpression) (items : List T)
      → retain x fields o items ≡ filter (passes x fields o) items
  unfolding retain
  retain-filter x fields none [] = refl
  retain-filter x fields none (a ∷ rest) = ap (λ l. a ∷ l) (retain-filter x fields none rest)
  retain-filter x fields (some f) items = refl

  -- A query returns a page of a list that rearranges the items that `matches_filter` accepts, or
  -- all items without a filter: in the order of the first key, ascending or descending, ties by the
  -- next, and so on, and items that tie on every key in the order that they came in, whatever order
  -- `r` that is. At each index below `$top` the page has the item that far after the first `$skip`
  -- ones, if there is one, and it has no others; without `$top` it has all of them; a negative
  -- `$skip` or `$top` counts as 0. The count is that of the accepted items. The order of text is
  -- total and transitive.
  pub apply_query-IsPage :
      (x : Text) (items : List T) (q : OdataQuery) (fields : List (OdataField T))
      (r : T → T → Type 0)
      → IsTextOrder x
      → AreSortedBy r items
      → (sorted : List T) × IsOrdering x fields
          (unwrap_or q.orderby [])
          r
          (filter (passes x fields q.filter_by) items)
          sorted
        × IsPage q.skip q.top sorted (apply_query x items q fields).0
        × ((apply_query x items q fields).1 ≡ length (filter (passes x fields q.filter_by) items))
  unfolding apply_query ordered_items
  apply_query-IsPage x items q fields r t s =
      let kept = retain x fields q.filter_by items in
      let keys : List (String × OrderDirection) = unwrap_or q.orderby [] in
      let same = retain-filter x fields q.filter_by items in
      let (p, u) =
        sort_keys-IsOrdering x fields keys r kept t
          (retain-AreSortedBy x fields q.filter_by r items s) in
      (
        sort_keys x fields keys kept,
        (subst (λ l. Permᴰ (sort_keys x fields keys kept) l) same p, u),
        paginate-IsPage q.skip q.top (sort_keys x fields keys kept),
        length-perm p ∙ ap length same,
      )

  length-take_le : (n : ℕ) (xs : List T) → length (take n xs) ≤ n
  length-take_le zero xs = omega arith
  length-take_le (suc n) [] = omega arith
  length-take_le (suc n) (y ∷ ys) = omega (arith, length-take_le n ys)

  -- A page of a query that passes validation with a `$top` has at most that many items, and at
  -- most a thousand.
  pub apply_query-le_top :
      (x : Text) (items : List T) (q : OdataQuery) (fields : List (OdataField T)) (n : ℤ)
      → validate q ≡ true
      → q.top ≡ some n
      → (length (apply_query x items q fields).0 ≤ pos_part n) × (pos_part n ≤ 1000)
  unfolding apply_query paginate validate
  apply_query-le_top x items q fields n v h = (
    rw h (length-take_le (pos_part n) _),
    top-le n (subst (λ o. top_fits o ≡ true) h (left (top_fits q.top) (skip_fits q.skip) v)),
  )
    where
      left : (a b : Bool) → (a && b) ≡ true → a ≡ true
      left true b e = refl
      left false b e = e

      top-le : (m : ℤ) → top_fits (some m) ≡ true → pos_part m ≤ 1000
      top-le (pos k) e = ground arith
      top-le (negsuc k) e = ground arith
