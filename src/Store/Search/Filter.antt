-- ===== src/Store/Search/Filter.antt =====
-- `idFilter` of store/store.go on consistent tables: which formulas it lets through.
use go_mathsearch.Base.{
  ℕ, suc, Bool, true, false, ◌&&◌, List, [], ◌∷◌, map, ◌==◌, ==_iff, ==_refl, nat_eq, Bool-cases,
  pair_eq, contains, contains-add_all, add_all, add_all-IsDistinct, contains-select,
  select-IsDistinct, IsDistinct, All, select, length, Within, within, within_iff, Within-of_length,
  length-eq_of_Within, ◌≡◌, ◌↔◌, refl, sym, ap, ◌∙◌, inl, inr, arith,
}
use go_mathsearch.Base.Text.{Text, text_eq}
use go_mathsearch.Feature.Facets.{facets_from}
use go_mathsearch.Store.Database.{Row, Db}
use go_mathsearch.Store.Database.Keys.{ids}
use go_mathsearch.Store.Search.{facets_among, facet_groups, id_filter}
use go_mathsearch.Store.Writes.Consistent.{IsConsistent, HasFacets}

contains-facets_among :
    (sel : List Text) (id : ℕ) (fc : Text) (fs : List (ℕ × Text))
    → contains fc
        (map (λ (p : ℕ × Text). p.1) (select (λ (p : ℕ × Text). p.0 == id && contains p.1 sel) fs))
      ≡ (contains (id, fc) fs && contains fc sel)
unfolding select contains
contains-facets_among sel id fc [] = refl
contains-facets_among sel id fc (p ∷ fs) = ground (
  arith,
  contains-facets_among sel id fc fs,
  ==_iff p.1 fc,
  ap (λ t. contains t sel) {x = p.1} {y = fc},
)

group_in :
    (sel : List Text) (id : ℕ) (fc : Text) (fs : List (ℕ × Text))
    → contains (id, fc) fs ≡ true
    → contains fc sel ≡ true
    → contains id (map (λ (p : ℕ × Text). p.0) (select (λ (p : ℕ × Text). contains p.1 sel) fs))
      ≡ true
unfolding select contains
group_in sel id fc [] h k = cc
group_in sel id fc (p ∷ fs) h k =
    ground
      (arith, group_in sel id fc fs, ==_iff p.1 fc, ap (λ t. contains t sel) {x = p.1} {y = fc})

group_out :
    (q : ℕ × Text → Bool) (id : ℕ) (fs : List (ℕ × Text))
    → contains id (map (λ (p : ℕ × Text). p.0) (select q fs)) ≡ true
    → (fc : Text) × (contains (id, fc) fs ≡ true)
unfolding select contains
group_out q id [] h = cc
group_out q id (p ∷ fs) h = elim (Bool-cases (p.0 == id)) [
  | inl same ↦ (p.1, ground (arith, ==_refl p.1))
  | inr other ↦ let later = group_out q id fs (ground arith) in (later.0, ground (arith, later.1))
]

-- The test that a row's formula carries all the selected facets.
abbrev pub carries : List Text → Row → Bool
carries sel r = within sel (facets_from r.formula.canonical)

module _ {Index : Type 0} (sel : List Text) (db : Db Index) where
  -- The count reaches the number of the selected facets exactly if these are distinct and all there.
  count_iff :
      (id : ℕ)
      → (length (add_all [] (facets_among sel id db)) ≡ length sel) ↔ (
          IsDistinct sel
          × ((fc : Text) → contains fc sel ≡ true → contains (id, fc) db.facets ≡ true))
  unfolding contains
  count_iff id =
      let here = add_all [] (facets_among sel id db) in
      let once : IsDistinct here = add_all-IsDistinct [] (facets_among sel id db) tt in
      let in_here : (fc : Text)
          → contains fc here ≡ (contains (id, fc) db.facets && contains fc sel) =
        λ fc.
          contains-add_all fc [] (facets_among sel id db)
          ∙ contains-facets_among sel id fc db.facets in
      let inside : Within here sel = λ fc h. ground (arith, in_here fc, h) in
      (
        λ n.
            let (back, d) = Within-of_length here sel once inside (omega (arith, n)) in
            (d, λ fc h. ground (arith, in_here fc, back fc h)),
        λ (d, all).
            length-eq_of_Within here sel once d inside
              (λ fc h. ground (arith, in_here fc, all fc h, h)),
      )

-- The ids that pass a selection which is not empty.
passes_iff :
    {Index : Type 0} (x : Text) (xs : List Text) (db : Db Index) (id : ℕ)
    → (contains id (id_filter (x ∷ xs) db) ≡ true) ↔ (
        IsDistinct (x ∷ xs)
        × ((fc : Text) → contains fc (x ∷ xs) ≡ true → contains (id, fc) db.facets ≡ true))
unfolding id_filter contains
passes_iff x xs db id =
    let sel = x ∷ xs in
    let count = length (add_all [] (facets_among sel id db)) in
    let split =
      contains-select (λ i. length (add_all [] (facets_among sel i db)) == length sel) id
        (facet_groups sel db) in
    let enough = ==_iff count (length sel) in
    (
      λ h. (count_iff sel db id).0 (enough.0 (ground (arith, split, h))),
      λ w.
          let grouped =
            contains-add_all id [] (
              map (λ (p : ℕ × Text). p.0)
                (select (λ (p : ℕ × Text). contains p.1 sel) db.facets)) in
          let there =
            group_in sel id x db.facets (w.1 x (ground (arith, ==_refl x)))
              (ground (arith, ==_refl x)) in
          ground (arith, split, enough.1 ((count_iff sel db id).1 w), grouped, there),
    )

nil_of_absent : (xs : List ℕ) → ((a : ℕ) → contains a xs ≡ false) → xs ≡ []
unfolding contains
nil_of_absent [] h = refl
nil_of_absent (x ∷ xs) h = let no : ⊥ = ground (arith, h x, ==_refl x) in absurd no

-- A facet selected twice lets nothing through.
pub id_filter-repeated :
    {Index : Type 0} (sel : List Text) (db : Db Index) → ¬ IsDistinct sel → id_filter sel db ≡ []
id_filter-repeated [] db twice = absurd (twice tt)
id_filter-repeated (x ∷ xs) db twice = nil_of_absent _ (λ id.
    elim (Bool-cases (contains id (id_filter (x ∷ xs) db))) [
      | inl there ↦ absurd (twice ((passes_iff x xs db id).0 there).0)
      | inr absent ↦ absent
    ])

ids-All :
    (all : List ℕ) (rows : List Row)
    → Within (ids rows) all
    → All (λ (r : Row). contains r.id all ≡ true) rows
unfolding contains
ids-All all [] w = tt
ids-All all (r ∷ rs) w =
    (w r.id (ground (arith, ==_refl r.id)), ids-All all rs (λ a h. w a (ground arith)))

passes_All :
    {Index : Type 0} (x : Text) (xs : List Text) (db : Db Index) (rows : List Row)
    → IsDistinct (x ∷ xs)
    → All (HasFacets db.facets) rows
    → All (λ (r : Row). contains r.id (id_filter (x ∷ xs) db) ≡ carries (x ∷ xs) r) rows
passes_All x xs db [] d a = tt
passes_All x xs db (r ∷ rs) d a = (here, passes_All x xs db rs d a.1)
  where
    here : contains r.id (id_filter (x ∷ xs) db) ≡ carries (x ∷ xs) r
    here =
        let (to, from) = passes_iff x xs db r.id in
        let (all, each) = within_iff (x ∷ xs) (facets_from r.formula.canonical) in
        elim (Bool-cases (carries (x ∷ xs) r)) [
          | inl full ↦ from (d, λ fc h. a.0 fc ∙ all full fc h) ∙ sym full
          | inr part ↦ elim (Bool-cases (contains r.id (id_filter (x ∷ xs) db))) [
            | inl there ↦ cc (each (λ fc h. sym (a.0 fc) ∙ (to there).1 fc h))
            | inr absent ↦ absent ∙ sym part
          ]
        ]

-- On consistent tables and for distinct facets, the filter keeps the id of a formula exactly if the
-- formula's canonical string carries all of them.
pub contains-id_filter :
    {Index : Type 0} (sel : List Text) (db : Db Index)
    → IsDistinct sel
    → IsConsistent db
    → All (λ (r : Row). contains r.id (id_filter sel db) ≡ carries sel r) db.rows
unfolding id_filter within
contains-id_filter [] db d c = ids-All (ids db.rows) db.rows (λ a h. h)
contains-id_filter (x ∷ xs) db d c = passes_All x xs db db.rows d c.facets_right

contains-ids-select :
    (kept : List ℕ) (p : Row → Bool) (id : ℕ) (rows : List Row)
    → All (λ (r : Row). contains r.id kept ≡ p r) rows
    → contains id (ids (select p rows)) ≡ (contains id (ids rows) && contains id kept)
unfolding select contains
contains-ids-select kept p id [] a = refl
contains-ids-select kept p id (r ∷ rs) a = ground (
  arith,
  a.0,
  contains-ids-select kept p id rs a.1,
  ==_iff r.id id,
  ap (λ i. contains i kept) {x = r.id} {y = id},
)

ids-select-IsDistinct :
    (p : Row → Bool) (rows : List Row) → IsDistinct (ids rows) → IsDistinct (ids (select p rows))
unfolding select contains
ids-select-IsDistinct p [] d = tt
ids-select-IsDistinct p (r ∷ rs) d = elim (Bool-cases (p r)) [
  | inl keep ↦ rw keep (absent rs d.0, ids-select-IsDistinct p rs d.1)
  | inr drop ↦ rw drop (ids-select-IsDistinct p rs d.1)
]
  where
    absent :
        (qs : List Row) → contains r.id (ids qs) ≡ false → contains r.id (ids (select p qs)) ≡ false
    absent [] h = refl
    absent (q ∷ qs) h = ground (arith, absent qs)

id_filter-IsDistinct :
    {Index : Type 0} (sel : List Text) (db : Db Index)
    → IsDistinct (ids db.rows)
    → IsDistinct (id_filter sel db)
unfolding id_filter
id_filter-IsDistinct [] db d = d
id_filter-IsDistinct (x ∷ xs) db d =
    let some : (length (x ∷ xs) == 0) ≡ false = ground arith in
    rw some (
      select-IsDistinct {A = ℕ}
        (λ id. length (add_all [] (facets_among (x ∷ xs) id db)) == length (x ∷ xs))
        (facet_groups (x ∷ xs) db) (add_all-IsDistinct [] _ tt))

-- An id that passes is that of a row.
id_filter-owned :
    {Index : Type 0} (sel : List Text) (db : Db Index)
    → IsConsistent db
    → Within (id_filter sel db) (ids db.rows)
unfolding id_filter contains
id_filter-owned [] db c id h = h
id_filter-owned (x ∷ xs) db c id h =
    let (d, all) = (passes_iff x xs db id).0 h in
    c.facets_owned id x (all x (ground (arith, ==_refl x)))

length-ids : (rows : List Row) → length (ids rows) ≡ length rows
length-ids [] = refl
length-ids (r ∷ rs) = ap suc (length-ids rs)

-- On consistent tables, the total of a search for distinct facets is the number of formulas whose
-- canonical string carries all of them.
pub length-id_filter :
    {Index : Type 0} (sel : List Text) (db : Db Index)
    → IsDistinct sel
    → IsConsistent db
    → length (id_filter sel db) ≡ length (select (carries sel) db.rows)
length-id_filter sel db d c =
    let kept = id_filter sel db in
    let split = λ (id : ℕ).
      contains-ids-select kept (carries sel) id db.rows (contains-id_filter sel db d c) in
    length-eq_of_Within kept (ids (select (carries sel) db.rows))
      (id_filter-IsDistinct sel db c.ids_distinct)
      (ids-select-IsDistinct (carries sel) db.rows c.ids_distinct)
      (λ id h. ground (arith, split id, id_filter-owned sel db c id h, h))
      (λ id h. ground (arith, split id, h))
    ∙ length-ids (select (carries sel) db.rows)
