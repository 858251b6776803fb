-- ===== src/Store/Database/Keys.antt =====
-- The unique keys of the table `formulas` under the insertion of store/store.go.
use go_mathsearch.Base.{
  ℕ, true, false, ◌||◌, ◌&&◌, List, [], ◌∷◌, ◌++◌, none, some, map, map-append, ◌==◌, ==_iff,
  nat_eq, if◌then◌else◌, Bool-cases, Option-cases, pair_eq, contains, contains-concat, IsDistinct,
  IsDistinct-concat, All, All-append, apart, ◌≡◌, refl, sym, ap, ap₂, ◌∙◌, inl, inr, ◌⊎◌, arith,
}
use go_mathsearch.Base.Text.{Text, text_eq}
use go_mathsearch.Store.{Formula}
use go_mathsearch.Store.Database.{
  Row, Engine, IsFresh, key, row_key, updated, find_id, find_formula, replaced, put_formula,
}

abbrev pub ids : List Row → List ℕ
ids = map (λ (r : Row). r.id)

abbrev pub keys : List Row → List (Text × Text)
keys = map row_key

-- The upsert's columns and its key are the whole formula.
updated_lem : (old f : Formula) → (key old == key f) ≡ true → updated old f ≡ f
updated_lem old f h =
    let same = (==_iff (key old) (key f)).0 h in
    ap₂ (λ (e s : Text). record f { entry_id = e; side = s }) (ap (λ p. p.0) same)
      (ap (λ p. p.1) same)

ids-replaced : (f : Formula) (rows : List Row) → ids (map (replaced f) rows) ≡ ids rows
ids-replaced f [] = refl
ids-replaced f (r ∷ rs) = ground (arith, ids-replaced f rs)

keys-replaced : (f : Formula) (rows : List Row) → keys (map (replaced f) rows) ≡ keys rows
keys-replaced f [] = refl
keys-replaced f (r ∷ rs) = ground (arith, keys-replaced f rs)

find_id_none :
    (k : Text × Text) (rows : List Row) → find_id k rows ≡ none → contains k (keys rows) ≡ false
unfolding find_id contains
find_id_none k [] h = refl
find_id_none k (r ∷ rs) h = elim (Bool-cases (row_key r == k)) [
  | inl same ↦ cc (rw same at h)
  | inr other ↦ rw other (find_id_none k rs (rw other at h))
]

find_id-some :
    (k : Text × Text) (rows : List Row) (i : ℕ)
    → find_id k rows ≡ some i
    → contains i (ids rows) ≡ true
unfolding find_id contains
find_id-some k [] i h = cc
find_id-some k (r ∷ rs) i h = elim (Bool-cases (row_key r == k)) [
  | inl same ↦
      let here : some r.id ≡ some i = rw same at h in
      let at_i : r.id ≡ i = cc in ground (arith, at_i)
  | inr other ↦ ground (arith, find_id-some k rs i (rw other at h))
]

-- The row of the formula, or a row of before with another id.
abbrev pub Fresher : ℕ → Formula → (Row → Type 0) → Row → Type 0
Fresher i f Old r = ((r.id ≡ i) × (r.formula ≡ f)) ⊎ (((r.id == i) ≡ false) × Old r)

module _ (f : Formula) (Old : Row → Type 0) where
  replaced_absent :
      (i : ℕ) (rows : List Row)
      → contains (key f) (keys rows) ≡ false
      → contains i (ids rows) ≡ false
      → All Old rows
      → All (Fresher i f Old) (map (replaced f) rows)
  unfolding contains
  replaced_absent i [] h k a = tt
  replaced_absent i (r ∷ rs) h k a =
      let other : (row_key r == key f) ≡ false = ground arith in
      (rw other (inr (ground arith, a.0)), replaced_absent i rs (ground arith) (ground arith) a.1)

  replaced_present :
      (i : ℕ) (rows : List Row)
      → IsDistinct (ids rows)
      → IsDistinct (keys rows)
      → find_id (key f) rows ≡ some i
      → All Old rows
      → All (Fresher i f Old) (map (replaced f) rows)
  unfolding find_id contains
  replaced_present i [] d e h a = tt
  replaced_present i (r ∷ rs) d e h a = elim (Bool-cases (row_key r == key f)) [
    | inl same ↦
        let here : some r.id ≡ some i = rw same at h in
        let at_i : r.id ≡ i = cc in
        let gone = ap (λ k. contains k (keys rs)) ((==_iff (row_key r) (key f)).0 same) in
        (
          rw same (inl (at_i, updated_lem r.formula f same)),
          replaced_absent i rs (sym gone ∙ e.0) (ap (λ j. contains j (ids rs)) (sym at_i) ∙ d.0)
              a.1,
        )
    | inr other ↦
        let later = find_id-some (key f) rs i (rw other at h) in
        let ne = apart r.id i (ids rs) d.0 later in
        (rw other (inr (ne, a.0)), replaced_present i rs d.1 e.1 (rw other at h) a.1)
  ]

find_formula-replaced :
    (k : Text × Text) (f : Formula) (rows : List Row)
    → find_formula k (map (replaced f) rows)
      ≡ (if key f == k && contains k (keys rows) then some f else find_formula k rows)
unfolding find_formula contains
find_formula-replaced k f [] = ground arith
find_formula-replaced k f (r ∷ rs) = elim (Bool-cases (row_key r == key f)) [
  | inl same ↦
      let to_k = ap (λ j. j == k) ((==_iff (row_key r) (key f)).0 same) in
      rw same (ground (arith, to_k, updated_lem r.formula f same, find_formula-replaced k f rs))
  | inr other ↦ rw other (
      ground (
        arith,
        find_formula-replaced k f rs,
        ap (λ j. row_key r == j) {x = key f} {y = k},
        ==_iff (key f) k,
      ))
]

find_formula-concat :
    (k : Text × Text) (r : Row) (rows : List Row)
    → find_formula k (rows ++ r ∷ []) ≡ (
        if contains k (keys rows)
        then find_formula k rows
        else if row_key r == k
        then some r.formula
        else none)
unfolding find_formula contains
find_formula-concat k r [] = refl
find_formula-concat k r (q ∷ rows) = ground (arith, find_formula-concat k r rows)

find_id-contains :
    (k : Text × Text) (rows : List Row) (i : ℕ)
    → find_id k rows ≡ some i
    → contains k (keys rows) ≡ true
unfolding find_id contains
find_id-contains k [] i h = cc
find_id-contains k (r ∷ rs) i h = elim (Bool-cases (row_key r == k)) [
  | inl same ↦ rw same
  | inr other ↦ rw other (find_id-contains k rs i (rw other at h))
]

find_formula_none :
    (k : Text × Text) (rows : List Row)
    → contains k (keys rows) ≡ false
    → find_formula k rows ≡ none
unfolding find_formula contains
find_formula_none k [] h = refl
find_formula_none k (r ∷ rs) h = ground (arith, find_formula_none k rs)

module _ (E : Engine) (f : Formula) (rows : List Row) where
  pub put_formula_old :
      (i : ℕ) → find_id (key f) rows ≡ some i → put_formula E f rows ≡ (i, map (replaced f) rows)
  unfolding put_formula
  put_formula_old i e = rw (e, put_formula)

  pub put_formula_new :
      find_id (key f) rows ≡ none
      → put_formula E f rows
        ≡ (E.fresh (ids rows), rows ++ record { id = E.fresh (ids rows); formula = f } ∷ [])
  unfolding put_formula
  put_formula_new e = rw (e, put_formula)

  -- After the insertion the key has the formula, and the others have what they had.
  pub find_formula-put :
      (k : Text × Text)
      → find_formula k (put_formula E f rows).1
        ≡ (if key f == k then some f else find_formula k rows)
  find_formula-put k = elim (Option-cases (find_id (key f) rows)) [
    | inl new ↦ rw (put_formula_new new) (
        ground (
          arith,
          find_formula-concat k (record { id = E.fresh (ids rows); formula = f }) rows,
          find_id_none (key f) rows new,
          to_k,
          find_formula_none k rows,
        ))
    | inr (i, old) ↦
        rw (put_formula_old i old) (
          ground (arith, find_formula-replaced k f rows, find_id-contains (key f) rows i old, to_k))
  ]
    where
      to_k : (key f == k) ≡ true → contains (key f) (keys rows) ≡ contains k (keys rows)
      to_k h = ap (λ j. contains j (keys rows)) ((==_iff (key f) k).0 h)

  -- The insertion keeps ids and keys distinct.
  pub put_formula-IsDistinct :
      IsFresh E
      → IsDistinct (ids rows)
      → IsDistinct (keys rows)
      → IsDistinct (ids (put_formula E f rows).1) × IsDistinct (keys (put_formula E f rows).1)
  put_formula-IsDistinct fresh d e = elim (Option-cases (find_id (key f) rows)) [
    | inl new ↦
        let r : Row = record { id = E.fresh (ids rows); formula = f } in
        rw
          (
            put_formula_new new,
            map-append (λ (q : Row). q.id) rows (r ∷ []),
            map-append row_key rows (r ∷ []),
          )
          (
            IsDistinct-concat r.id (ids rows) (fresh (ids rows)) d,
            IsDistinct-concat (key f) (keys rows) (find_id_none (key f) rows new) e,
          )
    | inr (i, old) ↦ rw (put_formula_old i old, ids-replaced f rows, keys-replaced f rows) (d, e)
  ]

  -- Each row is then the formula's, or one of before with another id.
  pub put_formula-Fresher :
      (Old : Row → Type 0)
      → IsFresh E
      → IsDistinct (ids rows)
      → IsDistinct (keys rows)
      → All Old rows
      → All (Fresher (put_formula E f rows).0 f Old) (put_formula E f rows).1
  unfolding contains
  put_formula-Fresher Old fresh d e a = elim (Option-cases (find_id (key f) rows)) [
    | inl new ↦
        let i = E.fresh (ids rows) in
        rw (put_formula_new new) (
          All-append (Fresher i f Old) rows _ (weaken i rows (fresh (ids rows)) a)
            (inl (refl, refl), tt))
    | inr (i, old) ↦ rw (put_formula_old i old) (replaced_present f Old i rows d e old a)
  ]
    where
      weaken :
          (i : ℕ) (rs : List Row)
          → contains i (ids rs) ≡ false
          → All Old rs
          → All (Fresher i f Old) rs
      weaken i [] h b = tt
      weaken i (r ∷ rs) h b = (inr (ground arith, b.0), weaken i rs (ground arith) b.1)

  -- The ids are then those of before and that of the formula.
  pub contains-put_formula :
      (i : ℕ)
      → contains i (ids (put_formula E f rows).1)
        ≡ (contains i (ids rows) || (put_formula E f rows).0 == i)
  contains-put_formula i = elim (Option-cases (find_id (key f) rows)) [
    | inl new ↦
        let r : Row = record { id = E.fresh (ids rows); formula = f } in
        rw (put_formula_new new, map-append (λ (q : Row). q.id) rows (r ∷ []))
          (contains-concat i r.id (ids rows))
    | inr (j, old) ↦
        rw (put_formula_old j old, ids-replaced f rows)
          (ground (
            arith,
            find_id-some (key f) rows j old,
            ap (λ k. contains k (ids rows)) {x = j} {y = i},
          ))
  ]
