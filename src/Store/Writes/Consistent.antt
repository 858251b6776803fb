-- ===== src/Store/Writes/Consistent.antt =====
-- The tables `formulas` and `facets` of store/store.go agree, whatever `Upsert` and `Add` do to them.
use go_mathsearch.Base.{
  ℕ, true, not, ◌||◌, ◌&&◌, List, [], ◌∷◌, some, ◌==◌, ==_iff, ==_comm, nat_eq, if◌then◌else◌,
  Bool-cases, pair_eq, contains, contains-add, contains-select, IsDistinct, All, ◌≡◌, refl, sym, ap,
  ◌∙◌, inl, inr, ◌⊎◌, arith,
}
use go_mathsearch.Base.Text.{Text, text_eq}
use go_mathsearch.Feature.Facets.{facets_from}
use go_mathsearch.Store.{Formula}
use go_mathsearch.Store.Database.{
  Row, Db, Engine, Statement, IsFresh, key, find_formula, put_formula, effect,
}
use go_mathsearch.Store.Database.Keys.{
  ids, keys, find_formula-put, put_formula-IsDistinct, put_formula-Fresher, contains-put_formula,
  Fresher,
}
use go_mathsearch.Store.Writes.{
  Outcome, done, failed, state, and_then, exec, add_facets, add_formula, rolled_back, upsert,
}

-- A row's facets are those of its canonical form.
abbrev pub HasFacets : List (ℕ × Text) → Row → Type 0
HasFacets fs r =
    (fc : Text) → contains (r.id, fc) fs ≡ contains fc (facets_from r.formula.canonical)

-- Ids and keys are unique, and the facets are those of the rows.
pub record IsConsistent {Index : Type 0} (db : Db Index) : Type 0 where
  pub ids_distinct : IsDistinct (ids db.rows)
  pub keys_distinct : IsDistinct (keys db.rows)
  pub facets_right : All (HasFacets db.facets) db.rows
  pub facets_owned :
      (id : ℕ) (fc : Text) → contains (id, fc) db.facets ≡ true → contains id (ids db.rows) ≡ true

-- The facets of one formula set anew.
abbrev pub Renewed : ℕ → List Text → List (ℕ × Text) → List (ℕ × Text) → Type 0
Renewed id fcs fs fs' =
    (i : ℕ) (fc : Text)
    → contains (i, fc) fs' ≡ (if id == i then contains fc fcs else contains (i, fc) fs)

module _ (E : Engine) where
  pub exec-done :
      (st : Statement) (db db' : Db E.Index) → exec E st db ≡ done db' → effect E st db ≡ db'
  unfolding exec
  exec-done st db db' h = elim (Bool-cases (E.allows st db)) [
    | inl allowed ↦ let all : done (effect E st db) ≡ done db' = rw allowed at h in cc
    | inr refused ↦ let none : failed db ≡ done db' = rw refused at h in cc
  ]

  -- What follows a statement that is carried out.
  pub and_then-done :
      (st : Statement) (db db' : Db E.Index) (f : Db E.Index → Outcome (Db E.Index))
      → and_then (exec E st db) f ≡ done db'
      → f (effect E st db) ≡ done db'
  unfolding exec and_then
  and_then-done st db db' f h = elim (Bool-cases (E.allows st db)) [
    | inl allowed ↦ rw allowed at h
    | inr refused ↦ let none : failed db ≡ done db' = rw refused at h in cc
  ]

  -- What the facets loop leaves, when it ends.
  add_facets-done :
      (id : ℕ) (fcs : List Text) (db db' : Db E.Index)
      → add_facets E id fcs db ≡ done db'
      → (db'.rows ≡ db.rows)
        × ((i : ℕ) (fc : Text)
            → contains (i, fc) db'.facets
              ≡ (contains (i, fc) db.facets || id == i && contains fc fcs))
  unfolding add_facets contains effect
  add_facets-done id [] db db' h =
      let same : db ≡ db' = cc in
      (
        ap (λ (d : Db E.Index). d.rows) (sym same),
        λ i fc. ground (arith, ap (λ (d : Db E.Index). contains (i, fc) d.facets) same),
      )
  add_facets-done id (x ∷ fcs) db db' h =
      let rest =
        add_facets-done id fcs (effect E (Statement.insert_facet id x) db) db'
          (and_then-done (Statement.insert_facet id x) db db' (add_facets E id fcs) h) in
      (rest.0, λ i fc. ground (arith, rest.1 i fc, contains-add (i, fc) (id, x) db.facets))

  -- What `add_formula` leaves, when it ends.
  add_formula-done :
      (f : Formula) (features : Text) (db db' : Db E.Index)
      → add_formula E f features db ≡ done db'
      → (db'.rows ≡ (put_formula E f db.rows).1)
        × Renewed (put_formula E f db.rows).0 (facets_from f.canonical) db.facets db'.facets
  unfolding add_formula effect
  add_formula-done f features db db' h =
      let id = (put_formula E f db.rows).0 in
      let h1 = and_then-done (Statement.insert_formula f) db db' _ h in
      let h2 = and_then-done (Statement.delete_features id) _ db' _ h1 in
      let h3 = and_then-done (Statement.insert_features id features) _ db' _ h2 in
      let h4 = and_then-done (Statement.delete_facets id) _ db' _ h3 in
      let loop = add_facets-done id (facets_from f.canonical) _ db' h4 in
      (
        loop.0,
        λ i fc. ground (
          arith,
          loop.1 i fc,
          ==_comm id i,
          contains-select (λ (p : ℕ × Text). not (p.0 == id)) (i, fc) db.facets,
        ),
      )

  -- A row of the formula or of before has its facets among the new ones.
  HasFacets-Renewed :
      (f : Formula) (id : ℕ) (fs fs' : List (ℕ × Text))
      → Renewed id (facets_from f.canonical) fs fs'
      → (rows : List Row) → All (Fresher id f (HasFacets fs)) rows
      → All (HasFacets fs') rows
  HasFacets-Renewed f id fs fs' new [] a = tt
  HasFacets-Renewed f id fs fs' new (r ∷ rs) a =
      (here a.0, HasFacets-Renewed f id fs fs' new rs a.1)
    where
      here : Fresher id f (HasFacets fs) r → HasFacets fs' r
      here (inl (same, is_f)) fc =
          new r.id fc
          ∙ rw ((==_iff id r.id).1 (sym same))
              (ap (λ (g : Formula). contains fc (facets_from g.canonical)) (sym is_f))
      here (inr (other, old)) fc = new r.id fc ∙ rw (==_comm id r.id ∙ other) (old fc)

  -- If a new row id is one that no row has, a successful `Add` keeps the tables consistent.
  pub add_formula-IsConsistent :
      (f : Formula) (features : Text) (db db' : Db E.Index)
      → IsFresh E
      → IsConsistent db
      → add_formula E f features db ≡ done db'
      → IsConsistent db'
  add_formula-IsConsistent f features db db' fresh c h =
      let (rows, new) = add_formula-done f features db db' h in
      let id = (put_formula E f db.rows).0 in
      let unique = put_formula-IsDistinct E f db.rows fresh c.ids_distinct c.keys_distinct in
      let fresher =
        put_formula-Fresher E f db.rows (HasFacets db.facets) fresh c.ids_distinct c.keys_distinct
          c.facets_right in
      record {
        ids_distinct = rw rows unique.0;
        keys_distinct = rw rows unique.1;
        facets_right = rw rows (HasFacets-Renewed f id db.facets db'.facets new _ fresher);
        facets_owned = λ i fc k.
            rw rows (
              ground (arith, contains-put_formula E f db.rows i, new i fc, c.facets_owned i fc, k));
      }

  rolled_back-done :
      (db db' : Db E.Index) (o : Outcome (Db E.Index))
      → rolled_back E db o ≡ done db'
      → o ≡ done db'
  unfolding rolled_back
  rolled_back-done db db' (done new) h = h
  rolled_back-done db db' (failed part) h = cc

  rolled_back-failed :
      (db db' : Db E.Index) (o : Outcome (Db E.Index)) → rolled_back E db o ≡ failed db' → db' ≡ db
  unfolding rolled_back
  rolled_back-failed db db' (done new) h = cc
  rolled_back-failed db db' (failed part) h = cc

  then_commit :
      (o : Outcome (Db E.Index)) (db' : Db E.Index)
      → and_then o (exec E Statement.commit) ≡ done db'
      → o ≡ done db'
  unfolding and_then effect
  then_commit (done new) db' h = ap done (exec-done Statement.commit new db' h)
  then_commit (failed part) db' h = cc

  -- What a successful `Upsert` has done is what `Add` does.
  upsert-add_formula :
      (f : Formula) (features : Text) (db db' : Db E.Index)
      → upsert E f features db ≡ done db'
      → add_formula E f features db ≡ done db'
  unfolding upsert effect
  upsert-add_formula f features db db' h =
      let all = rolled_back-done db db' _ h in
      then_commit (add_formula E f features db) db' (and_then-done Statement.begin db db' _ all)

  upsert-failed :
      (f : Formula) (features : Text) (db db' : Db E.Index)
      → upsert E f features db ≡ failed db'
      → db' ≡ db
  unfolding upsert
  upsert-failed f features db db' h = rolled_back-failed db db' _ h

  -- `Upsert` either does all that `Add` does, or returns an error and leaves the database as it was.
  pub upsert_atomic :
      (f : Formula) (features : Text) (db : Db E.Index)
      → (upsert E f features db ≡ failed db)
        ⊎ ((new : Db E.Index) × (upsert E f features db ≡ done new)
            × (add_formula E f features db ≡ done new))
  upsert_atomic f features db = go (upsert E f features db) refl
    where
      go :
          (o : Outcome (Db E.Index))
          → upsert E f features db ≡ o
          → (upsert E f features db ≡ failed db)
            ⊎ ((new : Db E.Index) × (upsert E f features db ≡ done new)
                × (add_formula E f features db ≡ done new))
      go (done new) h = inr (new, h, upsert-add_formula f features db new h)
      go (failed old) h = inl (h ∙ ap failed (upsert-failed f features db old h))

  -- After a successful `Upsert` the formula stands under its entry and side, as it was given, and every
  -- other entry and side has what it had.
  pub find_formula-upsert :
      (k : Text × Text) (f : Formula) (features : Text) (db db' : Db E.Index)
      → upsert E f features db ≡ done db'
      → find_formula k db'.rows ≡ (if key f == k then some f else find_formula k db.rows)
  find_formula-upsert k f features db db' h =
      ap (find_formula k)
        (add_formula-done f features db db' (upsert-add_formula f features db db' h)).0
      ∙ find_formula-put E f db.rows k

  -- If a new row id is one that no row has, `Upsert` keeps the tables consistent, whether or not it
  -- returns an error.
  pub upsert-IsConsistent :
      (f : Formula) (features : Text) (db : Db E.Index)
      → IsFresh E
      → IsConsistent db
      → IsConsistent (state (upsert E f features db))
  upsert-IsConsistent f features db fresh c = go (upsert E f features db) refl
    where
      go : (o : Outcome (Db E.Index)) → upsert E f features db ≡ o → IsConsistent (state o)
      go (done new) h =
          add_formula-IsConsistent f features db new fresh c
            (upsert-add_formula f features db new h)
      go (failed old) h = rw (upsert-failed f features db old h) c
