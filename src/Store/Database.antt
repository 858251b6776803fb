-- ===== src/Store/Database.antt =====
-- The tables of store/store.go and the SQL statements that its functions run on them. SQLite itself is
-- a parameter: the full-text index, the choice of a new row id, and which statements it carries out.
pub mod Keys
use go_mathsearch.Base.{
  ℕ, Bool, List, [], ◌∷◌, ◌++◌, Option, none, some, map, ◌==◌, nat_eq, if◌then◌else◌, pair_eq,
  contains, ◌≡◌, false, add, select, not, length,
}
use go_mathsearch.Base.Text.{Text, text_eq, put}
use go_mathsearch.Store.{Formula}

-- A row of the table `formulas`.
pub record Row : Type 0 where
  pub id : ℕ
  pub formula : Formula

-- The columns of the table `proofs` beside its key.
pub record Proof : Type 0 where
  pub system : Text
  pub status : Text
  pub proof : Text
  pub updated : Text

-- The tables. `facets` has the pairs of a formula's id and a facet.
pub record Db (Index : Type 0) : Type 0 where
  pub rows : List Row
  pub index : Index
  pub facets : List (ℕ × Text)
  pub meta : List (Text × Text)
  pub proofs : List (Text × Proof)

-- The statements, with their arguments.
pub data Statement : Type 0 where
  begin : Statement
  insert_formula : Formula → Statement
  delete_features : ℕ → Statement
  insert_features : ℕ → Text → Statement
  delete_facets : ℕ → Statement
  insert_facet : ℕ → Text → Statement
  commit : Statement
  delete_all_formulas : Statement
  delete_all_features : Statement
  delete_all_facets : Statement
  insert_meta : Text → Text → Statement
  insert_proof : Text → Text → Text → Text → Statement

-- SQLite.
pub record Engine : Type 1 where
  pub Index : Type 0
  pub deleted : ℕ → Index → Index
  pub inserted : ℕ → Text → Index → Index
  pub cleared : Index → Index
  pub fresh : List ℕ → ℕ
  pub now : Text
  -- The row ids that match a full-text query, best `bm25` first.
  pub matches : Text → Index → List ℕ
  -- The order in which an unordered `SELECT` returns rows.
  pub scan : List Row → List Row
  pub allows : Statement → Db Index → Bool

-- A new `INTEGER PRIMARY KEY` is one that no row has.
abbrev pub IsFresh : Engine → Type 0
IsFresh E = (ids : List ℕ) → contains (E.fresh ids) ids ≡ false

-- An unordered `SELECT` returns each row once.
abbrev pub IsScan : Engine → Type 0
IsScan E =
    (p : Row → Bool) (rows : List Row) → length (select p (E.scan rows)) ≡ length (select p rows)

-- `UNIQUE(entry_id, side)`
abbrev pub key : Formula → Text × Text
key f = (f.entry_id, f.side)

abbrev pub row_key : Row → Text × Text
row_key r = key r.formula

-- `DO UPDATE SET`: the columns beside the key.
abbrev pub updated : Formula → Formula → Formula
updated old f = record old {
  label = f.label;
  source = f.source;
  class = f.class;
  latex = f.latex;
  mma = f.mma;
  canonical = f.canonical;
  signature = f.signature;
  verified = f.verified;
}

-- The id of the row with a key.
unfoldable pub find_id : Text × Text → List Row → Option ℕ
find_id k [] = none
find_id k (r ∷ rs) = if row_key r == k then some r.id else find_id k rs

-- The formula of the row with a key.
unfoldable pub find_formula : Text × Text → List Row → Option Formula
find_formula k [] = none
find_formula k (r ∷ rs) = if row_key r == k then some r.formula else find_formula k rs

abbrev pub replaced : Formula → Row → Row
replaced f r = if row_key r == key f then record r { formula = updated r.formula f } else r

-- `INSERT INTO formulas ... ON CONFLICT(entry_id,side) DO UPDATE SET ... RETURNING id`
unfoldable pub put_formula : Engine → Formula → List Row → ℕ × List Row
unfolding find_id
put_formula E f rows =
    let id = E.fresh (map (λ (r : Row). r.id) rows) in
    elim (find_id (key f) rows) [
      | some i ↦ (i, map (replaced f) rows)
      | none ↦ (id, rows ++ record { id = id; formula = f } ∷ [])
    ]

-- `DELETE FROM facets WHERE formula_id = ?`
abbrev pub without_facets : ℕ → List (ℕ × Text) → List (ℕ × Text)
without_facets id fs = select (λ (p : ℕ × Text). not (p.0 == id)) fs

-- What a statement does to the tables. The transaction statements change none.
unfoldable pub effect : (E : Engine) → Statement → Db E.Index → Db E.Index
unfolding put_formula
effect E Statement.begin db = db
effect E (Statement.insert_formula f) db = record db { rows = (put_formula E f db.rows).1 }
effect E (Statement.delete_features id) db = record db { index = E.deleted id db.index }
effect E (Statement.insert_features id features) db = record db {
  index = E.inserted id features db.index;
}
effect E (Statement.delete_facets id) db = record db { facets = without_facets id db.facets }
effect E (Statement.insert_facet id fc) db = record db { facets = add (id, fc) db.facets }
effect E Statement.commit db = db
effect E Statement.delete_all_formulas db = record db { rows = [] }
effect E Statement.delete_all_features db = record db { index = E.cleared db.index }
effect E Statement.delete_all_facets db = record db { facets = [] }
effect E (Statement.insert_meta k v) db = record db { meta = put k v db.meta }
effect E (Statement.insert_proof entry_id system status proof) db = record db {
  proofs =
      put entry_id (record { system = system; status = status; proof = proof; updated = E.now })
        db.proofs;
}
