-- ===== src/Store/Writes.antt =====
-- The functions of store/store.go that change the database, and those that read back its metadata and
-- its proofs. A function that returns an error leaves the database as the failing statement found it.
pub mod Consistent
pub mod Fields
use go_mathsearch.Base.{
  ℕ, Bool, true, false, not, List, [], ◌∷◌, ◌++◌, Option, none, some, ◌==◌, nat_eq, if◌then◌else◌,
  pair_eq, add, select, length,
}
use go_mathsearch.Base.Text.{Text, codes, text_eq, lookup, put}
use go_mathsearch.Feature.Facets.{facets_from}
use go_mathsearch.Store.{Formula}
use go_mathsearch.Store.Database.{Db, Engine, Statement, Proof, put_formula, effect}

-- A state and whether the error is nil.
pub data Outcome (A : Type 0) : Type 0 where
  done : A → Outcome A
  failed : A → Outcome A

abbrev pub state : {A : Type 0} → Outcome A → A
state (done a) = a
state (failed a) = a

-- `if err := ...; err != nil { return err }`
unfoldable pub and_then : {A : Type 0} → Outcome A → (A → Outcome A) → Outcome A
and_then (done a) f = f a
and_then (failed a) f = failed a

module _ (E : Engine) where
  unfoldable pub exec : Statement → Db E.Index → Outcome (Db E.Index)
  unfolding effect
  exec st db = if E.allows st db then done (effect E st db) else failed db

  -- The loop over the facets.
  unfoldable pub add_facets : ℕ → List Text → Db E.Index → Outcome (Db E.Index)
  unfolding and_then exec
  add_facets id [] db = done db
  add_facets id (fc ∷ fcs) db =
      and_then (exec (Statement.insert_facet id fc) db) (add_facets id fcs)

  -- `Ingester.Add`, and the statements of `Upsert` between its `Begin` and its `Commit`.
  unfoldable pub add_formula : Formula → Text → Db E.Index → Outcome (Db E.Index)
  unfolding and_then exec add_facets
  add_formula f features db =
      let id = (put_formula E f db.rows).0 in
      and_then (exec (Statement.insert_formula f) db) (λ db.
        and_then (exec (Statement.delete_features id) db) (λ db.
          and_then (exec (Statement.insert_features id features) db) (λ db.
            and_then (exec (Statement.delete_facets id) db)
              (add_facets id (facets_from f.canonical)))))

  -- The rollback that `Upsert` defers undoes everything unless the commit is done.
  unfoldable pub rolled_back : Db E.Index → Outcome (Db E.Index) → Outcome (Db E.Index)
  rolled_back db (done new) = done new
  rolled_back db (failed part) = failed db

  -- `Upsert`
  unfoldable pub upsert : Formula → Text → Db E.Index → Outcome (Db E.Index)
  unfolding and_then exec add_formula rolled_back
  upsert f features db = rolled_back db (
      and_then (exec Statement.begin db)
        (λ db. and_then (add_formula f features db) (exec Statement.commit)))

  -- `setMeta`
  unfoldable pub set_meta : Text → Text → Db E.Index → Outcome (Db E.Index)
  unfolding exec
  set_meta k v = exec (Statement.insert_meta k v)

  -- `Reset`: three statements, each committed by itself, then two entries of the metadata.
  unfoldable pub reset : Text → Db E.Index → Outcome (Db E.Index)
  unfolding and_then exec set_meta
  reset engine_probe db = and_then (exec Statement.delete_all_formulas db) (λ db.
      and_then (exec Statement.delete_all_features db) (λ db.
        and_then (exec Statement.delete_all_facets db) (λ db.
          and_then (set_meta (codes "engine_probe") engine_probe db)
            (set_meta (codes "schema_version") (codes "2")))))

  -- `SetProof`
  unfoldable pub set_proof : Text → Text → Text → Text → Db E.Index → Outcome (Db E.Index)
  unfolding exec
  set_proof entry_id system status proof =
      exec (Statement.insert_proof entry_id system status proof)

abbrev pub text_or_empty : Option Text → Text
text_or_empty none = []
text_or_empty (some v) = v

abbrev pub proof_columns : Option Proof → Option (Text × Text × Text)
proof_columns none = none
proof_columns (some p) = some (p.system, p.status, p.proof)

module _ {Index : Type 0} where
  -- `meta`: a missing key reads as the empty string.
  unfoldable pub meta : Text → Db Index → Text
  meta k db = text_or_empty (lookup k db.meta)

  -- `Stale`, with its reason.
  unfoldable pub stale : Text → Db Index → Bool × Text
  unfolding meta
  stale engine_probe db =
      let stored = meta (codes "engine_probe") db in
      let schema = meta (codes "schema_version") db in
      if stored == []
      then (true, codes "no engine fingerprint recorded (empty store)")
      else if not (stored == engine_probe)
      then (true, codes "go-canonical engine changed since last ingest")
      else if not (schema == codes "2")
      then (true, codes "schema version changed")
      else (false, [])

  -- `Proof`
  unfoldable pub proof : Text → Db Index → Option (Text × Text × Text)
  proof entry_id db = proof_columns (lookup entry_id db.proofs)

  -- `Count`
  unfoldable pub count : Db Index → ℕ
  count db = length db.rows
