-- ===== src/Ingest/Rebuilt.antt =====
-- What `cmdIngest` of cmd/mathsearch/main.go leaves in the tables that it does not fill.
use go_mathsearch.Base.{
  map, some, none, Option, ℕ, Bool, false, ◌||◌, List, [], ◌∷◌, ◌==◌, ==_refl, nat_eq, Bool-cases,
  ◌≡◌, refl, sym, ap, ◌∙◌, inl, inr, arith,
}
use go_mathsearch.Base.Text.{Text, text_eq}
use go_mathsearch.Feature.Similarity.{document}
use go_mathsearch.Feature.Tokens.{tokens_from}
use go_mathsearch.Store.Canonical.{Canonical, Parsed, parsed, parse_error}
use go_mathsearch.Store.Database.{Db, Engine, Statement, effect}
use go_mathsearch.Store.Writes.{Outcome, done, failed, add_formula, add_facets, reset, stale, meta}
use go_mathsearch.Store.Writes.Consistent.{and_then-done}
use go_mathsearch.Server.Edits.{formula_of}
use go_mathsearch.Ingest.Targets.{FileSystem, expand}
use go_mathsearch.Ingest.{
  Batch, Side, cmd_ingest, ingest_files, ingest_targets, is_blank, opened, sides_of_files,
}
use go_mathsearch.Store.{Formula}
use go_mathsearch.Store.Database.{put_formula}
use go_mathsearch.Feature.Facets.{facets_from}
use go_mathsearch.Store.Writes.Fields.{reset-stale}
use go_mathsearch.Ingest.Flushes.{and_then_inv}
use go_mathsearch.Ingest.Batches.{store_side, store_sides, ingest_files-done}

module _ (E : Engine) where
  -- The metadata and the proofs.
  abbrev IsSameBeside : Db E.Index → Db E.Index → Type 0
  IsSameBeside db db' = (db'.meta ≡ db.meta) × (db'.proofs ≡ db.proofs)

  add_facets-same :
      (id : ℕ) (fcs : List Text) (db db' : Db E.Index)
      → add_facets E id fcs db ≡ done db'
      → IsSameBeside db db'
  unfolding add_facets effect
  add_facets-same id [] db db' h =
      let same : db ≡ db' = cc in
      (ap (λ (d : Db E.Index). d.meta) (sym same), ap (λ (d : Db E.Index). d.proofs) (sym same))
  add_facets-same id (x ∷ fcs) db db' h =
      add_facets-same id fcs (effect E (Statement.insert_facet id x) db) db'
        (and_then-done E (Statement.insert_facet id x) db db' (add_facets E id fcs) h)

  add_formula-same :
      (f : Formula) (features : Text) (db db' : Db E.Index)
      → add_formula E f features db ≡ done db'
      → IsSameBeside db db'
  unfolding add_formula effect
  add_formula-same f features db db' h =
      let id = (put_formula E f db.rows).0 in
      let h1 = and_then-done E (Statement.insert_formula f) db db' _ h in
      let h2 = and_then-done E (Statement.delete_features id) _ db' _ h1 in
      let h3 = and_then-done E (Statement.insert_features id features) _ db' _ h2 in
      let h4 = and_then-done E (Statement.delete_facets id) _ db' _ h3 in
      add_facets-same id (facets_from f.canonical) _ db' h4

  module _ (K : Canonical) where
    store_side-same :
        (s : Side) (db db' : Db E.Index) → store_side E K s db ≡ done db' → IsSameBeside db db'
    unfolding store_side
    store_side-same (e, side, mma) db db' h = elim (Bool-cases (is_blank mma)) [
      | inl blank ↦ untouched (rw blank at h)
      | inr full ↦ read (K.parse mma) (rw full at h)
    ]
      where
        untouched : done db ≡ done db' → IsSameBeside db db'
        untouched k =
            let same : db ≡ db' = cc in
            (
              ap (λ (d : Db E.Index). d.meta) (sym same),
              ap (λ (d : Db E.Index). d.proofs) (sym same),
            )

        read :
            (q : Parsed)
            → elim q [
              | parse_error message ↦ done db
              | parsed expr ↦
                  add_formula E
                    (formula_of K e side mma expr)
                    (document (tokens_from (K.canonical expr)))
                    db
            ]
              ≡ done db'
            → IsSameBeside db db'
        read (parse_error message) k = untouched k
        read (parsed expr) k = add_formula-same _ _ db db' k

    store_sides-same :
        (ss : List Side) (db db' : Db E.Index)
        → store_sides E K ss db ≡ done db'
        → IsSameBeside db db'
    unfolding store_sides
    store_sides-same [] db db' h =
        let same : db ≡ db' = cc in
        (ap (λ (d : Db E.Index). d.meta) (sym same), ap (λ (d : Db E.Index). d.proofs) (sym same))
    store_sides-same (s ∷ ss) db db' h =
        let (c, first, others) = and_then_inv (store_side E K s db) (store_sides E K ss) db' h in
        let one = store_side-same s db c first in
        let rest = store_sides-same ss c db' others in (rest.0 ∙ one.0, rest.1 ∙ one.1)

    stale-same :
        (probe : Text) (db db' : Db E.Index)
        → db'.meta ≡ db.meta
        → (stale probe db').0 ≡ (stale probe db).0
    unfolding stale meta
    stale-same probe db db' h = ap (λ m. (stale probe (record db { meta = m })).0) h

    -- What an ingest from a store that is not stale leaves.
    ingest_targets-same :
        (F : FileSystem) (targets : List Text) (base : Db E.Index) (b : Batch E.Index)
        → ingest_targets E K F targets base ≡ done b
        → IsSameBeside base b.committed
    unfolding ingest_targets
    ingest_targets-same F targets base b = go (expand F targets)
      where
        go :
            (o : Option (List Text))
            → elim o [
              | none ↦ failed (opened base)
              | some paths ↦ ingest_files E K (map F.contents paths) base
            ]
              ≡ done b
            → IsSameBeside base b.committed
        go none h = cc
        go (some paths) h =
            store_sides-same (sides_of_files (map F.contents paths)) base b.committed
              (ingest_files-done E K (map F.contents paths) base b h).0

    -- After an ingest without an error the proofs are those of before, and the index is not stale for an
    -- engine whose probe is not empty.
    pub cmd_ingest-stale :
        (probe : Text) (rebuild : Bool) (F : FileSystem) (targets : List Text) (db : Db E.Index)
        (b : Batch E.Index)
        → (probe == []) ≡ false
        → cmd_ingest E K probe rebuild F targets db ≡ done b
        → (b.committed.proofs ≡ db.proofs) × ((stale probe b.committed).0 ≡ false)
    unfolding cmd_ingest
    cmd_ingest-stale probe rebuild F targets db b full h =
        elim (Bool-cases ((stale probe db).0 || rebuild)) [
          | inl anew ↦ emptied (reset E probe db) refl (rw anew at h)
          | inr kept ↦ filled_in db (rw kept at h) refl (ground (arith, kept))
        ]
      where
        filled_in :
            (base : Db E.Index)
            → ingest_targets E K F targets base ≡ done b
            → base.proofs ≡ db.proofs
            → (stale probe base).0 ≡ false
            → (b.committed.proofs ≡ db.proofs) × ((stale probe b.committed).0 ≡ false)
        filled_in base k proofs current =
            let same = ingest_targets-same F targets base b k in
            (same.1 ∙ proofs, stale-same probe base b.committed same.0 ∙ current)

        emptied :
            (o : Outcome (Db E.Index))
            → reset E probe db ≡ o
            → elim o [
              | failed part ↦ failed (opened part)
              | done empty ↦ ingest_targets E K F targets empty
            ]
              ≡ done b
            → (b.committed.proofs ≡ db.proofs) × ((stale probe b.committed).0 ≡ false)
        emptied (failed part) is k = cc
        emptied (done empty) is k =
            let r = reset-stale E probe probe db empty is in
            filled_in empty k r.2 (ground (arith, r.3, full, ==_refl probe))
