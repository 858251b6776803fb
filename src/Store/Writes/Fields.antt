-- ===== src/Store/Writes/Fields.antt =====
-- The metadata and the proofs of store/store.go: what is written is what is read back.
use go_mathsearch.Base.{
  false, not, ◌||◌, List, [], some, ◌==◌, ==_iff, ==_refl, if◌then◌else◌, ◌≡◌, ◌↔◌, sym, ap, ◌∙◌,
  arith, if-ap,
}
use go_mathsearch.Base.Text.{Text, codes, text_eq, text_beq, lookup, put, lookup-put}
use go_mathsearch.Store.Database.{Db, Engine, Statement, Proof, effect}
use go_mathsearch.Store.Writes.{
  done, state, and_then, exec, set_meta, reset, set_proof, text_or_empty, proof_columns, meta,
  stale, proof,
}
use go_mathsearch.Store.Writes.Consistent.{exec-done, and_then-done}

-- The metadata that `Reset` leaves.
stamped-engine_probe :
    (p : Text) (m : List (Text × Text))
    → lookup
        (codes "engine_probe")
        (put (codes "schema_version") (codes "2") (put (codes "engine_probe") p m))
      ≡ some p
unfolding text_beq
stamped-engine_probe p m =
    lookup-put (codes "engine_probe") (codes "schema_version") (codes "2")
      (put (codes "engine_probe") p m)
    ∙ lookup-put (codes "engine_probe") (codes "engine_probe") p m

stamped-schema_version :
    (p : Text) (m : List (Text × Text))
    → lookup
        (codes "schema_version")
        (put (codes "schema_version") (codes "2") (put (codes "engine_probe") p m))
      ≡ some (codes "2")
unfolding text_beq
stamped-schema_version p m =
    lookup-put (codes "schema_version") (codes "schema_version") (codes "2")
      (put (codes "engine_probe") p m)

module _ (E : Engine) where
  -- After a proof is stored it is the one returned for its entry, and the proofs of the other entries
  -- are as before.
  pub proof-set_proof :
      (entry other system status text : Text) (db db' : Db E.Index)
      → set_proof E entry system status text db ≡ done db'
      → proof other db' ≡ (if entry == other then some (system, status, text) else proof other db)
  unfolding set_proof proof effect
  proof-set_proof entry other system status text db db' h =
      let eff = exec-done E (Statement.insert_proof entry system status text) db db' h in
      let now : Proof = record {
        system = system;
        status = status;
        proof = text;
        updated = E.now;
      } in
      ap (proof other) (sym eff)
      ∙ ap proof_columns (lookup-put other entry now db.proofs)
      ∙ if-ap proof_columns (entry == other) _ _

  meta-set_meta :
      (k other v : Text) (db db' : Db E.Index)
      → set_meta E k v db ≡ done db'
      → meta other db' ≡ (if k == other then v else meta other db)
  unfolding set_meta meta effect
  meta-set_meta k other v db db' h =
      ap (meta other) (sym (exec-done E (Statement.insert_meta k v) db db' h))
      ∙ ap text_or_empty (lookup-put other k v db.meta)
      ∙ if-ap text_or_empty (k == other) _ _

  -- After a `Reset` without error the tables of formulas and facets are empty, the proofs are those of
  -- before, and the store is stale exactly for another engine or one with an empty probe.
  pub reset-stale :
      (engine_probe current : Text) (db db' : Db E.Index)
      → reset E engine_probe db ≡ done db'
      → (db'.rows ≡ [])
        × (db'.facets ≡ [])
        × (db'.proofs ≡ db.proofs)
        × ((stale current db').0 ≡ (engine_probe == [] || not (engine_probe == current)))
  unfolding reset set_meta stale meta effect
  reset-stale engine_probe current db db' h =
      let h1 = and_then-done E Statement.delete_all_formulas db db' _ h in
      let h2 = and_then-done E Statement.delete_all_features _ db' _ h1 in
      let h3 = and_then-done E Statement.delete_all_facets _ db' _ h2 in
      let h4 =
        and_then-done E (Statement.insert_meta (codes "engine_probe") engine_probe) _ db' _ h3 in
      let h5 = exec-done E (Statement.insert_meta (codes "schema_version") (codes "2")) _ db' h4 in
      let probe =
        ap (meta (codes "engine_probe")) (sym h5)
        ∙ ap text_or_empty (stamped-engine_probe engine_probe db.meta) in
      let schema =
        ap (meta (codes "schema_version")) (sym h5)
        ∙ ap text_or_empty (stamped-schema_version engine_probe db.meta) in
      (
        ap (λ (d : Db E.Index). d.rows) (sym h5),
        ap (λ (d : Db E.Index). d.facets) (sym h5),
        ap (λ (d : Db E.Index). d.proofs) (sym h5),
        rw (probe, schema) (ground (arith, ==_refl (codes "2"))),
      )

  -- `Reset` never touches the proofs, even when it stops half-way.
  pub proofs-reset :
      (engine_probe : Text) (db : Db E.Index) → (state (reset E engine_probe db)).proofs ≡ db.proofs
  unfolding reset set_meta exec effect and_then
  proofs-reset engine_probe db = ground arith

module _ {Index : Type 0} where
  -- A store is not stale exactly if its recorded probe is the engine's, which is not empty, and its
  -- recorded schema version is the current one.
  pub stale-false_iff :
      (current : Text) (db : Db Index)
      → ((stale current db).0 ≡ false) ↔ (
          (meta (codes "engine_probe") db ≡ current)
          × (meta (codes "schema_version") db ≡ codes "2")
          × ((current == []) ≡ false))
  unfolding stale
  stale-false_iff current db =
      let stored = meta (codes "engine_probe") db in
      let schema = meta (codes "schema_version") db in
      let same = ==_iff stored current in
      ground (arith, same, ==_iff schema (codes "2"), ap (λ t. t == []) {x = stored} {y = current})
