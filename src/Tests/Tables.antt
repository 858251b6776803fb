-- ===== src/Tests/Tables.antt =====
-- The functions of store/store.go that write, on a small database.
use go_mathsearch.Base.{
  ℕ, ◌≡◌, ◌↔◌, ◌⊎◌, refl, Bool, true, false, not, ◌||◌, some, List, [], ◌∷◌, ◌==◌, pair_eq,
  if◌then◌else◌, contains,
}
use go_mathsearch.Base.Text.{Text, codes, text_eq}
use go_mathsearch.Store.{Formula}
use go_mathsearch.Store.Database.{Db, Engine, Statement, key, find_formula, effect}
use go_mathsearch.Store.Writes.{
  Outcome, done, failed, state, and_then, exec, add_facets, add_formula, rolled_back, upsert,
  set_meta, reset, set_proof, meta, stale, proof,
}
use go_mathsearch.Store.Writes.Consistent.{
  IsConsistent, upsert-IsConsistent, upsert_atomic, find_formula-upsert,
}
use go_mathsearch.Store.Writes.Fields.{proof-set_proof, reset-stale, stale-false_iff}
use go_mathsearch.Feature.Facets.{facets_from}
use go_mathsearch.Tests.Data.{formula, engine, engine-IsFresh, empty}

abbrev sine : Formula
sine = formula (codes "a") (codes "lhs") (codes "s")

pub empty-IsConsistent : IsConsistent empty
unfolding contains
empty-IsConsistent = record {
  ids_distinct = tt;
  keys_distinct = tt;
  facets_right = tt;
  facets_owned = λ id fc h. cc;
}

upsert-IsConsistent_example : IsConsistent (state (upsert engine sine (codes "t1") empty))
upsert-IsConsistent_example =
    upsert-IsConsistent engine sine (codes "t1") empty engine-IsFresh empty-IsConsistent

-- The engine refuses nothing, so the insertion is done.
add_facets_all :
    (id : ℕ) (fcs : List Text) (db : Db (List ℕ))
    → add_facets engine id fcs db ≡ done (state (add_facets engine id fcs db))
unfolding add_facets and_then exec
add_facets_all id [] db = refl
add_facets_all id (fc ∷ fcs) db =
    add_facets_all id fcs (effect engine (Statement.insert_facet id fc) db)

pub add_formula_all :
    (f : Formula) (features : Text) (db : Db (List ℕ))
    → add_formula engine f features db ≡ done (state (add_formula engine f features db))
unfolding add_formula and_then exec
add_formula_all f features db = add_facets_all _ (facets_from f.canonical) _

-- The commit is done as well.
committed :
    (db : Db (List ℕ)) (o : Outcome (Db (List ℕ)))
    → o ≡ done (state o)
    → rolled_back engine db (and_then o (exec engine Statement.commit)) ≡ done (state o)
unfolding rolled_back and_then exec effect
committed db (done a) h = refl
committed db (failed a) h = cc

pub upsert_all :
    (f : Formula) (features : Text) (db : Db (List ℕ))
    → upsert engine f features db ≡ done (state (add_formula engine f features db))
unfolding upsert and_then exec effect
upsert_all f features db =
    committed db (add_formula engine f features db) (add_formula_all f features db)

find_formula-upsert_example :
    find_formula (key sine) (state (add_formula engine sine (codes "t1") empty)).rows
    ≡ (if key sine == key sine then some sine else find_formula (key sine) empty.rows)
find_formula-upsert_example =
    find_formula-upsert engine (key sine) sine (codes "t1") empty
      (state (add_formula engine sine (codes "t1") empty)) (upsert_all sine (codes "t1") empty)

-- An engine that fails to index features.
abbrev refuses : Statement → Bool
refuses (Statement.insert_features id features) = true
refuses _ = false

abbrev pub broken : Engine
broken = record engine { allows = λ statement db. not (refuses statement) }

upsert_refused : upsert broken sine (codes "t1") empty ≡ failed empty
unfolding upsert and_then exec effect rolled_back add_formula
upsert_refused = refl

upsert_atomic_example :
    (upsert broken sine (codes "t1") empty ≡ failed empty)
    ⊎ ((new : Db (List ℕ)) × (upsert broken sine (codes "t1") empty ≡ done new)
        × (add_formula broken sine (codes "t1") empty ≡ done new))
upsert_atomic_example = upsert_atomic broken sine (codes "t1") empty

-- The proof of an entry.
abbrev proved : Db (List ℕ)
proved =
    state (set_proof engine (codes "a") (codes "lean4") (codes "verified") (codes "by rfl") empty)

set_proof_done :
    set_proof engine (codes "a") (codes "lean4") (codes "verified") (codes "by rfl") empty
    ≡ done proved
unfolding set_proof exec
set_proof_done = refl

proof-set_proof_example : proof (codes "a") proved ≡ (
    if codes "a" == codes "a"
    then some (codes "lean4", codes "verified", codes "by rfl")
    else proof (codes "a") empty)
proof-set_proof_example =
    proof-set_proof engine (codes "a") (codes "a") (codes "lean4") (codes "verified")
      (codes "by rfl") empty proved set_proof_done

reset_done : reset engine (codes "p") proved ≡ done (state (reset engine (codes "p") proved))
unfolding reset set_meta and_then exec
reset_done = refl

reset-stale_example :
    ((state (reset engine (codes "p") proved)).rows ≡ [])
    × ((state (reset engine (codes "p") proved)).facets ≡ [])
    × ((state (reset engine (codes "p") proved)).proofs ≡ proved.proofs)
    × ((stale (codes "q") (state (reset engine (codes "p") proved))).0
        ≡ (codes "p" == [] || not (codes "p" == codes "q")))
reset-stale_example =
    reset-stale engine (codes "p") (codes "q") proved (state (reset engine (codes "p") proved))
      reset_done

stale-false_iff_example : ((stale (codes "p") empty).0 ≡ false) ↔ (
    (meta (codes "engine_probe") empty ≡ codes "p")
    × (meta (codes "schema_version") empty ≡ codes "2")
    × ((codes "p" == []) ≡ false))
stale-false_iff_example = stale-false_iff (codes "p") empty
