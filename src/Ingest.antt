-- ===== src/Ingest.antt =====
-- cmd/mathsearch/main.go: `cmdIngest` over an open store, from the check for a stale index to the last
-- commit.
pub mod Targets
pub mod Flushes
pub mod Batches
pub mod Kept
pub mod Rebuilt
use go_mathsearch.Base.{
  Option, none, some, ℕ, suc, Bool, ◌||◌, List, [], ◌∷◌, ◌++◌, map, ◌==◌, nat_eq, leb,
  if◌then◌else◌,
}
use go_mathsearch.Base.Spaces.{trim_space}
use go_mathsearch.Base.Text.{Text, codes, text_eq}
use go_mathsearch.Feature.Similarity.{document}
use go_mathsearch.Feature.Tokens.{tokens_from}
use go_mathsearch.Latexfmt.Terms.{Expr}
use go_mathsearch.Store.Canonical.{Canonical, parsed, parse_error}
use go_mathsearch.Store.Database.{Db, Engine, Statement}
use go_mathsearch.Store.Writes.{Outcome, done, failed, and_then, exec, add_formula, reset, stale}
use go_mathsearch.Server.Replies.{Entry}
use go_mathsearch.Ingest.Targets.{File, unreadable, invalid, entries, FileSystem, expand}
use go_mathsearch.Server.Edits.{formula_of, sides_of}

-- A side of an entry: the entry, the side's name, and its formula.
abbrev pub Side : Type 0
Side = Entry × Text × Text

unfoldable pub sides_of_entries : List Entry → List Side
sides_of_entries [] = []
sides_of_entries (e ∷ es) =
    map (λ (p : Text × Text). (e, p.0, p.1)) (sides_of e) ++ sides_of_entries es

-- What the three nested loops range over: a file that is skipped has nothing.
unfoldable pub sides_of_files : List File → List Side
unfolding sides_of_entries
sides_of_files [] = []
sides_of_files (unreadable ∷ fs) = sides_of_files fs
sides_of_files (invalid ∷ fs) = sides_of_files fs
sides_of_files (entries es ∷ fs) = sides_of_entries es ++ sides_of_files fs

-- `batchSize`
abbrev pub batch_size : ℕ
batch_size = 1000

-- The database as it is committed and as the open transaction has it, and the counters.
pub record Batch (Index : Type 0) : Type 0 where
  pub committed : Db Index
  pub working : Db Index
  pub in_batch : ℕ
  pub indexed : ℕ
  pub parse_fail : ℕ

abbrev pub opened : {Index : Type 0} → Db Index → Batch Index
opened db = record { committed = db; working = db; in_batch = 0; indexed = 0; parse_fail = 0 }

abbrev pub is_blank : Text → Bool
is_blank mma = trim_space mma == []

module _ (E : Engine) (K : Canonical) where
  -- `flush`: `Begin` also stands for the statements that `NewIngester` prepares.
  unfoldable pub flush : Batch E.Index → Outcome (Batch E.Index)
  unfolding exec
  flush b = if b.in_batch == 0 then done b else (elim (exec E Statement.commit b.working) [
    | failed same ↦ failed (record b { working = b.committed })
    | done new ↦ elim (exec E Statement.begin new) [
      | failed same ↦ failed (record b { committed = new; working = new; in_batch = 0 })
      | done next ↦ done (record b { committed = new; working = next; in_batch = 0 })
    ]
  ])

  -- A formula that `Add` has stored is counted, and a full batch is committed.
  unfoldable pub counted : Batch E.Index → Outcome (Batch E.Index)
  unfolding flush
  counted b =
      let more = record b { indexed = suc b.indexed; in_batch = suc b.in_batch } in
      if leb batch_size more.in_batch then flush more else done more

  -- One turn of the innermost loop.
  unfoldable pub ingest_side : Side → Batch E.Index → Outcome (Batch E.Index)
  unfolding trim_space add_formula counted
  ingest_side (e, side, mma) b = if is_blank mma then done b else (elim (K.parse mma) [
    | parse_error message ↦ done (record b { parse_fail = suc b.parse_fail })
    | parsed expr ↦
        elim (add_formula E (formula_of K e side mma expr)
          (document (tokens_from (K.canonical expr))) b.working) [
            | failed part ↦ failed (record b { working = b.committed })
            | done new ↦ counted (record b { working = new })
          ]
  ])

  unfoldable pub ingest_sides : List Side → Batch E.Index → Outcome (Batch E.Index)
  unfolding and_then ingest_side
  ingest_sides [] b = done b
  ingest_sides (s ∷ ss) b = and_then (ingest_side s b) (ingest_sides ss)

  -- The loops between the first `NewIngester` and the last `flush`.
  unfoldable pub ingest_files : List File → Db E.Index → Outcome (Batch E.Index)
  unfolding and_then exec ingest_sides sides_of_files flush
  ingest_files files db = elim (exec E Statement.begin db) [
    | failed same ↦ failed (opened same)
    | done new ↦ and_then (ingest_sides (sides_of_files files) (opened new)) flush
  ]

  -- The targets expanded, and their files ingested.
  unfoldable pub ingest_targets : FileSystem → List Text → Db E.Index → Outcome (Batch E.Index)
  unfolding expand ingest_files
  ingest_targets F targets db = elim (expand F targets) [
    | none ↦ failed (opened db)
    | some paths ↦ ingest_files (map F.contents paths) db
  ]

  -- `cmdIngest`, behind its flags: a stale index, or a forced rebuild, empties the store first.
  unfoldable pub cmd_ingest :
      Text → Bool → FileSystem → List Text → Db E.Index → Outcome (Batch E.Index)
  unfolding stale reset ingest_targets
  cmd_ingest engine_probe rebuild F targets db =
      if (stale engine_probe db).0 || rebuild
      then (elim (reset E engine_probe db) [
        | failed part ↦ failed (opened part)
        | done empty ↦ ingest_targets F targets empty
      ])
      else ingest_targets F targets db
