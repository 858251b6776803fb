-- ===== src/Tests/Ingests.antt =====
-- `cmdIngest` of cmd/mathsearch/main.go on a file with one entry and a file that cannot be read.
use go_mathsearch.Base.{
  none, some, ◌++◌, if◌then◌else◌, ℕ, ◌+◌, true, false, List, [], ◌∷◌, ◌==◌, nat_eq, ◌≡◌, refl,
}
use go_mathsearch.Base.Spaces.{trim_space, trim_front, trim_back}
use go_mathsearch.Base.Text.{Text, codes, text_eq, text_beq, lookup}
use go_mathsearch.Store.Writes.{done, state, and_then, exec, reset, stale, meta, set_meta}
use go_mathsearch.Store.Writes.Consistent.{IsConsistent}
use go_mathsearch.Ingest.Targets.{
  File, unreadable, invalid, entries, FileSystem, expand, expand_all, expand_target, expand_home,
  has_meta,
}
use go_mathsearch.Auth.RateLimit.{has_prefix}
use go_mathsearch.Base.Sorting.{sort, insert, text_lt}
use go_mathsearch.Ingest.{
  sides_of_entries, sides_of_files, Batch, flush, counted, ingest_side, ingest_sides, ingest_files,
  ingest_targets, cmd_ingest,
}
use go_mathsearch.Ingest.Batches.{filled, store_sides, ingest_files-done}
use go_mathsearch.Ingest.Kept.{ingest_files-IsConsistent}
use go_mathsearch.Ingest.Rebuilt.{cmd_ingest-stale}
use go_mathsearch.Tests.Data.{engine, engine-IsFresh, empty}
use go_mathsearch.Tests.Tables.{empty-IsConsistent, add_formula_all, broken}
use go_mathsearch.Tests.Requests.{canon, entry}

abbrev files : List File
files = unreadable ∷ entries (entry ∷ []) ∷ invalid ∷ []

abbrev batch : Batch (List ℕ)
batch = state (ingest_files engine canon files empty)

ingested : ingest_files engine canon files empty ≡ done batch
unfolding ingest_files ingest_sides ingest_side counted flush and_then exec sides_of_files
    sides_of_entries trim_space trim_front trim_back text_beq lookup
ingested = rw add_formula_all

ingest_files-done_example :
    (store_sides engine canon (sides_of_files files) empty ≡ done batch.committed)
    × (batch.working ≡ batch.committed)
    × (batch.in_batch ≡ 0)
    × (batch.indexed + batch.parse_fail ≡ filled (sides_of_files files))
ingest_files-done_example = ingest_files-done engine canon files empty batch ingested

ingest_files-IsConsistent_example :
    IsConsistent (state (ingest_files broken canon files empty)).committed
ingest_files-IsConsistent_example =
    ingest_files-IsConsistent broken canon files empty engine-IsFresh empty-IsConsistent

-- A directory with the three files.
abbrev contents : Text → File
contents path =
    if path == codes "b.json"
    then entries (entry ∷ [])
    else if path == codes "a.json"
    then unreadable
    else invalid

abbrev file_system : FileSystem
file_system = record {
  home = none;
  join_path = λ dir name. dir ++ (b'/' ∷ name);
  glob = λ pattern. some (codes "b.json" ∷ codes "c.json" ∷ codes "a.json" ∷ []);
  is_dir = λ path. some true;
  contents = contents;
}

abbrev rebuilt : Batch (List ℕ)
rebuilt = state (cmd_ingest engine canon (codes "p") true file_system (codes "corpus" ∷ []) empty)

rebuilt_done :
    cmd_ingest engine canon (codes "p") true file_system (codes "corpus" ∷ []) empty ≡ done rebuilt
unfolding cmd_ingest ingest_targets expand expand_all expand_target expand_home has_prefix has_meta
    sort insert text_lt stale meta reset set_meta ingest_files ingest_sides ingest_side counted
    flush and_then exec sides_of_files sides_of_entries trim_space trim_front trim_back text_beq
    lookup
rebuilt_done = rw add_formula_all

probe_set : (codes "p" == []) ≡ false
unfolding text_beq
probe_set = refl

cmd_ingest-stale_example :
    (rebuilt.committed.proofs ≡ empty.proofs) × ((stale (codes "p") rebuilt.committed).0 ≡ false)
cmd_ingest-stale_example =
    cmd_ingest-stale engine canon (codes "p") true file_system (codes "corpus" ∷ []) empty rebuilt
      probe_set rebuilt_done
