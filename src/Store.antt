-- ===== src/Store.antt =====
-- store/store.go: the database of formulas. This file has its types.
pub mod Collapse
pub mod Database
pub mod Writes
pub mod Search
pub mod Canonical
pub mod Duplicates
use go_mathsearch.Base.{ℕ, List, [], ◌∷◌}
use go_mathsearch.Base.Text.{Text}
use go_mathsearch.Feature.Similarity.{Score}

-- One searchable side of a corpus entry.
pub record Formula : Type 0 where
  pub entry_id : Text
  pub side : Text
  pub label : Text
  pub source : Text
  pub class : Text
  pub latex : Text
  pub mma : Text
  pub canonical : Text
  pub signature : Text
  pub verified : Text

-- One place where a formula appears.
pub record Occurrence : Type 0 where
  pub entry_id : Text
  pub side : Text
  pub source : Text
  pub label : Text

-- A search hit.
pub record Hit : Type 0 where
  pub formula : Formula
  pub score : Score
  pub identity_mma : Text
  pub identity_latex : Text
  pub occurrences : List Occurrence

-- A row as a query returns it, before duplicates are merged.
abbrev pub hit_of : Score → Formula → Hit
hit_of s f = record {
  formula = f;
  score = s;
  identity_mma = [];
  identity_latex = [];
  occurrences = [];
}

abbrev pub occurrence_of : Formula → Occurrence
occurrence_of f = record {
  entry_id = f.entry_id;
  side = f.side;
  source = f.source;
  label = f.label;
}
