-- ===== src/Server/Replies.antt =====
-- cmd/mathsearch/serve.go and main.go: what the handlers read of a request and what they write, with the
-- parts of the server that they use.
use go_mathsearch.Base.{ℕ, List, map, Bool}
use go_mathsearch.Base.Int.{ℤ, pos, negsuc}
use go_mathsearch.Base.Text.{Text}
use go_mathsearch.Feature.Similarity.{Score}
use go_mathsearch.Store.{Hit, Occurrence}
use go_mathsearch.Store.Database.{Db, Engine}

-- `entry`
pub record Entry : Type 0 where
  pub id : Text
  pub label : Text
  pub source : Text
  pub class : Text
  pub latex : Text
  pub lhs : Text
  pub rhs : Text
  pub verified : Text

-- The body of `handlePutProof`.
pub record ProofBody : Type 0 where
  pub system : Text
  pub status : Text
  pub proof : Text

-- `hitJSON`
pub record HitJson : Type 0 where
  pub entry_id : Text
  pub side : Text
  pub label : Text
  pub class : Text
  pub latex : Text
  pub mma : Text
  pub identity_mma : Text
  pub identity_latex : Text
  pub signature : Text
  pub score : Score
  pub occurrences : List Occurrence

-- `toHits`
abbrev pub to_hits : List Hit → List HitJson
to_hits = map (λ h. record {
  entry_id = h.formula.entry_id;
  side = h.formula.side;
  label = h.formula.label;
  class = h.formula.class;
  latex = h.formula.latex;
  mma = h.formula.mma;
  identity_mma = h.identity_mma;
  identity_latex = h.identity_latex;
  signature = h.formula.signature;
  score = h.score;
  occurrences = h.occurrences;
})

-- The body of a response: the text of `http.Error` or of the key "error", an error of the database or of
-- another library, a page, the target of a redirection, or the fields of a JSON object.
pub data Reply : Type 0 where
  error : Text → Reply
  internal : Reply
  page : Text → Reply
  redirect : Text → Reply
  stats : ℕ → Reply
  search_hits : Text → List HitJson → List HitJson → Reply
  facet_hits : List Text → ℕ → List (Text × ℕ) → ℤ → List HitJson → Reply
  login_token : Text → ℤ → Reply
  social_token : Text → Text → Text → ℤ → Reply
  indexed : ℕ → List (Text × Text) → Reply
  stored_proof : Text → Text → Text → Text → Reply
  proof_set : Text → Text → Text → Reply

-- A status and a body.
abbrev pub Response : Type 0
Response = ℕ × Reply

-- The queries of the store that the handlers make.
pub data Query : Type 0 where
  exact_query : Text → Query
  fuzzy_query : List Text → Query
  facet_query : List Text → Query
  proof_query : Text → Query
  count_query : Query

-- SQLite, and which queries it answers.
pub record Reads (E : Engine) : Type 0 where
  pub answers : Query → Db E.Index → Bool

-- A limit of an accepted configuration is positive.
abbrev pub to_limit : ℤ → ℕ
to_limit (pos n) = n
to_limit (negsuc n) = 0
