-- ===== src/Lib.antt =====
-- go-mathsearch: a search engine for mathematical formulas. A formula comes as a canonical string;
-- its features and facets are read off it, it is stored in SQLite, and it is found by its signature,
-- by the likeness of its features, or by its facets.
--
-- Feature models feature/feature.go. Feature/Node has `Node`; Feature/Reader the type `reader` and
-- `Parse`, and Feature/Reader/Grammar the language that it is to accept; Feature/Tokens `Tokens`,
-- `headLabel` and `generalize`; Feature/Hash `fingerprint` and `hashToken`, with the FNV-1a hash, the
-- UTF-8 encoding and the base-36 printing of Go's library; Feature/Rational `parseRat`;
-- Feature/Facets `opFacet` and `Facets`; Feature/Similarity `Document`, `MatchQuery`, `Jaccard` and
-- `toSet`.
--
-- Store models store/store.go. Store has its types; Store/Collapse is `collapse`, whose map of
-- indices is an association list; Store/Database has the tables and the effect of each SQL statement;
-- Store/Writes the functions that write (`Upsert`, `Ingester.Add`, `Reset`, `SetProof`, `setMeta`)
-- and those that read back what these leave (`meta`, `Stale`, `Proof`, `Count`); Store/Search the
-- queries `Exact`, `Fuzzy` and `Facets` with `fillIdentities`; Store/Duplicates `Duplicates`. The
-- store calls the features: `Add` stores the facets of the canonical string that it is given, and
-- `Fuzzy` compares the tokens of two of them.
--
-- Latexfmt models latexfmt/latex.go and latexfmt/names.go. Latexfmt/Terms has the expressions of the
-- module sorins/canonical, with the fields that the renderer reads, and `render`, `wrap`, `arg` and
-- `renderRat`; Latexfmt/Names `symbol`, `constName` and the tables of names; Latexfmt/Sums
-- `renderPlus`; Latexfmt/Products `renderTimes` and `renderPower`; Latexfmt/Heads `renderOp` and what
-- it calls. A `Doc` is an expression whose operators carry the result of `renderOp`, which `annotate`
-- makes of the subexpressions first. Latexfmt/Brackets says what properly nested brackets are.
--
-- Config models config/config.go: the configuration, `Default`, `validate` and `Load`.
--
-- Auth models the package auth: Auth/RateLimit is the middleware of auth/ratelimit.go that counts the
-- requests of each caller, Auth/Authenticator the tokens of auth/auth.go, and Auth/Oauth the
-- providers and identities of auth/oauth.go. Auth/Authenticator/Sessions has the logins, the social
-- logins and the calls of handlers as steps of a relation.
--
-- Server models cmd/mathsearch/serve.go: Server/Replies has what handlers read and write,
-- Server/Searches, Server/Edits and Server/Logins the handlers, and Server the routes of `cmdServe`
-- behind `Annotate` and the rate limiter, with `clientIP` of auth/ratelimit.go. Server/Limited and
-- Server/Runs follow a run of requests. It uses the store, the authenticator, the providers, the rate
-- limiter and the configuration. Ingest models `cmdIngest` of cmd/mathsearch/main.go: the batches of
-- a thousand formulas, with the database as it is committed and as the open transaction sees it.
--
-- Libraries that are not in the repository are parameters, records of what the code uses of them:
-- `Canonical` the module sorins/canonical, `Rate` the token buckets of golang.org/x/time/rate,
-- `Crypto` bcrypt and JWT, `Client` golang.org/x/oauth2 with the calls over the network and the
-- decoders, and `Environment` the file, the JSON and the environment of a configuration, `FileSystem`
-- the files of a corpus. The routing of `http.ServeMux` and the decoding of a request are part of a
-- request. Where a theorem needs it, `KeepsSeconds` says that the dates of a token are in whole
-- seconds, `IsParser` that the parser of tokens returns the subject and the role that were signed
-- until the token expires and an error from then on, if a float64 has the seconds of its expiry, and
-- `IsFaithful` that it returns no other subject and role than those.
--
-- A string is the list of the code points of valid UTF-8. The reader's position grows with what it
-- reads, and its recursion takes one unit of fuel at each nested call; `parse` gives it twice the
-- length of the string and one, which is enough since two nested calls in a row read a code point.
-- Words of the 64-bit hash are natural numbers below 2 ^ 64, wrapped after each step. The score of a
-- hit is a fraction of two counts: two such fractions compare as their float64 quotients do as long
-- as the counts stay below 2 ^ 26. A numerator and a denominator of a rational are bounded to 64 bits
-- as `strconv.ParseInt` bounds them.
--
-- SQLite is a parameter, the record `Engine`: the full-text index and its ranking, the choice of a
-- new row id, the order of an unordered query, the time, and which statements it carries out. Where a
-- theorem needs it, `IsFresh` says that a new row id is one that no row has, and `IsScan` that a
-- query returns each row once. A table is a list of rows. A statement that is refused is the error
-- that the function returns; the queries of Store/Search and Store/Duplicates, and those of `meta`,
-- `Stale` and `Proof`, are those that it answers, and the handlers of Server ask it first whether it
-- does. A negative limit is left out. The rendering of an identity in LaTeX is a parameter of the
-- queries, which Server fills with `latexIdentity` of Store/Canonical. An `int` and a `time.Duration`
-- have 64 bits and wrap around.
--
-- Not modelled: of store/store.go `Open`, `init`, the preparing of statements and `Close`; of
-- cmd/mathsearch/main.go the commands but `ingest`, and their flags; of cmd/mathsearch/serve.go
-- `cmdProof`, and what `cmdServe` does before and after it builds the handler; `HashPassword`, which
-- only calls bcrypt. They are glue around the parts above, or input and output.
--
-- Base has what the others share: tests, lists measured by native numbers, equality, sets as lists,
-- texts and their order. Tests has the definitions at work and the theorems at concrete inputs.
pub mod Base
pub mod Feature
pub mod Store
pub mod Auth
pub mod Latexfmt
pub mod Config
pub mod Server
pub mod Ingest
mod Tests
