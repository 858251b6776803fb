-- ===== src/Store/Search.antt =====
-- The queries of store/store.go: `Exact`, `Fuzzy`, `Facets`, and the identities they fill in. The
-- renderer of an identity is a parameter. A query that SQLite refuses returns its error and no hits;
-- these definitions are the queries that it carries out, with limits that are not negative.
pub mod Filter
pub mod Hits
pub mod Ranking
use go_mathsearch.Base.{
  ℕ, ◌+◌, ◌*◌, Bool, true, false, not, ◌&&◌, ◌||◌, List, [], ◌∷◌, ◌++◌, Option, none, some, map,
  ◌==◌, nat_eq, if◌then◌else◌, pair_eq, contains, add_all, select, length, take, ltb, leb,
}
use go_mathsearch.Base.Sorting.{sort_by, text_lt}
use go_mathsearch.Base.Int.{pos, negsuc, wrap64}
use go_mathsearch.Base.Text.{Text, codes, text_eq}
use go_mathsearch.Feature.Similarity.{Score, jaccard, match_query}
use go_mathsearch.Feature.Tokens.{tokens_from}
use go_mathsearch.Store.{Formula, Hit, hit_of}
use go_mathsearch.Store.Collapse.{collapse}
use go_mathsearch.Store.Database.{Row, Db, Engine}

-- The loop of `entrySides` over the rows of an entry: the last row of each side counts.
unfoldable pub sides_of : Text × Text → List Row → Text × Text
sides_of sides [] = sides
sides_of sides (r ∷ rs) =
    let mma = r.formula.mma in
    let side = r.formula.side in
    sides_of
      (if side == codes "lhs"
        then (mma, sides.1)
        else if side == codes "rhs"
        then (sides.0, mma)
        else sides)
      rs

-- `IdentityMMA` from the two sides.
unfoldable pub identity_mma : Text → Text → Text
identity_mma lhs rhs =
    if not (lhs == []) && not (rhs == [])
    then lhs ++ (codes " == " ++ rhs)
    else if not (lhs == [])
    then lhs
    else rhs

-- Score 1, of an exact hit.
abbrev pub exact_score : Score
exact_score = record { num = 1; den = 1 }

-- `out[i].Score > out[j].Score`
abbrev pub scores_higher : Hit → Hit → Bool
scores_higher g h = ltb (h.score.num * g.score.den) (g.score.num * h.score.den)

-- `c DESC, facet`
abbrev pub counts_first : Text × ℕ → Text × ℕ → Bool
counts_first p q = ltb q.1 p.1 || (p.1 == q.1 && text_lt p.0 q.0)

-- `ORDER BY entry_id, side`
abbrev pub key_lt : Row → Row → Bool
key_lt q r =
    text_lt q.formula.entry_id r.formula.entry_id
    || (q.formula.entry_id == r.formula.entry_id && text_lt q.formula.side r.formula.side)

-- `JOIN formulas f ON f.id = fts.rowid`
unfoldable pub rows_of : List Row → List ℕ → List Row
rows_of rows [] = []
rows_of rows (i ∷ is) = select (λ (r : Row). r.id == i) rows ++ rows_of rows is

module _ {Index : Type 0} where
  -- The facets of a formula among the selected ones.
  abbrev pub facets_among : List Text → ℕ → Db Index → List Text
  facets_among selected id db =
      map (λ (p : ℕ × Text). p.1)
        (select (λ (p : ℕ × Text). p.0 == id && contains p.1 selected) db.facets)

  -- The ids of `WHERE facet IN (...) GROUP BY formula_id`.
  abbrev pub facet_groups : List Text → Db Index → List ℕ
  facet_groups selected db =
      add_all []
        (map (λ (p : ℕ × Text). p.0) (select (λ (p : ℕ × Text). contains p.1 selected) db.facets))

  -- `idFilter`: `HAVING COUNT(DISTINCT facet) = len(selected)`, or all ids if nothing is selected.
  unfoldable pub id_filter : List Text → Db Index → List ℕ
  id_filter selected db =
      if length selected == 0
      then map (λ (r : Row). r.id) db.rows
      else select (λ id. length (add_all [] (facets_among selected id db)) == length selected)
          (facet_groups selected db)

  -- `SELECT facet, COUNT(*) c ... GROUP BY facet ORDER BY c DESC, facet`, less the selected facets.
  unfoldable pub refine : List Text → Db Index → List (Text × ℕ)
  unfolding id_filter
  refine selected db =
      let here = select (λ (p : ℕ × Text). contains p.0 (id_filter selected db)) db.facets in
      let names = add_all [] (map (λ (p : ℕ × Text). p.1) here) in
      let counted = map (λ fc. (fc, length (select (λ (p : ℕ × Text). p.1 == fc) here))) names in
      select (λ (p : Text × ℕ). not (contains p.0 selected)) (sort_by counts_first counted)

-- How many of the matches `Fuzzy` takes. `limit * 5` wraps around, and a negative `LIMIT` is none.
unfoldable pub pool_of : ℕ → ℕ → ℕ → ℕ
unfolding wrap64
pool_of all limit pool =
    if ltb pool limit
    then (elim (wrap64 (pos (limit * 5))) [ pos n ↦ n | negsuc n ↦ all ])
    else pool

module _ (E : Engine) (latex_identity : Text → Text → Text) where
  -- `entrySides`
  unfoldable pub entry_sides : Db E.Index → Text → Text × Text
  unfolding sides_of
  entry_sides db entry_id =
      sides_of ([], []) (E.scan (select (λ r. r.formula.entry_id == entry_id) db.rows))

  -- `fillIdentities`
  unfoldable pub fill_identities : Db E.Index → List Hit → List Hit
  unfolding entry_sides identity_mma
  fill_identities db [] = []
  fill_identities db (h ∷ hs) =
      let sides = entry_sides db h.formula.entry_id in
      record h {
        identity_mma = identity_mma sides.0 sides.1;
        identity_latex = latex_identity sides.0 sides.1;
      }
      ∷ fill_identities db hs

  -- `Exact`
  unfoldable pub exact : Text → Db E.Index → List Hit
  unfolding fill_identities
  exact sig db =
      let rows = E.scan (select (λ r. r.formula.signature == sig) db.rows) in
      fill_identities db (collapse (map (λ (r : Row). hit_of exact_score r.formula) rows))

  -- The candidates of `Fuzzy`, scored, the best first.
  unfoldable pub ranked : List Text → ℕ → Db E.Index → List Hit
  unfolding rows_of
  ranked query_tokens pool db =
      let rows = take pool (rows_of db.rows (E.matches (match_query query_tokens) db.index)) in
      sort_by scores_higher (
        map (λ (r : Row). hit_of (jaccard query_tokens (tokens_from r.formula.canonical)) r.formula)
          rows)

  -- `Fuzzy`
  unfoldable pub fuzzy : List Text → ℕ → ℕ → Db E.Index → List Hit
  unfolding ranked fill_identities rows_of pool_of
  fuzzy query_tokens limit pool db =
      if match_query query_tokens == []
      then []
      else fill_identities db (
          take limit (
            collapse (
              ranked query_tokens
                (pool_of (length (rows_of db.rows (E.matches (match_query query_tokens) db.index)))
                  limit pool)
                db)))

  -- `Facets`: the total, the facets to refine by, and the hits once they are few enough.
  unfoldable pub facet_search : List Text → ℕ → Db E.Index → ℕ × List (Text × ℕ) × List Hit
  unfolding id_filter refine fill_identities
  facet_search selected list_limit db =
      let matching = id_filter selected db in
      let total = length matching in
      let rows = sort_by key_lt (select (λ r. contains r.id matching) db.rows) in
      let hits =
        fill_identities db (collapse (map (λ (r : Row). hit_of exact_score r.formula) rows)) in
      (total, refine selected db, if ltb 0 total && leb total list_limit then hits else [])
