-- ===== src/Store/Search/Hits.antt =====
-- The hits of `Exact` and `Fuzzy` of store/store.go: one for each signature, the best first, within the limit.
use go_mathsearch.Base.{
  ℕ, zero, suc, ◌≤◌, Bool, true, false, ◌&&◌, List, [], ◌∷◌, map, ◌==◌, ==_iff, ==_refl, nat_eq,
  ltb, if◌then◌else◌, Bool-cases, contains, IsDistinct, select, length, length-take, take, ◌≡◌,
  refl, sym, ap, ◌∙◌, inl, inr, arith,
}
use go_mathsearch.Base.Text.{Text, text_eq}
use go_mathsearch.Feature.Similarity.{match_query}
use go_mathsearch.Store.{Hit, hit_of}
use go_mathsearch.Store.Collapse.{collapse}
use go_mathsearch.Store.Collapse.Index.{signature_of}
use go_mathsearch.Store.Collapse.Groups.{collapse-IsDistinct, contains-collapse}
use go_mathsearch.Store.Database.{Row, Db, Engine, IsScan}
use go_mathsearch.Store.Search.{
  pool_of, rows_of, exact_score, fill_identities, exact, ranked, fuzzy,
}

contains-take :
    (s : Text) (n : ℕ) (xs : List Text) → contains s xs ≡ false → contains s (take n xs) ≡ false
unfolding contains
contains-take s zero xs h = refl
contains-take s (suc n) [] h = refl
contains-take s (suc n) (x ∷ xs) h = ground (arith, contains-take s n xs)

take-IsDistinct : (n : ℕ) (xs : List Text) → IsDistinct xs → IsDistinct (take n xs)
take-IsDistinct zero xs d = tt
take-IsDistinct (suc n) [] d = tt
take-IsDistinct (suc n) (x ∷ xs) d = (contains-take x n xs d.0, take-IsDistinct n xs d.1)

map-take : (n : ℕ) (hs : List Hit) → map signature_of (take n hs) ≡ take n (map signature_of hs)
map-take zero hs = refl
map-take (suc n) [] = refl
map-take (suc n) (h ∷ hs) = ap (λ ts. signature_of h ∷ ts) (map-take n hs)

module _ (E : Engine) (latex_identity : Text → Text → Text) where
  sigs-fill_identities :
      (db : Db E.Index) (hs : List Hit)
      → map signature_of (fill_identities E latex_identity db hs) ≡ map signature_of hs
  unfolding fill_identities
  sigs-fill_identities db [] = refl
  sigs-fill_identities db (h ∷ hs) = ap (λ ts. signature_of h ∷ ts) (sigs-fill_identities db hs)

  length-fill_identities :
      (db : Db E.Index) (hs : List Hit)
      → length (fill_identities E latex_identity db hs) ≡ length hs
  unfolding fill_identities
  length-fill_identities db [] = refl
  length-fill_identities db (h ∷ hs) = ap suc (length-fill_identities db hs)

  -- `Fuzzy` returns no more hits than the limit.
  pub length-fuzzy_le :
      (tokens : List Text) (limit pool : ℕ) (db : Db E.Index)
      → length (fuzzy E latex_identity tokens limit pool db) ≤ limit
  unfolding fuzzy
  length-fuzzy_le tokens limit pool db = elim (Bool-cases (match_query tokens == [])) [
    | inl none ↦ rw none (omega arith)
    | inr some ↦ rw some (
        omega (
          arith,
          length-fill_identities db (
              take limit (
                collapse (
                  ranked E latex_identity tokens
                    (pool_of (length (rows_of db.rows (E.matches (match_query tokens) db.index)))
                      limit pool)
                    db))),
          length-take limit (
              collapse (
                ranked E latex_identity tokens
                  (pool_of (length (rows_of db.rows (E.matches (match_query tokens) db.index)))
                    limit pool)
                  db)),
        ))
  ]

  -- No two hits of `Fuzzy` have the same signature.
  pub fuzzy-IsDistinct :
      (tokens : List Text) (limit pool : ℕ) (db : Db E.Index)
      → IsDistinct (map signature_of (fuzzy E latex_identity tokens limit pool db))
  unfolding fuzzy
  fuzzy-IsDistinct tokens limit pool db = elim (Bool-cases (match_query tokens == [])) [
    | inl none ↦ rw none tt
    | inr some ↦
        let rows =
          ranked E latex_identity tokens
            (pool_of (length (rows_of db.rows (E.matches (match_query tokens) db.index))) limit
              pool)
            db in
        rw some (
          rw (sigs-fill_identities db (take limit (collapse rows)), map-take limit (collapse rows))
            (take-IsDistinct limit (map signature_of (collapse rows)) (collapse-IsDistinct rows)))
  ]

abbrev pub row_signature : Row → Text
row_signature r = r.formula.signature

-- The number of rows of a signature.
abbrev pub rows_with : Text → List Row → ℕ
rows_with s rows = length (select (λ r. row_signature r == s) rows)

contains-rows_with :
    (s : Text) (rows : List Row) → contains s (map row_signature rows) ≡ ltb 0 (rows_with s rows)
unfolding contains select
contains-rows_with s [] = refl
contains-rows_with s (r ∷ rs) = ground (arith, contains-rows_with s rs)

rows_with-select :
    (s sig : Text) (rows : List Row)
    → rows_with s (select (λ r. row_signature r == sig) rows)
      ≡ (if sig == s then rows_with sig rows else 0)
unfolding select
rows_with-select s sig [] = ground arith
rows_with-select s sig (r ∷ rs) = elim (Bool-cases (row_signature r == sig)) [
  | inl same ↦ rw same (
      ground (
        arith,
        rows_with-select s sig rs,
        ap (λ t. t == s) ((==_iff (row_signature r) sig).0 same),
      ))
  | inr other ↦ rw other (rows_with-select s sig rs)
]

sigs-hit_of :
    (rows : List Row)
    → map signature_of (map (λ (r : Row). hit_of exact_score r.formula) rows)
      ≡ map row_signature rows
sigs-hit_of [] = refl
sigs-hit_of (r ∷ rs) = ap (λ ts. row_signature r ∷ ts) (sigs-hit_of rs)

-- A list without repetitions that can only have one element.
only_one :
    (x : Text) (b : Bool) (xs : List Text)
    → IsDistinct xs
    → ((s : Text) → contains s xs ≡ (x == s && b))
    → xs ≡ (if b then x ∷ [] else [])
unfolding contains
only_one x b [] d h = ground (arith, h x, ==_refl x)
only_one x b (y ∷ []) d h =
    let at_y : (x == y && b) ≡ true = sym (h y) ∙ ground (arith, ==_refl y) in
    let same = (==_iff x y).0 (ground (arith, at_y)) in
    let is_in : b ≡ true = ground (arith, at_y) in rw is_in (ap (λ z. z ∷ []) (sym same))
only_one x b (y ∷ z ∷ ys) d h =
    let at_y : (x == y && b) ≡ true = sym (h y) ∙ ground (arith, ==_refl y) in
    let at_z : (x == z && b) ≡ true = sym (h z) ∙ ground (arith, ==_refl z) in
    let yz : y ≡ z =
      sym ((==_iff x y).0 (ground (arith, at_y))) ∙ (==_iff x z).0 (ground (arith, at_z)) in
    let no : ⊥ = ground (arith, d.0, (==_iff z y).1 (sym yz)) in absurd no

-- If a query returns each row once, `Exact` returns one hit for a signature that a formula has, and none
-- for another.
pub exact-signatures :
    (E : Engine) (latex_identity : Text → Text → Text) (sig : Text) (db : Db E.Index)
    → IsScan E
    → map signature_of (exact E latex_identity sig db)
      ≡ (if contains sig (map row_signature db.rows) then sig ∷ [] else [])
unfolding exact
exact-signatures E latex_identity sig db scan =
    let picked = select (λ r. row_signature r == sig) db.rows in
    let hits = map (λ (r : Row). hit_of exact_score r.formula) (E.scan picked) in
    sigs-fill_identities E latex_identity db (collapse hits)
    ∙ only_one sig (contains sig (map row_signature db.rows)) (map signature_of (collapse hits))
        (collapse-IsDistinct hits)
        (λ s.
          contains-collapse s hits
          ∙ ap (contains s) (sigs-hit_of (E.scan picked))
          ∙ contains-rows_with s (E.scan picked)
          ∙ ap (ltb 0) (scan (λ r. row_signature r == s) picked ∙ rows_with-select s sig db.rows)
          ∙ ground (arith, contains-rows_with sig db.rows))
