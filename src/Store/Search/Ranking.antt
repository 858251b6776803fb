-- ===== src/Store/Search/Ranking.antt =====
-- The order of the hits of `Fuzzy` in store/store.go.
use go_mathsearch.Base.{
  length, ℕ, zero, suc, ◌≤◌, ◌<◌, ◌*◌, List, [], ◌∷◌, map, ◌==◌, Bool-cases, contains, add, All,
  take, inl, inr, arith,
}
use native.Mathlib.Nat.{le_of_mul-le-mul_right, mul-le-mul_right}
use go_mathsearch.Base.Sorting.{insert_by, sort_by, insert_by-All, sort_by-All}
use go_mathsearch.Base.Text.{Text, text_eq}
use go_mathsearch.Feature.Similarity.{jaccard, match_query}
use go_mathsearch.Feature.Similarity.Overlap.{jaccard_bounds}
use go_mathsearch.Feature.Tokens.{tokens_from}
use go_mathsearch.Store.{Hit, hit_of}
use go_mathsearch.Store.Collapse.{collapse}
use go_mathsearch.Store.Collapse.Index.{signature_of, firsts}
use go_mathsearch.Store.Collapse.Loop.{collapse-firsts}
use go_mathsearch.Store.Database.{Row, Db, Engine}
use go_mathsearch.Store.Search.{pool_of, rows_of, scores_higher, fill_identities, ranked, fuzzy}

-- Two hits in an order that a ranking may have.
abbrev pub IsBelow : Hit → Hit → Type 0
IsBelow h g = g.score.num * h.score.den ≤ h.score.num * g.score.den

-- No hit scores higher than one before it.
abbrev pub IsRanked : List Hit → Type 0
IsRanked [] = Unit
IsRanked (h ∷ hs) = All (IsBelow h) hs × IsRanked hs

abbrev HasScore : Hit → Type 0
HasScore h = 0 < h.score.den

IsBelow-trans : (x y z : Hit) → HasScore y → IsBelow x y → IsBelow y z → IsBelow x z
IsBelow-trans x y z d h k =
    le_of_mul-le-mul_right {k = y.score.den}
      (omega (arith, mul-le-mul_right x.score.den k, mul-le-mul_right z.score.den h)) d

All-IsBelow :
    (x y : Hit) (hs : List Hit) → HasScore y → IsBelow x y → All (IsBelow y) hs → All (IsBelow x) hs
All-IsBelow x y [] d h a = tt
All-IsBelow x y (z ∷ hs) d h a = (IsBelow-trans x y z d h a.0, All-IsBelow x y hs d h a.1)

insert_by-IsRanked :
    (x : Hit) (hs : List Hit)
    → All HasScore hs
    → IsRanked hs
    → IsRanked (insert_by scores_higher x hs)
unfolding insert_by
insert_by-IsRanked x [] s r = (tt, tt)
insert_by-IsRanked x (y ∷ hs) s r = elim (Bool-cases (scores_higher y x)) [
  | inl high ↦ rw high (
    insert_by-All scores_higher (IsBelow y) x hs (ground (arith, high)) r.0,
    insert_by-IsRanked x hs s.1 r.1,
  )
  | inr low ↦
      let below : IsBelow x y = ground (arith, low) in
      rw low ((below, All-IsBelow x y hs s.0 below r.0), r)
]

sort_by-IsRanked : (hs : List Hit) → All HasScore hs → IsRanked (sort_by scores_higher hs)
unfolding sort_by
sort_by-IsRanked [] a = tt
sort_by-IsRanked (h ∷ hs) a =
    insert_by-IsRanked h (sort_by scores_higher hs) (sort_by-All scores_higher HasScore hs a.1)
      (sort_by-IsRanked hs a.1)

-- The groups keep the order of their first hits.
firsts-All-IsBelow :
    (h : Hit) (known : List Text) (rs : List Hit)
    → All (IsBelow h) rs
    → All (IsBelow h) (firsts known rs)
unfolding firsts
firsts-All-IsBelow h known [] a = tt
firsts-All-IsBelow h known (r ∷ rs) a =
    let rest = firsts-All-IsBelow h (add (signature_of r) known) rs a.1 in
    elim (Bool-cases (contains (signature_of r) known)) [
      | inl old ↦ rw old rest
      | inr new ↦ rw new (a.0, rest)
    ]

firsts-IsRanked : (known : List Text) (rs : List Hit) → IsRanked rs → IsRanked (firsts known rs)
unfolding firsts
firsts-IsRanked known [] r = tt
firsts-IsRanked known (h ∷ rs) r =
    let rest = firsts-IsRanked (add (signature_of h) known) rs r.1 in
    elim (Bool-cases (contains (signature_of h) known)) [
      | inl old ↦ rw old rest
      | inr new ↦ rw new (firsts-All-IsBelow h (add (signature_of h) known) rs r.0, rest)
    ]

All-take : (P : Hit → Type 0) (n : ℕ) (hs : List Hit) → All P hs → All P (take n hs)
All-take P zero hs a = tt
All-take P (suc n) [] a = tt
All-take P (suc n) (h ∷ hs) a = (a.0, All-take P n hs a.1)

take-IsRanked : (n : ℕ) (hs : List Hit) → IsRanked hs → IsRanked (take n hs)
take-IsRanked zero hs r = tt
take-IsRanked (suc n) [] r = tt
take-IsRanked (suc n) (h ∷ hs) r = (All-take (IsBelow h) n hs r.0, take-IsRanked n hs r.1)

scored : (tokens : List Text) (rows : List Row) → List Hit
scored tokens rows =
    map (λ (r : Row). hit_of (jaccard tokens (tokens_from r.formula.canonical)) r.formula) rows

scored-HasScore : (tokens : List Text) (rows : List Row) → All HasScore (scored tokens rows)
unfolding scored
scored-HasScore tokens [] = tt
scored-HasScore tokens (r ∷ rs) =
    ((jaccard_bounds tokens (tokens_from r.formula.canonical)).1, scored-HasScore tokens rs)

module _ (E : Engine) (latex_identity : Text → Text → Text) where
  fill_identities-All-IsBelow :
      (h : Hit) (db : Db E.Index) (hs : List Hit)
      → All (IsBelow h) hs
      → All (IsBelow h) (fill_identities E latex_identity db hs)
  unfolding fill_identities
  fill_identities-All-IsBelow h db [] a = tt
  fill_identities-All-IsBelow h db (g ∷ hs) a = (a.0, fill_identities-All-IsBelow h db hs a.1)

  fill_identities-IsRanked :
      (db : Db E.Index) (hs : List Hit)
      → IsRanked hs
      → IsRanked (fill_identities E latex_identity db hs)
  unfolding fill_identities
  fill_identities-IsRanked db [] r = tt
  fill_identities-IsRanked db (h ∷ hs) r =
      (fill_identities-All-IsBelow h db _ r.0, fill_identities-IsRanked db hs r.1)

  ranked-IsRanked :
      (tokens : List Text) (pool : ℕ) (db : Db E.Index)
      → IsRanked (ranked E latex_identity tokens pool db)
  unfolding ranked scored
  ranked-IsRanked tokens pool db = sort_by-IsRanked _ (scored-HasScore tokens _)

  -- No hit of `Fuzzy` scores higher than one before it.
  pub fuzzy-IsRanked :
      (tokens : List Text) (limit pool : ℕ) (db : Db E.Index)
      → IsRanked (fuzzy E latex_identity tokens limit pool db)
  unfolding fuzzy
  fuzzy-IsRanked tokens limit pool db = elim (Bool-cases (match_query tokens == [])) [
    | inl none ↦ rw none tt
    | inr some ↦
        let hits =
          ranked E latex_identity tokens
            (pool_of (length (rows_of db.rows (E.matches (match_query tokens) db.index))) limit
              pool)
            db in
        rw some (
          fill_identities-IsRanked db (take limit (collapse hits)) (
            take-IsRanked limit (collapse hits)
              (rw (collapse-firsts hits) (firsts-IsRanked [] hits (ranked-IsRanked tokens _ db)))))
  ]
