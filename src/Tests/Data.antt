-- ===== src/Tests/Data.antt =====
-- A term, a formula, and a database engine that refuses nothing, for the tests.
use go_mathsearch.Base.{
  ℕ, suc, ◌+◌, ◌≤◌, ◌≡◌, refl, inl, inr, true, List, [], ◌∷◌, nat_eq, Bool-cases, contains, arith,
  map,
}
use go_mathsearch.Base.Text.{Text, codes}
use go_mathsearch.Feature.Node.{Node, node, nil, cons}
use go_mathsearch.Feature.Reader.{leaf_node}
use go_mathsearch.Store.{Formula, Hit, hit_of}
use go_mathsearch.Store.Database.{Db, Engine, IsFresh, IsScan}

-- `Sin[v0]`
abbrev pub sine : Node
sine = node (codes "Sin") (cons (leaf_node (codes "v0")) nil) [] (codes "Sin[v0]")

-- `Plus[#1, Sin[v0]]`
abbrev pub sum : Node
sum =
    node (codes "Plus") (cons (leaf_node (codes "#1")) (cons sine nil)) []
      (codes "Plus[#1, Sin[v0]]")

abbrev pub words_a : List Text
words_a = codes "l:var" ∷ codes "op:Sin" ∷ codes "l:var" ∷ []

abbrev pub words_b : List Text
words_b = codes "op:Sin" ∷ codes "l:var" ∷ []

abbrev pub formula : Text → Text → Text → Formula
formula entry_id side signature = record {
  entry_id = entry_id;
  side = side;
  label = codes "label";
  source = codes "dlmf";
  class = codes "trig";
  latex = [];
  mma = codes "Sin[x]";
  canonical = codes "v0";
  signature = signature;
  verified = [];
}

abbrev pub hits : List Hit
hits = map (hit_of (record { num = 1; den = 1 })) (
    formula (codes "a") (codes "lhs") (codes "s")
    ∷ formula (codes "b") (codes "lhs") (codes "t")
    ∷ formula (codes "c") (codes "rhs") (codes "s")
    ∷ [])

-- The sum of some ids, which none of them exceeds.
abbrev pub total : List ℕ → ℕ
total [] = 0
total (n ∷ ns) = n + total ns

total-le : (n : ℕ) (ns : List ℕ) → contains n ns ≡ true → n ≤ total ns
unfolding contains
total-le n [] h = cc
total-le n (m ∷ ns) h = ground (arith, total-le n ns)

abbrev pub engine : Engine
engine = record {
  Index = List ℕ;
  deleted = λ id index. index;
  inserted = λ id features index. id ∷ index;
  cleared = λ index. [];
  fresh = λ ids. suc (total ids);
  now = codes "2024-01-01";
  matches = λ query index. index;
  scan = λ rows. rows;
  allows = λ statement db. true;
}

pub engine-IsFresh : IsFresh engine
engine-IsFresh ids = elim (Bool-cases (contains (suc (total ids)) ids)) [
  | inl found ↦ let no : ⊥ = omega (arith, total-le (suc (total ids)) ids found) in absurd no
  | inr absent ↦ absent
]

pub engine-IsScan : IsScan engine
engine-IsScan p rows = refl

abbrev pub empty : Db (List ℕ)
empty = record { rows = []; index = []; facets = []; meta = []; proofs = [] }
