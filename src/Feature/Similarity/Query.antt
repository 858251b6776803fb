-- ===== src/Feature/Similarity/Query.antt =====
-- `MatchQuery` of feature/feature.go: each hashed token once, joined by OR.
use go_mathsearch.Base.{
  ◌≡◌, refl, sym, ap, ◌∙◌, ◌↔◌, inl, inr, false, List, [], ◌∷◌, ◌++◌, map, arith, nat_eq,
  Bool-cases, contains, add_old, add_new, add_all, contains-add_all, add_all-IsDistinct, IsDistinct,
}
use go_mathsearch.Base.Text.{Text, codes, text_eq, text_beq}
use go_mathsearch.Feature.Hash.{hash_token}
use go_mathsearch.Feature.Similarity.{collect, join, match_query}

-- The set and the slice stay equal.
collect-add_all : (seen ts : List Text) → collect seen seen ts ≡ add_all seen (map hash_token ts)
unfolding collect add_all
collect-add_all seen [] = refl
collect-add_all seen (t ∷ ts) = elim (Bool-cases (contains (hash_token t) seen)) [
  | inl old ↦ rw old (
      collect-add_all seen ts
      ∙ ap (λ s. add_all s (map hash_token ts)) (sym (add_old (hash_token t) seen old)))
  | inr new ↦ rw new (
      let grown = seen ++ hash_token t ∷ [] in
      let same = add_new (hash_token t) seen new in
      ap (λ s. collect s grown ts) same
      ∙ collect-add_all grown ts
      ∙ ap (λ s. add_all s (map hash_token ts)) (sym same))
]

-- The parts that `MatchQuery` joins.
pub query_parts : List Text → List Text
query_parts ts = collect [] [] ts

-- The query joins distinct words, and these are the hashes of the tokens.
pub match_query_lem :
    (ts : List Text)
    → (match_query ts ≡ join (codes " OR ") (query_parts ts))
      × IsDistinct (query_parts ts)
      × ((w : Text) → contains w (query_parts ts) ≡ contains w (map hash_token ts))
unfolding match_query query_parts contains
match_query_lem ts = (
  refl,
  rw (collect-add_all [] ts) (add_all-IsDistinct [] (map hash_token ts) tt),
  λ w. rw (collect-add_all [] ts) (contains-add_all w [] (map hash_token ts)),
)

join-ne_nil : (sep : Text) (ps : List Text) → contains [] ps ≡ false → join sep ps ≡ [] → ps ≡ []
unfolding join contains text_beq
join-ne_nil sep [] h e = refl
join-ne_nil sep ([] ∷ ps) h e = cc
join-ne_nil sep ((c ∷ p) ∷ []) h e = cc
join-ne_nil sep ((c ∷ p) ∷ q ∷ ps) h e = cc

no_empty_hash : (ts : List Text) → contains [] (map hash_token ts) ≡ false
unfolding contains hash_token text_beq
no_empty_hash [] = refl
no_empty_hash (t ∷ ts) = no_empty_hash ts

parts_nil : (ts : List Text) → query_parts ts ≡ [] → ts ≡ []
unfolding contains
parts_nil [] e = refl
parts_nil (t ∷ ts) e =
    let here = (match_query_lem (t ∷ ts)).2 (hash_token t) in
    ground (arith, rw e at here, text_eq.beq_iff (hash_token t) (hash_token t))

-- The query is empty exactly when there are no tokens.
pub match_query-nil_iff : (ts : List Text) → (match_query ts ≡ []) ↔ (ts ≡ [])
match_query-nil_iff ts =
    let lem = match_query_lem ts in
    (
      λ e. parts_nil ts (
          join-ne_nil (codes " OR ") (query_parts ts) (lem.2 [] ∙ no_empty_hash ts)
            (sym lem.0 ∙ e)),
      λ e. rw e (unfold match_query join in refl),
    )
