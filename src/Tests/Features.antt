-- ===== src/Tests/Features.antt =====
-- The theorems on feature/feature.go at concrete terms and tokens.
use go_mathsearch.Base.{◌≡◌, ◌≢◌, ◌↔◌, refl, true, map, contains, IsDistinct, arith}
use go_mathsearch.Base.Text.{Text, codes, text_eq, text_beq}
use go_mathsearch.Feature.Node.{raw}
use go_mathsearch.Feature.Reader.{parse, ok, out_of_fuel}
use go_mathsearch.Feature.Reader.Grammar.{Parsed}
use go_mathsearch.Feature.Reader.Sound.{parse-ne-out_of_fuel}
use go_mathsearch.Feature.Reader.Complete.{parse-eq-ok_iff}
use go_mathsearch.Feature.Hash.{hash_token, fnv1a}
use go_mathsearch.Feature.Tokens.{tokens, subtree_token}
use go_mathsearch.Feature.Tokens.Subterm.{
  Visited, below, head, later, here, Segment, tokens-Segment, subtree_token-mem,
}
use go_mathsearch.Feature.Facets.{facets}
use go_mathsearch.Feature.Facets.Members.{Carries, facets-Carries_iff}
use go_mathsearch.Feature.Similarity.{document, jaccard, join, match_query}
use go_mathsearch.Feature.Similarity.Words.{words, words-document, hash_token-eq_iff}
use go_mathsearch.Feature.Similarity.Query.{query_parts, match_query_lem}
use go_mathsearch.Feature.Similarity.Overlap.{SameSet, jaccard-one_iff, jaccard_congr}
use go_mathsearch.Tests.Data.{sine, sum, words_a, words_b}

parse-eq-ok_iff_example : (parse (codes " Sin[v0]") ≡ ok sine) ↔ Parsed (codes " Sin[v0]") sine
parse-eq-ok_iff_example = parse-eq-ok_iff (codes " Sin[v0]") sine

parse-ne-out_of_fuel_example : parse (codes "Sin[Sin[Sin[") ≢ out_of_fuel
parse-ne-out_of_fuel_example = parse-ne-out_of_fuel (codes "Sin[Sin[Sin[")

-- The walk from the sum comes to the sine.
sine_in_sum : Visited sine sum
unfolding text_beq
sine_in_sum = below refl (later (head here))

tokens-Segment_example : Segment (tokens sine) (tokens sum)
tokens-Segment_example = tokens-Segment sine_in_sum

subtree_token-mem_example : contains (subtree_token (raw sine)) (tokens sum) ≡ true
unfolding text_beq
subtree_token-mem_example = subtree_token-mem sine_in_sum refl

facets-Carries_iff_example :
    (contains (codes "trigonometric") (facets sum) ≡ true) ↔ Carries (codes "trigonometric") sum
facets-Carries_iff_example = facets-Carries_iff (codes "trigonometric") sum

hash_token-eq_iff_example :
    (hash_token (codes "op:Sin") ≡ hash_token (codes "op:Cos"))
    ↔ (fnv1a (codes "op:Sin") ≡ fnv1a (codes "op:Cos"))
hash_token-eq_iff_example = hash_token-eq_iff (codes "op:Sin") (codes "op:Cos")

words-document_example : words (document words_a) ≡ map hash_token words_a
words-document_example = words-document words_a

match_query_lem_example :
    (match_query words_a ≡ join (codes " OR ") (query_parts words_a))
    × IsDistinct (query_parts words_a)
    × ((w : Text) → contains w (query_parts words_a) ≡ contains w (map hash_token words_a))
match_query_lem_example = match_query_lem words_a

jaccard-one_iff_example :
    ((jaccard words_a words_b).num ≡ (jaccard words_a words_b).den) ↔ SameSet words_a words_b
jaccard-one_iff_example = jaccard-one_iff words_a words_b

-- One list is the other without its repetition.
same_words : SameSet words_a words_b
unfolding contains
same_words t = ground arith

jaccard_congr_example : jaccard words_a words_a ≡ jaccard words_b words_a
jaccard_congr_example = jaccard_congr words_a words_b words_a words_a same_words (λ t. refl)
