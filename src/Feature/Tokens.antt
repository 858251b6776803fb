-- ===== src/Feature/Tokens.antt =====
-- `Tokens`, `TokensFrom`, `headLabel` and `generalize` of feature/feature.go.
pub mod Subterm
use go_mathsearch.Base.{ℕ, Bool, true, false, List, [], ◌∷◌, ◌++◌, ◌==◌, nat_eq, if◌then◌else◌}
use go_mathsearch.Base.Text.{Text, codes, text_eq, text_beq}
use go_mathsearch.Feature.Node.{Node, Kids, node, nil, cons, op, kids, leaf}
use go_mathsearch.Feature.Reader.{Result, ok, error_at, out_of_fuel, parse}
use go_mathsearch.Feature.Hash.{fingerprint}

-- The class of a leaf that starts with `$`.
abbrev dollar_class : Text → Text → Text
dollar_class leaf [] = leaf
dollar_class leaf (c ∷ cs) = if c == b'"' then codes "$str" else leaf

unfoldable pub generalize : Text → Text
generalize [] = codes "?"
generalize (c ∷ cs) =
    if c == b'#'
    then codes "#num"
    else if c == b'v'
    then codes "var"
    else if c == b'@'
    then codes "slot"
    else if c == b'$'
    then dollar_class (c ∷ cs) cs
    else c ∷ cs

unfoldable pub head_label : Node → Text
head_label n = if op n == [] then generalize (leaf n) else op n

abbrev pub leaf_token : Text → Text
leaf_token l = codes "l:" ++ generalize l

abbrev pub op_token : Text → Text
op_token o = codes "op:" ++ o

abbrev pub edge_token : Text → Node → Text
edge_token o k = codes "e:" ++ (o ++ (b'>' ∷ head_label k))

abbrev pub path_token : Text → Text → Node → Text
path_token o o' g = codes "p:" ++ (o ++ (b'>' ∷ (o' ++ (b'>' ∷ head_label g))))

abbrev pub subtree_token : Text → Text
subtree_token raw = codes "s:" ++ fingerprint raw

-- The inner loop over the grandchildren.
unfoldable pub add_paths : List Text → Text → Text → Kids → List Text
add_paths toks o o' nil = toks
add_paths toks o o' (cons g gs) = add_paths (toks ++ path_token o o' g ∷ []) o o' gs

-- The loop over the children.
unfoldable pub add_edges : List Text → Text → Kids → List Text
unfolding add_paths
add_edges toks o nil = toks
add_edges toks o (cons k ks) =
    add_edges (add_paths (toks ++ edge_token o k ∷ []) o (op k) (kids k)) o ks

-- The closure `walk` of `Tokens`, with `toks` as its state.
unfoldable mutual
  pub walk : List Text → Node → List Text
  walk toks (node o ks l raw) =
      let inner =
        walk_kids (add_edges (toks ++ op_token o ∷ []) o ks ++ subtree_token raw ∷ []) ks in
      if o == [] then toks ++ leaf_token l ∷ [] else inner

  pub walk_kids : List Text → Kids → List Text
  walk_kids toks nil = toks
  walk_kids toks (cons k ks) = walk_kids (walk toks k) ks

unfoldable pub tokens : Node → List Text
unfolding walk
tokens root = walk [] root

-- A parse failure yields no tokens.
unfoldable pub tokens_from : Text → List Text
tokens_from canonical = elim (parse canonical) [ ok n ↦ tokens n | _ ↦ [] ]
