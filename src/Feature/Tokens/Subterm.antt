-- ===== src/Feature/Tokens/Subterm.antt =====
-- `Tokens` of feature/feature.go without its accumulator, and what it keeps of subterms: formulas
-- that share a subexpression share its tokens.
use go_mathsearch.Base.{
  ◌≡◌, sym, ap, ◌∙◌, inl, inr, true, false, List, [], ◌∷◌, ◌++◌, append_assoc, append-nil, arith,
  ◌==◌, nat_eq, if◌then◌else◌, Bool-cases, contains, contains-append,
}
use go_mathsearch.Base.Text.{Text, text_eq}
use go_mathsearch.Feature.Node.{Node, Kids, node, nil, cons, op, kids, leaf, raw}
use go_mathsearch.Feature.Tokens.{
  walk, walk_kids, tokens, add_edges, add_paths, leaf_token, op_token, edge_token, path_token,
  subtree_token,
}

-- `Visited m n`: the walk from `n` comes to `m`. It goes into the children of operators only.
mutual
  pub data Visited (m : Node) : Node → Type 0 where
    here : Visited m m
    below :
        {o l r : Text} {ks : Kids}
        → (o == []) ≡ false
        → VisitedKids m ks
        → Visited m (node o ks l r)

  pub data VisitedKids (m : Node) : Kids → Type 0 where
    head : {k : Node} {ks : Kids} → Visited m k → VisitedKids m (cons k ks)
    later : {k : Node} {ks : Kids} → VisitedKids m ks → VisitedKids m (cons k ks)

abbrev pub paths_of : Text → Text → Kids → List Text
paths_of o o' nil = []
paths_of o o' (cons g gs) = path_token o o' g ∷ paths_of o o' gs

abbrev pub edges_of : Text → Kids → List Text
edges_of o nil = []
edges_of o (cons k ks) = edge_token o k ∷ (paths_of o (op k) (kids k) ++ edges_of o ks)

add_paths-append :
    (toks : List Text) (o o' : Text) (gs : Kids) → add_paths toks o o' gs ≡ toks ++ paths_of o o' gs
unfolding add_paths
add_paths-append toks o o' nil = sym (append-nil toks)
add_paths-append toks o o' (cons g gs) =
    add_paths-append (toks ++ path_token o o' g ∷ []) o o' gs ∙ append_assoc toks _ _

add_edges-append :
    (toks : List Text) (o : Text) (ks : Kids) → add_edges toks o ks ≡ toks ++ edges_of o ks
unfolding add_edges
add_edges-append toks o nil = sym (append-nil toks)
add_edges-append toks o (cons k ks) =
    add_edges-append (add_paths (toks ++ edge_token o k ∷ []) o (op k) (kids k)) o ks
    ∙ ap (λ u. u ++ edges_of o ks) (add_paths-append _ o (op k) (kids k))
    ∙ simp append_assoc

-- What a node adds by itself.
abbrev pub own_tokens : Node → List Text
own_tokens (node o ks l r) =
    if o == [] then leaf_token l ∷ [] else op_token o ∷ (edges_of o ks ++ subtree_token r ∷ [])

-- What the walk writes at an operator, before it goes on.
at_operator : Text → Kids → Text → List Text
at_operator o ks r = op_token o ∷ (edges_of o ks ++ subtree_token r ∷ [])

operator-append :
    (toks : List Text) (o r : Text) (ks : Kids)
    → add_edges (toks ++ op_token o ∷ []) o ks ++ subtree_token r ∷ [] ≡ toks ++ at_operator o ks r
unfolding at_operator
operator-append toks o r ks =
    ap (λ u. u ++ subtree_token r ∷ []) (add_edges-append (toks ++ op_token o ∷ []) o ks)
    ∙ simp append_assoc

mutual
  unfolding walk

  walk-append : (toks : List Text) (n : Node) → walk toks n ≡ toks ++ walk [] n
  walk-append toks (node o ks l r) = elim (Bool-cases (o == [])) [
    | inl leaf ↦ rw leaf
    | inr oper ↦ rw oper (
        ap (λ u. walk_kids u ks) (operator-append toks o r ks)
        ∙ walk_kids-append (toks ++ at_operator o ks r) ks
        ∙ append_assoc toks _ _
        ∙ ap (λ u. toks ++ u) (sym (walk_kids-append (at_operator o ks r) ks))
        ∙ ap (λ u. toks ++ walk_kids u ks) (sym (operator-append [] o r ks)))
  ]

  walk_kids-append : (toks : List Text) (ks : Kids) → walk_kids toks ks ≡ toks ++ walk_kids [] ks
  walk_kids-append toks nil = sym (append-nil toks)
  walk_kids-append toks (cons k ks) =
      walk_kids-append (walk toks k) ks
      ∙ ap (λ u. u ++ walk_kids [] ks) (walk-append toks k)
      ∙ append_assoc toks _ _
      ∙ ap (λ u. toks ++ u) (sym (walk_kids-append (walk [] k) ks))

walk_operator :
    (o l r : Text) (ks : Kids)
    → (o == []) ≡ false
    → walk [] (node o ks l r) ≡ at_operator o ks r ++ walk_kids [] ks
unfolding walk
walk_operator o l r ks h = rw h (
    ap (λ u. walk_kids u ks) (operator-append [] o r ks) ∙ walk_kids-append (at_operator o ks r) ks)

-- `xs` stands in `ys` as one piece.
pub record Segment (xs ys : List Text) : Type 0 where
  pub before : List Text
  pub after : List Text
  pub splits : ys ≡ before ++ (xs ++ after)

mutual
  unfolding walk

  Visited-Segment : {m n : Node} → Visited m n → Segment (walk [] m) (walk [] n)
  Visited-Segment here = record { before = []; after = []; splits = sym (append-nil _) }
  Visited-Segment (below {o} {l} {r} {ks} h v) =
      let inner = VisitedKids-Segment v in
      record {
        before = at_operator o ks r ++ inner.before;
        after = inner.after;
        splits = walk_operator o l r ks h ∙ simp (inner.splits, append_assoc);
      }

  VisitedKids-Segment :
      {m : Node} {ks : Kids} → VisitedKids m ks → Segment (walk [] m) (walk_kids [] ks)
  VisitedKids-Segment (head {k} {ks} v) =
      let inner = Visited-Segment v in
      record {
        before = inner.before;
        after = inner.after ++ walk_kids [] ks;
        splits = walk_kids-append (walk [] k) ks ∙ simp (inner.splits, append_assoc);
      }
  VisitedKids-Segment (later {k} {ks} v) =
      let inner = VisitedKids-Segment v in
      record {
        before = walk [] k ++ inner.before;
        after = inner.after;
        splits = walk_kids-append (walk [] k) ks ∙ simp (inner.splits, append_assoc);
      }

-- The tokens of a subterm are a piece of the tokens of the term.
pub tokens-Segment : {m n : Node} → Visited m n → Segment (tokens m) (tokens n)
unfolding tokens
tokens-Segment v = Visited-Segment v

-- The fingerprint of a visited operator's text is among the tokens, so terms that share the text
-- share the token.
pub subtree_token-mem :
    {m n : Node}
    → Visited m n
    → (op m == []) ≡ false
    → contains (subtree_token (raw m)) (tokens n) ≡ true
unfolding tokens contains at_operator
subtree_token-mem {m} {n} v h =
    let piece = Visited-Segment v in
    rw piece.splits (
      ground (
        arith,
        own m h,
        contains-append (subtree_token (raw m)) piece.before (walk [] m ++ piece.after),
        contains-append (subtree_token (raw m)) (walk [] m) piece.after,
      ))
  where
    at_operator-mem :
        (o r : Text) (ks : Kids) → contains (subtree_token r) (at_operator o ks r) ≡ true
    at_operator-mem o r ks = ground (
      arith,
      contains-append (subtree_token r) (op_token o ∷ edges_of o ks) (subtree_token r ∷ []),
      text_eq.beq_iff (subtree_token r) (subtree_token r),
    )

    own : (m : Node) → (op m == []) ≡ false → contains (subtree_token (raw m)) (walk [] m) ≡ true
    own (node o ks l r) h = rw (walk_operator o l r ks h) (
        ground (
          arith,
          at_operator-mem o r ks,
          contains-append (subtree_token r) (at_operator o ks r) (walk_kids [] ks),
        ))
