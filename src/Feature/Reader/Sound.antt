-- ===== src/Feature/Reader/Sound.antt =====
-- The reader of feature/feature.go never runs out of the model's fuel, and whatever it accepts is in
-- the language of `Grammar`.
use go_mathsearch.Base.{
  ℕ, zero, suc, ◌+◌, ◌*◌, ◌<◌, ◌≡◌, ◌≢◌, sym, ◌∙◌, inl, inr, [], ◌∷◌, ◌++◌, length, arith,
  append_assoc, append-nil, ◌==◌, nat_eq,
}
use go_mathsearch.Base.Text.{Text, text_eq}
use go_mathsearch.Feature.Node.{Node}
use go_mathsearch.Feature.Reader.{
  Reader, ok, out_of_fuel, skip, read_name, advance, peek, is_name_start, read_node, read_kids,
  finish, parse, is_space,
}
use go_mathsearch.Feature.Reader.Grammar.{token, Parsed}
use go_mathsearch.Feature.Reader.Outcome.{
  Outcome, returned, refused, Outcome-bind, Outcome-if, Outcome-imp, Outcome-eq_ok,
  Outcome-ne_out_of_fuel,
}
use go_mathsearch.Feature.Reader.Span.{Moves-append, Spans}
use go_mathsearch.Feature.Reader.Tokens.{skip-Spans, advance-Moves, read_name_lem, read_leaf_lem}
use go_mathsearch.Feature.Reader.Pieces.{
  ReadsNode, ReadsArgs-skip, close_call-Outcome, leaf-Outcome, ReadsItems, last-ReadsItems,
  more-ReadsItems, more_shorter, leading-ReadsArgs, none-ReadsArgs, call_shorter,
}

-- Fuel above twice the length of what is left is enough.
mutual
  unfolding read_node

  read_node-Outcome :
      (f : ℕ) (r : Reader) → 2 * length r.rest < f → Outcome (ReadsNode r) (read_node f r)
  read_node-Outcome zero r h = absurd (omega arith)
  read_node-Outcome (suc f) r h =
      let start = skip r in
      let sp = skip-Spans r in
      Outcome-if (is_name_start (peek start))
        (λ named.
          let (isname, moves) = read_name_lem start named in
          let after = (read_name start).1 in
          Outcome-if (peek after == b'[')
            (λ opens.
              let m1 = advance-Moves after b'[' (omega arith) opens in
              let opened = advance after in
              let args = skip opened in
              Outcome-bind
                (Outcome-if (peek args == b']') (λ _. returned (none-ReadsArgs opened))
                  (λ _.
                    Outcome-imp
                      (read_kids-Outcome f args (omega (arith, call_shorter r sp isname moves m1)))
                      (leading-ReadsArgs opened)))
                λ (ks, end) a.
                  close_call-Outcome r start opened (skip end) sp.taken _ ks sp.passed sp.moves
                    isname (Moves-append _ _ moves m1) (ReadsArgs-skip opened ks end a))
            (λ _. returned (record {
              before = sp.taken;
              moves = Moves-append sp.taken _ sp.moves moves;
              spaces = sp.passed;
              spelled = inl (token (inl isname));
            })))
        (λ unnamed.
          let (moves, form) = read_leaf_lem start unnamed in
          leaf-Outcome r start _ sp.taken _ sp.passed sp.moves moves form)

  read_kids-Outcome :
      (f : ℕ) (r : Reader) → 2 * length r.rest + 1 < f → Outcome (ReadsItems r) (read_kids f r)
  read_kids-Outcome zero r h = absurd (omega arith)
  read_kids-Outcome (suc f) r h =
      Outcome-bind (read_node-Outcome f r (omega arith)) λ (k, after) one.
        let next = skip after in
        Outcome-if (peek next == b',')
          (λ isc.
            Outcome-bind
              (read_kids-Outcome f (advance next) (omega (arith, more_shorter r after k one isc)))
              λ (ks, end) later. returned (more-ReadsItems r after end k ks one isc later))
          (λ _. returned (last-ReadsItems r after k one))

at_end-Outcome :
    (s : Text) (n : Node) (r : Reader) (p : ℕ) (u : Text)
    → ReadsNode (record { pos = 0; rest = s }) (n, r)
    → Spans is_space r (record { pos = p; rest = u })
    → Outcome (Parsed s) (finish n (record { pos = p; rest = u }))
unfolding finish
at_end-Outcome s n r p (c ∷ cs) one span = refused
at_end-Outcome s n r p [] one span = returned (record {
  before = one.before;
  after = span.taken;
  splits = one.moves.splits ∙ simp (append_assoc, span.moves.splits ∙ append-nil span.taken);
  before_spaces = one.spaces;
  after_spaces = span.passed;
  spelled = elim one.spelled [
    | inl t ↦ inl t
    | inr (body, o, e, cut) ↦ inr (body, o, e, nil_of_append' (sym span.moves.splits ∙ cut))
  ];
})
  where
    nil_of_append' : {t : Text} → t ++ [] ≡ [] → t ≡ []
    nil_of_append' e = sym (append-nil _) ∙ e

parse-Outcome : (s : Text) → Outcome (Parsed s) (parse s)
unfolding parse
parse-Outcome s =
    Outcome-bind (read_node-Outcome _ (record { pos = 0; rest = s }) (omega arith))
      λ (n, r) one. at_end-Outcome s n r _ _ one (skip-Spans r)

-- `Parse` always gives its answer on the fuel of the model.
pub parse-ne-out_of_fuel : (s : Text) → parse s ≢ out_of_fuel
parse-ne-out_of_fuel s = Outcome-ne_out_of_fuel (parse-Outcome s)

-- What `Parse` accepts is a term of the grammar, between spaces, and the result is its tree.
pub parse_sound : (s : Text) (n : Node) → parse s ≡ ok n → Parsed s n
parse_sound s n = Outcome-eq_ok (parse-Outcome s)
