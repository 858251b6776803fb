-- ===== src/Feature/Reader/Pieces.antt =====
-- What the parts of a run of the reader in feature/feature.go read, joined to terms and arguments.
use go_mathsearch.Base.{
  suc, ◌+◌, ◌<◌, ◌≡◌, refl, sym, ap, ◌∙◌, true, false, ◌⊎◌, inl, inr, [], ◌∷◌, ◌++◌, length,
  length-append, All-append, arith, append_assoc, append-nil, if◌then◌else◌, ◌==◌, nat_eq, ==_iff,
}
use go_mathsearch.Base.Text.{Text, text_eq}
use go_mathsearch.Feature.Node.{Node, Kids, nil, cons, raw}
use go_mathsearch.Feature.Reader.{
  Reader, ok, error_at, expected_term, skip, advance, peek, leaf_node, close_call, is_space,
}
use go_mathsearch.Feature.Reader.Grammar.{
  IsSpaces, IsName, IsOpened, Spells, SpellsArgs, SpellsMore, token, call, none, first, stop, comma,
}
use go_mathsearch.Feature.Reader.Outcome.{Outcome, returned, refused, Outcome-if}
use go_mathsearch.Feature.Reader.Span.{Moves, Moves-append, slice-Moves, Spans}
use go_mathsearch.Feature.Reader.Tokens.{
  skip-Spans, advance-Moves, Leaf, empty, atom, closed, open_ended,
}

-- The string constant that the end of the input cuts off.
abbrev pub IsCutOff : Node → Text → Type 0
IsCutOff n rest = (body : Text) × IsOpened (raw n) body × (n ≡ leaf_node (raw n)) × (rest ≡ [])

-- A term behind spaces.
pub record ReadsNode (r : Reader) (res : Node × Reader) : Type 0 where
  pub before : Text
  pub moves : Moves r (before ++ raw res.0) res.1
  pub spaces : IsSpaces before
  pub spelled : Spells res.0 ⊎ IsCutOff res.0 res.1.rest

-- What stands between the brackets of a call, up to the closing bracket.
pub record ReadsArgs (r : Reader) (res : Kids × Reader) : Type 0 where
  pub inner : Text
  pub moves : Moves r inner res.1
  pub spelled : SpellsArgs res.0 inner ⊎ (res.1.rest ≡ [])

pub Moves-length :
    {r r' : Reader} (t : Text) → Moves r t r' → length r.rest ≡ length t + length r'.rest
Moves-length {r} {r'} t m = ap length m.splits ∙ length-append t r'.rest

SpellsArgs-leading :
    {ks : Kids} {s : Text} (b : Text) → IsSpaces b → SpellsArgs ks s → SpellsArgs ks (b ++ s)
SpellsArgs-leading b h (none {s = t} g) = none (All-append _ b t h g)
SpellsArgs-leading b h (first before after more g k a m e) =
    first (b ++ before) after more (All-append _ b before h g) k a m (simp (e, append_assoc))

SpellsArgs-trailing :
    {ks : Kids} {s : Text} (b : Text) → IsSpaces b → SpellsArgs ks s → SpellsArgs ks (s ++ b)
SpellsArgs-trailing b h (none {s = t} g) = none (All-append _ t b g h)
SpellsArgs-trailing b h (first before after more g k a stop e) =
    first before (after ++ b) [] g k (All-append _ after b a h) stop
      (simp (e, append_assoc, append-nil))
SpellsArgs-trailing b h (first before after more g k a (comma {s = s'} m) e) =
    first before after _ g k a (comma (SpellsArgs-trailing b h m)) (simp (e, append_assoc))

-- Spaces before the closing bracket.
pub ReadsArgs-skip :
    (r : Reader) (ks : Kids) (after : Reader)
    → ReadsArgs r (ks, after)
    → ReadsArgs r (ks, skip after)
ReadsArgs-skip r ks after h =
    let span = skip-Spans after in
    record {
      inner = h.inner ++ span.taken;
      moves = Moves-append h.inner span.taken h.moves span.moves;
      spelled = elim h.spelled [
        | inl s ↦ inl (SpellsArgs-trailing span.taken span.passed s)
        | inr e ↦ inr (rest-nil span.taken (sym e ∙ span.moves.splits))
      ];
    }
  where
    rest-nil : {rest : Text} (t : Text) → [] ≡ t ++ rest → rest ≡ []
    rest-nil [] e = sym e
    rest-nil (c ∷ t) e = cc

pub close_call-Outcome :
    (r start opened after : Reader) (before name : Text) (ks : Kids)
    → IsSpaces before
    → Moves r before start
    → IsName name
    → Moves start (name ++ b'[' ∷ []) opened
    → ReadsArgs opened (ks, after)
    → Outcome (ReadsNode r) (close_call name start ks after)
unfolding close_call
close_call-Outcome r start opened after before name ks sp m0 isname m1 args =
    Outcome-if (peek after == b']')
      (λ closes.
        let m2 = advance-Moves after b']' (omega arith) closes in
        let source = (name ++ b'[' ∷ []) ++ (args.inner ++ b']' ∷ []) in
        let m3 = Moves-append (name ++ b'[' ∷ []) _ m1 (Moves-append args.inner _ args.moves m2) in
        returned (record {
          before = before;
          moves = rw (slice-Moves source m3) (Moves-append before source m0 m3);
          spaces = sp;
          spelled = elim args.spelled [
            | inl s ↦ inl (rw (slice-Moves source m3) (call isname s (append_assoc name _ _)))
            | inr e ↦ cc (m2.splits, e)
          ];
        }))
      (λ _. refused)

-- A leaf that a name makes, or that `readLeaf` returns.
pub leaf-Outcome :
    (r start after : Reader) (before t : Text)
    → IsSpaces before
    → Moves r before start
    → Moves start t after
    → Leaf t after.rest
    → Outcome
        (ReadsNode r)
        (if t == [] then error_at after.pos expected_term else ok (leaf_node t, after))
leaf-Outcome r start after before t sp m0 m1 form =
    Outcome-if (t == []) (λ _. refused)
      (λ present. returned (record {
        before = before;
        moves = Moves-append before t m0 m1;
        spaces = sp;
        spelled = spelling form present;
      }))
  where
    spelling :
        Leaf t after.rest
        → (t == []) ≡ false
        → Spells (leaf_node t) ⊎ IsCutOff (leaf_node t) after.rest
    spelling (empty e) present = cc (present, (==_iff t []).1 e)
    spelling (atom a) present = inl (token (inr (inl a)))
    spelling (closed c) present = inl (token (inr (inr c)))
    spelling (open_ended body o e) present = inr (body, o, refl, e)

abbrev pub IsNonempty : Kids → Type 0
IsNonempty nil = ⊥
IsNonempty (cons k ks) = Unit

SpellsMore-comma :
    {s : Text} (ks : Kids) → IsNonempty ks → SpellsArgs ks s → SpellsMore ks (b',' ∷ s)
SpellsMore-comma nil ne h = absurd ne
SpellsMore-comma (cons k ks) ne h = comma h

-- What `read_kids` reads: at least one argument.
pub record ReadsItems (r : Reader) (res : Kids × Reader) : Type 0 where
  pub args : ReadsArgs r res
  pub nonempty : IsNonempty res.0

nil_of_append : {rest : Text} (t : Text) → t ++ rest ≡ [] → rest ≡ []
nil_of_append [] e = e
nil_of_append (c ∷ t) e = cc

-- An argument with no comma behind it.
pub last-ReadsItems :
    (r after : Reader) (k : Node) → ReadsNode r (k, after) → ReadsItems r (cons k nil, skip after)
last-ReadsItems r after k one =
    let span = skip-Spans after in
    record {
      args = record {
        inner = (one.before ++ raw k) ++ span.taken;
        moves = Moves-append _ span.taken one.moves span.moves;
        spelled = elim one.spelled [
          | inl s ↦ inl (
              first one.before span.taken [] one.spaces s span.passed stop
                (simp (append_assoc, append-nil)))
          | inr cut ↦ inr (nil_of_append span.taken (sym span.moves.splits ∙ cut.3))
        ];
      };
      nonempty = tt;
    }

-- An argument, a comma and the arguments after it.
pub more-ReadsItems :
    (r after end : Reader) (k : Node) (ks : Kids)
    → ReadsNode r (k, after)
    → (peek (skip after) == b',') ≡ true
    → ReadsItems (advance (skip after)) (ks, end)
    → ReadsItems r (cons k ks, end)
more-ReadsItems r after end k ks one isc later =
    let span = skip-Spans after in
    let m1 = Moves-append _ span.taken one.moves span.moves in
    let m2 = advance-Moves (skip after) b',' (omega arith) isc in
    record {
      args = record {
        inner = ((one.before ++ raw k) ++ span.taken) ++ (b',' ∷ later.args.inner);
        moves = Moves-append _ _ m1 (Moves-append (b',' ∷ []) _ m2 later.args.moves);
        spelled = elim (later.args.spelled) [
          | inr e ↦ inr e
          | inl more ↦ elim one.spelled [
            | inl s ↦ inl (
                first one.before span.taken (b',' ∷ later.args.inner) one.spaces s span.passed
                  (SpellsMore-comma ks later.nonempty more) (simp append_assoc))
            | inr cut ↦ cc (nil_of_append span.taken (sym span.moves.splits ∙ cut.3), m2.splits)
          ]
        ];
      };
      nonempty = tt;
    }

-- The comma is consumed.
pub more_shorter :
    (r after : Reader) (k : Node)
    → ReadsNode r (k, after)
    → (peek (skip after) == b',') ≡ true
    → length (advance (skip after)).rest < length r.rest
more_shorter r after k one isc =
    let span = skip-Spans after in
    let m2 = advance-Moves (skip after) b',' (omega arith) isc in
    omega (arith, Moves-length _ one.moves, Moves-length _ span.moves, Moves-length _ m2)

-- Spaces before the first argument.
pub leading-ReadsArgs :
    (opened : Reader) (res : Kids × Reader) → ReadsItems (skip opened) res → ReadsArgs opened res
leading-ReadsArgs opened res items =
    let span = skip-Spans opened in
    record {
      inner = span.taken ++ items.args.inner;
      moves = Moves-append span.taken _ span.moves items.args.moves;
      spelled = elim items.args.spelled [
        | inl s ↦ inl (SpellsArgs-leading span.taken span.passed s)
        | inr e ↦ inr e
      ];
    }

pub none-ReadsArgs : (opened : Reader) → ReadsArgs opened (nil, skip opened)
none-ReadsArgs opened =
    let span = skip-Spans opened in
    record { inner = span.taken; moves = span.moves; spelled = inl (none span.passed) }

-- A name and a bracket are consumed.
pub call_shorter :
    (r : Reader) {start after opened : Reader} {name : Text}
    → Spans is_space r start
    → IsName name
    → Moves start name after
    → Moves after (b'[' ∷ []) opened
    → suc (length (skip opened).rest) < length r.rest
call_shorter r {opened = opened} {name = []} sp isname m1 m2 = absurd isname
call_shorter r {opened = opened} {name = c ∷ cs} sp isname m1 m2 =
    let last = skip-Spans opened in
    omega (
      arith,
      Moves-length _ sp.moves,
      Moves-length (c ∷ cs) m1,
      Moves-length _ m2,
      Moves-length _ last.moves,
    )
