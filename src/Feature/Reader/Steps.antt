-- ===== src/Feature/Reader/Steps.antt =====
-- One step of the reader in feature/feature.go on a text of the grammar.
use go_mathsearch.Base.{
  ℕ, zero, suc, ◌+◌, ◌≡◌, refl, ap, ◌∙◌, true, false, ◌⊎◌, inl, inr, [], ◌∷◌, ◌++◌, length, arith,
  if◌then◌else◌, ◌==◌, nat_eq,
}
use go_mathsearch.Base.Text.{Text, text_beq}
use go_mathsearch.Feature.Node.{Node, Kids, node, nil, cons, raw}
use go_mathsearch.Feature.Reader.{
  Reader, Result, ok, ◌>>=◌, skip, read_name, read_leaf, read_node, read_kids, close_call,
  leaf_node, advance, peek, is_name_start, is_name_char, is_delimiter, is_space, head_of,
}
use go_mathsearch.Feature.Reader.Grammar.{
  IsSpaces, IsName, IsAtom, IsString, Spells, SpellsMore, token, call, stop, comma,
}
use go_mathsearch.Feature.Reader.Span.{Stops}
use go_mathsearch.Feature.Reader.Scan.{
  at, Follows, skip_lem, slice_lem, read_name-append, read_leaf_atom, read_leaf_string,
}
use go_mathsearch.Feature.Reader.Tokens.{skip-Spans}

-- One unfolding of `read_node`, by what the text shows.
pub read_node_bare :
    (f : ℕ) (r start after : Reader) (name : Text)
    → skip r ≡ start
    → is_name_start (peek start) ≡ true
    → read_name start ≡ (name, after)
    → (peek after == b'[') ≡ false
    → read_node (suc f) r ≡ ok (leaf_node name, after)
unfolding read_node
read_node_bare f r start after name e1 e2 e3 e4 = rw e1 (rw e2 (rw e3 (rw e4)))

pub read_node_leaf :
    (f : ℕ) (r start after : Reader) (c : ℕ) (t : Text)
    → skip r ≡ start
    → is_name_start (peek start) ≡ false
    → read_leaf start ≡ (c ∷ t, after)
    → read_node (suc f) r ≡ ok (leaf_node (c ∷ t), after)
unfolding read_node text_beq
read_node_leaf f r start after c t e1 e2 e3 = rw e1 (rw e2 (rw e3))

pub read_node_call :
    (f : ℕ) (r start after end : Reader) (name : Text) (ks : Kids)
    → skip r ≡ start
    → is_name_start (peek start) ≡ true
    → read_name start ≡ (name, after)
    → (peek after == b'[') ≡ true
    → (let args = skip (advance after) in
        if peek args == b']' then ok (nil, args) else read_kids f args)
      ≡ ok (ks, end)
    → read_node (suc f) r ≡ close_call name start ks (skip end)
unfolding read_node
read_node_call f r start after end name ks e1 e2 e3 e4 e5 = rw e1 (rw e2 (rw e3 (rw e4 (rw e5))))

-- What `read_kids` does behind its first argument `k`.
abbrev pub rest_of_kids : ℕ → Node → Reader → Result (Kids × Reader)
rest_of_kids f k next =
    if peek next == b','
    then (read_kids f (advance next) >>= λ (ks, end). ok (cons k ks, end))
    else ok (cons k nil, next)

pub read_kids_step :
    (f : ℕ) (r after : Reader) (k : Node)
    → read_node f r ≡ ok (k, after)
    → read_kids (suc f) r ≡ rest_of_kids f k (skip after)
unfolding read_kids
read_kids_step f r after k e = rw e

-- The first rune of a term.
abbrev pub StartsTerm : Text → Type 0
StartsTerm [] = ⊥
StartsTerm (c ∷ cs) = (is_space c ≡ false) × ((c == b']') ≡ false)

pub IsName-StartsTerm : (t : Text) → IsName t → StartsTerm t
unfolding is_name_start
IsName-StartsTerm [] a = a
IsName-StartsTerm (c ∷ t) a = ground arith

pub IsAtom-StartsTerm : (t : Text) → IsAtom t → StartsTerm t
unfolding is_delimiter
IsAtom-StartsTerm [] a = a
IsAtom-StartsTerm (c ∷ t) a = ground arith

pub StartsTerm-append : (s t : Text) → StartsTerm s → StartsTerm (s ++ t)
StartsTerm-append (c ∷ s) t h = h
StartsTerm-append [] t h = absurd h

pub Spells-StartsTerm : {n : Node} → Spells n → StartsTerm (raw n)
Spells-StartsTerm (token {t} (inl a)) = IsName-StartsTerm t a
Spells-StartsTerm (token {t} (inr (inl a))) = IsAtom-StartsTerm t a
Spells-StartsTerm (token {t} (inr (inr (body, e, a)))) = rw e (refl, refl)
Spells-StartsTerm (call {name} isname args e) =
    rw e (StartsTerm-append name _ (IsName-StartsTerm name isname))

pub StartsTerm-Stops : (s : Text) → StartsTerm s → Stops is_space s
StartsTerm-Stops (c ∷ s) h = h.0
StartsTerm-Stops [] h = absurd h

pub IsName-peek : (t rest : Text) → IsName t → is_name_start (head_of (t ++ rest)) ≡ true
IsName-peek (c ∷ t) rest a = a.0
IsName-peek [] rest a = absurd a

pub Follows-Stops_name : (rest : Text) → Follows rest → Stops is_name_char rest
unfolding is_delimiter is_name_char
Follows-Stops_name [] f = tt
Follows-Stops_name (c ∷ cs) f = ground arith

pub Follows-peek : (rest : Text) → Follows rest → (head_of rest == b'[') ≡ false
Follows-peek [] f = refl
Follows-peek (c ∷ cs) f = f.1

-- `skip` stops at a term.
pub skip_to_term :
    (p : ℕ) (before t rest : Text)
    → IsSpaces before
    → StartsTerm t
    → skip (at p (before ++ (t ++ rest))) ≡ at (p + length before) (t ++ rest)
skip_to_term p before t rest sp st =
    skip_lem p before (t ++ rest) sp (StartsTerm-Stops (t ++ rest) (StartsTerm-append t rest st))

pub IsAtom-peek : (t rest : Text) → IsAtom t → is_name_start (head_of (t ++ rest)) ≡ false
IsAtom-peek (c ∷ t) rest a = a.0
IsAtom-peek [] rest a = absurd a

pub IsString-peek : (t rest : Text) → IsString t → is_name_start (head_of (t ++ rest)) ≡ false
unfolding is_name_start
IsString-peek t rest (body, e, a) = rw e

-- A leaf that `readLeaf` reads, behind spaces.
pub leaf_complete :
    (t : Text) (f p : ℕ) (before rest : Text)
    → StartsTerm t
    → is_name_start (head_of (t ++ rest)) ≡ false
    → read_leaf (at (p + length before) (t ++ rest)) ≡ (t, at (p + length before + length t) rest)
    → IsSpaces before
    → read_node (suc f) (at p (before ++ (t ++ rest)))
      ≡ ok (leaf_node t, at (p + length before + length t) rest)
leaf_complete [] f p before rest st un e sp = absurd st
leaf_complete (c ∷ t) f p before rest st un e sp =
    read_node_leaf f _ _ _ c t (skip_to_term p before (c ∷ t) rest sp st) un e

pub token_complete :
    (t : Text) (f p : ℕ) (before rest : Text)
    → IsName t ⊎ (IsAtom t ⊎ IsString t)
    → IsSpaces before
    → Follows rest
    → read_node (suc f) (at p (before ++ (t ++ rest)))
      ≡ ok (leaf_node t, at (p + length before + length t) rest)
token_complete t f p before rest (inl a) sp fo =
    read_node_bare f _ _ _ t (skip_to_term p before t rest sp (IsName-StartsTerm t a))
      (IsName-peek t rest a) (read_name-append _ t rest a (Follows-Stops_name rest fo))
      (Follows-peek rest fo)
token_complete t f p before rest (inr (inl a)) sp fo =
    leaf_complete t f p before rest (IsAtom-StartsTerm t a) (IsAtom-peek t rest a)
      (read_leaf_atom _ t rest a fo) sp
token_complete t f p before rest (inr (inr a)) sp fo =
    leaf_complete t f p before rest (Spells-StartsTerm (token (inr (inr a))))
      (IsString-peek t rest a) (read_leaf_string _ t rest a) sp

-- The closing bracket.
pub close_call_lem :
    (name source rest : Text) (p q : ℕ) (ks : Kids)
    → q + 1 ≡ p + length source
    → close_call name (at p (source ++ rest)) ks (at q (b']' ∷ rest))
      ≡ ok (node name ks [] source, at (p + length source) rest)
unfolding close_call
close_call_lem name source rest p q ks e =
    rw e
      (ap (λ t. ok (node name ks [] t, at (p + length source) rest)) (slice_lem p source rest rest))

pub skip-skip : (r : Reader) → skip (skip r) ≡ skip r
skip-skip r =
    let span = skip-Spans r in
    let r' = skip r in
    skip_lem r'.pos [] r'.rest tt span.stops ∙ ap (λ q. at q r'.rest) (omega arith)

pub read_kids-skip : (f : ℕ) (r : Reader) → read_kids f (skip r) ≡ read_kids f r
unfolding read_node
read_kids-skip zero r = refl
read_kids-skip (suc zero) r = refl
read_kids-skip (suc (suc f)) r = rw skip-skip

-- What follows an argument.
pub more-Follows :
    {ks : Kids} {more : Text} (after rest : Text)
    → SpellsMore ks more
    → IsSpaces after
    → Follows (after ++ (more ++ (b']' ∷ rest)))
unfolding is_delimiter
more-Follows [] rest stop sp = (refl, refl)
more-Follows [] rest (comma a) sp = (refl, refl)
more-Follows (c ∷ after) rest m sp = ground arith
