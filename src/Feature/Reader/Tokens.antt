-- ===== src/Feature/Reader/Tokens.antt =====
-- What `skip`, `readName` and `readLeaf` of feature/feature.go read.
use go_mathsearch.Base.{
  ℕ, ◌≡◌, refl, Bool, true, false, not, inl, inr, [], ◌∷◌, ◌++◌, All, Bool-cases, arith, ◌<◌,
  nat_eq, ◌==◌,
}
use go_mathsearch.Base.Text.{Text}
use go_mathsearch.Feature.Reader.{
  Reader, skip, read_name, read_leaf, advance, advance_while, advance_closing, peek, is_space,
  is_name_start, is_name_char, is_delimiter, is_quoted, is_quote, head_of, tail_of,
}
use go_mathsearch.Feature.Reader.Grammar.{IsName, IsAtom, IsString, IsOpened}
use go_mathsearch.Feature.Reader.Span.{
  Moves, Moves-append, slice-Moves, Stops, Spans, advance_while-Spans,
}

pub skip-Spans : (r : Reader) → Spans is_space r (skip r)
unfolding skip
skip-Spans r = advance_while-Spans is_space r

head_of-eq : (s : Text) (c : ℕ) → 0 < c → (head_of s == c) ≡ true → s ≡ c ∷ tail_of s
head_of-eq [] c h e = ground arith
head_of-eq (d ∷ s) c h e = ground arith

-- A rune that `peek` shows is read by `r.pos++`.
pub advance-Moves :
    (r : Reader) (c : ℕ) → 0 < c → (peek r == c) ≡ true → Moves r (c ∷ []) (advance r)
advance-Moves r c h e = record { splits = head_of-eq r.rest c h e; moved = omega arith }

IsName-of_span :
    (t s rest : Text)
    → s ≡ t ++ rest
    → is_name_start (head_of s) ≡ true
    → All (λ c. is_name_char c ≡ true) t
    → Stops is_name_char rest
    → IsName t
unfolding is_name_start is_name_char
IsName-of_span [] s [] e h a st = ground arith
IsName-of_span [] s (c ∷ rest) e h a st = ground arith
IsName-of_span (c ∷ t) s rest e h a st = (ground arith, a)

pub read_name_lem :
    (r : Reader)
    → is_name_start (peek r) ≡ true
    → IsName (read_name r).0 × Moves r (read_name r).0 (read_name r).1
unfolding read_name
read_name_lem r h =
    let span = advance_while-Spans is_name_char r in
    let same = slice-Moves span.taken span.moves in
    (
      rw same (IsName-of_span span.taken r.rest _ span.moves.splits h span.passed span.stops),
      rw same span.moves,
    )

-- What `readLeaf` returns where no name starts: nothing, an atom, a string constant, or a string
-- constant that the end of the input cuts off.
pub data Leaf (t rest : Text) : Type 0 where
  empty : t ≡ [] → Leaf t rest
  atom : IsAtom t → Leaf t rest
  closed : IsString t → Leaf t rest
  open_ended : (body : Text) → IsOpened t body → rest ≡ [] → Leaf t rest

All-not : (p : ℕ → Bool) (t : Text) → All (λ c. not (p c) ≡ true) t → All (λ c. p c ≡ false) t
All-not p [] a = tt
All-not p (c ∷ t) a = (ground arith, All-not p t a.1)

plain-Leaf :
    (t s rest : Text)
    → s ≡ t ++ rest
    → is_name_start (head_of s) ≡ false
    → is_quoted s ≡ false
    → All (λ c. is_delimiter c ≡ false) t
    → Leaf t rest
plain-Leaf [] s rest e h q a = empty refl
plain-Leaf (c ∷ []) s rest e h q a = atom (rw e at h, ground arith, a)
plain-Leaf (c ∷ d ∷ t) s rest e h q a = atom (rw e at h, rw e at q, a)

-- The two runes of an opening `$"`.
opening-Moves :
    (r : Reader) → is_quoted r.rest ≡ true → Moves r (b'$' ∷ b'"' ∷ []) (advance (advance r))
opening-Moves r h =
    Moves-append (b'$' ∷ []) (b'"' ∷ []) (advance-Moves r b'$' (omega arith) (ground arith))
      (advance-Moves (advance r) b'"' (omega arith) (ground arith))

-- After the body: the closing quote, if there is one.
closing_lem :
    (r : Reader) (p : ℕ) (s body : Text)
    → All (λ c. is_quote c ≡ false) body
    → Moves r (b'$' ∷ b'"' ∷ body) (record { pos = p; rest = s })
    → Stops (λ c. not (is_quote c)) s
    → let end = advance_closing (record { pos = p; rest = s }) in
      (t : Text) × Moves r t end × Leaf t end.rest
closing_lem r p [] body o m st = (b'$' ∷ b'"' ∷ body, m, open_ended body (refl, o) refl)
closing_lem r p (c ∷ s) body o m st = (
  b'$' ∷ b'"' ∷ (body ++ b'"' ∷ []),
  Moves-append (b'$' ∷ b'"' ∷ body) (b'"' ∷ []) m
      (advance-Moves (record { pos = p; rest = c ∷ s }) b'"' (omega arith) (ground arith)),
  closed (body, refl, o),
)

quoted_lem :
    (r : Reader)
    → is_quoted r.rest ≡ true
    → let end = advance_closing (advance_while (λ c. not (is_quote c)) (advance (advance r))) in
      (t : Text) × Moves r t end × Leaf t end.rest
quoted_lem r q =
    let span = advance_while-Spans (λ c. not (is_quote c)) (advance (advance r)) in
    closing_lem r _ _ span.taken (All-not is_quote _ span.passed)
      (Moves-append (b'$' ∷ b'"' ∷ []) span.taken (opening-Moves r q) span.moves) span.stops

pub read_leaf_lem :
    (r : Reader)
    → is_name_start (peek r) ≡ false
    → Moves r (read_leaf r).0 (read_leaf r).1 × Leaf (read_leaf r).0 (read_leaf r).1.rest
unfolding read_leaf
read_leaf_lem r h = elim (Bool-cases (is_quoted r.rest)) [
  | inl q ↦ rw q (
      let (t, moves, form) = quoted_lem r q in
      let same = slice-Moves t moves in (rw same moves, rw same form))
  | inr q ↦ rw q (
      let span = advance_while-Spans (λ c. not (is_delimiter c)) r in
      let same = slice-Moves span.taken span.moves in
      let letters = All-not is_delimiter _ span.passed in
      (rw same span.moves, rw same (plain-Leaf span.taken r.rest _ span.moves.splits h q letters)))
]
