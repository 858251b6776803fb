-- ===== src/Feature/Reader.antt =====
-- The type `reader` of feature/feature.go and its methods: the recursive descent that `Parse`
-- makes over a canonical string.
pub mod Grammar
pub mod Span
pub mod Outcome
pub mod Tokens
pub mod Pieces
pub mod Sound
pub mod Scan
pub mod Steps
pub mod Complete
use go_mathsearch.Base.{
  ℕ, zero, suc, ◌+◌, ◌-◌, ◌*◌, Bool, true, false, not, ◌&&◌, ◌||◌, [], ◌∷◌, ◌==◌, nat_eq, leb,
  if◌then◌else◌, length, take,
}
use go_mathsearch.Base.Text.{Text, text_eq}
use go_mathsearch.Feature.Node.{Node, Kids, node, nil, cons}

-- `r.s` is never written, so a reader is its position and what is left: `rest` is `r.s[r.pos:]`.
pub record Reader : Type 0 where
  pub pos : ℕ
  pub rest : Text

pub data Message : Type 0 where
  trailing_input expected_bracket expected_term : Message

-- `out_of_fuel` has no counterpart in the program.
pub data Result {ℓ} (A : Type ℓ) : Type ℓ where
  ok : A → Result A
  error_at : ℕ → Message → Result A
  out_of_fuel : Result A

infixl 5 ◌>>=◌
abbrev pub ◌>>=◌ {ℓ κ} : {A : Type ℓ} {B : Type κ} → Result A → (A → Result B) → Result B
ok a >>= f = f a
error_at p m >>= f = error_at p m
out_of_fuel >>= f = out_of_fuel

abbrev pub tail_of : Text → Text
tail_of [] = []
tail_of (c ∷ cs) = cs

abbrev pub head_of : Text → ℕ
head_of [] = 0
head_of (c ∷ cs) = c

-- `r.pos++`, where a rune is left.
abbrev pub advance : Reader → Reader
advance r = record { pos = r.pos + 1; rest = tail_of r.rest }

-- The rune at the position, 0 at the end.
abbrev pub peek : Reader → ℕ
peek r = head_of r.rest

-- `string(r.s[from.pos:to.pos])`
abbrev pub slice : Reader → Reader → Text
slice from to = take (to.pos - from.pos) from.rest

advance_over : (ℕ → Bool) → ℕ → Text → Reader
advance_over test p [] = record { pos = p; rest = [] }
advance_over test p (c ∷ cs) =
    if test c then advance_over test (p + 1) cs else record { pos = p; rest = c ∷ cs }

-- `for r.pos < len(r.s) && test(r.s[r.pos]) { r.pos++ }`
unfoldable pub advance_while : (ℕ → Bool) → Reader → Reader
unfolding advance_over
advance_while test r = advance_over test r.pos r.rest

abbrev pub is_space : ℕ → Bool
is_space c = c == b' '

unfoldable pub skip : Reader → Reader
skip = advance_while is_space

unfoldable pub is_name_start : ℕ → Bool
is_name_start c = leb b'A' c && leb c b'Z' || leb b'a' c && leb c b'z'

unfoldable pub is_name_char : ℕ → Bool
unfolding is_name_start
is_name_char c = is_name_start c || leb b'0' c && leb c b'9'

-- The name, and the reader after it.
unfoldable pub read_name : Reader → Text × Reader
read_name start = let r = advance_while is_name_char start in (slice start r, r)

abbrev pub is_quote : ℕ → Bool
is_quote c = c == b'"'

-- Where an unquoted leaf stops.
unfoldable pub is_delimiter : ℕ → Bool
is_delimiter c = c == b',' || c == b']' || c == b'[' || c == b' '

-- `r.pos++` unless the input has ended.
abbrev pub advance_closing : Reader → Reader
advance_closing r = elim r.rest [ [] ↦ r | c ∷ cs ↦ advance r ]

-- `r.peek() == '$' && r.pos+1 < len(r.s) && r.s[r.pos+1] == '"'`
abbrev pub is_quoted : Text → Bool
is_quoted s = head_of s == b'$' && head_of (tail_of s) == b'"'

unfoldable pub read_leaf : Reader → Text × Reader
read_leaf start =
    let quoted =
      advance_closing (advance_while (λ c. not (is_quote c)) (advance (advance start))) in
    let plain = advance_while (λ c. not (is_delimiter c)) start in
    let end = if is_quoted start.rest then quoted else plain in (slice start end, end)

-- What a leaf of the source is: a node without operator and children, its token also its substring.
abbrev pub leaf_node : Text → Node
leaf_node token = node [] nil token token

-- After the arguments of a call: the closing bracket.
unfoldable pub close_call : Text → Reader → Kids → Reader → Result (Node × Reader)
close_call name start ks r =
    if peek r == b']'
    then ok (node name ks [] (slice start (advance r)), advance r)
    else error_at r.pos expected_bracket

-- After the term: nothing may be left.
unfoldable pub finish : Node → Reader → Result Node
finish n r = elim r.rest [ [] ↦ ok n | c ∷ cs ↦ error_at r.pos trailing_input ]

-- A recursive call starts after what was read, not on a part of the pattern, so each costs fuel.
unfoldable mutual
  pub read_node : ℕ → Reader → Result (Node × Reader)
  read_node zero r = out_of_fuel
  read_node (suc f) r =
      let start = skip r in
      let (name, after_name) = read_name start in
      let args = skip (advance after_name) in
      let kids = if peek args == b']' then ok (nil, args) else read_kids f args in
      let call = kids >>= λ (ks, after). close_call name start ks (skip after) in
      let bare = ok (leaf_node name, after_name) in
      let (token, after_token) = read_leaf start in
      let atom =
        if token == []
        then error_at after_token.pos expected_term
        else ok (leaf_node token, after_token) in
      if is_name_start (peek start) then (if peek after_name == b'[' then call else bare) else atom

  pub read_kids : ℕ → Reader → Result (Kids × Reader)
  read_kids zero r = out_of_fuel
  read_kids (suc f) r = read_node f r >>= λ (k, after).
      let next = skip after in
      let more = read_kids f (advance next) >>= λ (ks, end). ok (cons k ks, end) in
      if peek next == b',' then more else ok (cons k nil, next)

-- `Parse`, on the fuel that `Reader.Sound` proves enough.
unfoldable pub parse : Text → Result Node
parse s =
    read_node (2 * length s + 1) (record { pos = 0; rest = s }) >>= λ (n, r). finish n (skip r)
