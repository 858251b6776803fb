-- ===== src/Feature/Reader/Complete.antt =====
-- The reader of feature/feature.go accepts the whole language of `Grammar`.
use go_mathsearch.Base.{
  ℕ, zero, suc, ◌+◌, ◌*◌, ◌<◌, ◌≡◌, ◌↔◌, refl, sym, ap, ◌∙◌, false, inl, inr, [], ◌∷◌, ◌++◌, length,
  length-append, arith, append_assoc, append-nil, if◌then◌else◌, ◌==◌, nat_eq,
}
use native.Mathlib.Nat.{add-zero}
use go_mathsearch.Base.Text.{Text}
use go_mathsearch.Feature.Node.{Node, Kids, node, nil, cons, raw}
use go_mathsearch.Feature.Reader.{
  Reader, ok, skip, read_node, read_kids, close_call, finish, parse, leaf_node, peek, is_name_start,
  is_name_char, is_delimiter, head_of,
}
use go_mathsearch.Feature.Reader.Grammar.{
  IsSpaces, IsName, IsOpened, Spells, SpellsArgs, SpellsMore, token, call, none, first, stop, comma,
  Parsed,
}
use go_mathsearch.Feature.Reader.Scan.{at, Follows, skip_lem, read_name-append, read_leaf_cut_off}
use go_mathsearch.Feature.Reader.Sound.{parse_sound}
use go_mathsearch.Feature.Reader.Pieces.{IsNonempty}
use go_mathsearch.Feature.Reader.Steps.{
  read_node_call, rest_of_kids, read_kids_step, StartsTerm, IsName-StartsTerm, StartsTerm-append,
  Spells-StartsTerm, IsName-peek, skip_to_term, leaf_complete, token_complete, close_call_lem,
  read_kids-skip, more-Follows,
}

-- What stands between the brackets, from the lemma on one argument or more.
args_of_kids :
    (f p : ℕ) (k : Node) (ks : Kids) (before rest : Text) (end : Reader)
    → IsSpaces before
    → StartsTerm (raw k)
    → read_kids f (at p (before ++ (raw k ++ rest))) ≡ ok (cons k ks, end)
    → (let args = skip (at p (before ++ (raw k ++ rest))) in
        if peek args == b']' then ok (nil, args) else read_kids f args)
      ≡ ok (cons k ks, end)
args_of_kids f p k ks before rest end sp st e = rw (skip_to_term p before (raw k) rest sp st) (
    rw (not_closing (raw k) rest st)
      (rw (← skip_to_term p before (raw k) rest sp st) (read_kids-skip f _ ∙ e)))
  where
    not_closing : (t u : Text) → StartsTerm t → (head_of (t ++ u) == b']') ≡ false
    not_closing (c ∷ t) u h = h.1
    not_closing [] u h = absurd h

-- Fuel above a bound is a successor.
abbrev Fuelled : (ℕ → Type 0) → ℕ → Type 0
Fuelled P bound = (f : ℕ) → bound < f → P f

spend : (P : ℕ → Type 0) (bound : ℕ) → ((f : ℕ) → bound < suc f → P (suc f)) → Fuelled P bound
spend P bound k zero h = absurd (omega arith)
spend P bound k (suc f) h = k f h

call_complete :
    (name inner source : Text) (ks : Kids) (f p : ℕ) (before rest : Text)
    → IsName name
    → source ≡ name ++ (b'[' ∷ (inner ++ b']' ∷ []))
    → IsSpaces before
    → (let args = skip (at (p + length before + length name + 1) (inner ++ (b']' ∷ rest))) in
        if peek args == b']' then ok (nil, args) else read_kids f args)
      ≡ ok (ks, at (p + length before + length name + 1 + length inner) (b']' ∷ rest))
    → read_node (suc f) (at p (before ++ (source ++ rest)))
      ≡ ok (node name ks [] source, at (p + length before + length source) rest)
unfolding is_name_char
call_complete name inner source ks f p before rest isname e sp args =
    let p' = p + length before in
    let split : source ++ rest ≡ name ++ (b'[' ∷ (inner ++ (b']' ∷ rest))) =
      simp (e, append_assoc) in
    let long : p' + length name + 1 + length inner + 1 ≡ p' + length source = omega (
      arith,
      ap length e,
      length-append name (b'[' ∷ (inner ++ b']' ∷ [])),
      length-append inner (b']' ∷ []),
    ) in
    let begins : StartsTerm source =
      rw e (StartsTerm-append name _ (IsName-StartsTerm name isname)) in
    let skipped = skip_to_term p before source rest sp begins in
    let named = read_name-append p' name (b'[' ∷ (inner ++ (b']' ∷ rest))) isname bracket in
    let opened = at (p' + length name) (b'[' ∷ (inner ++ (b']' ∷ rest))) in
    let end = at (p' + length name + 1 + length inner) (b']' ∷ rest) in
    let whole = at p (before ++ (source ++ rest)) in
    read_node_call f whole (at p' (source ++ rest)) opened end name ks skipped
      (rw split (IsName-peek name _ isname)) (rw split named) refl args
    ∙ ap (close_call name (at p' (source ++ rest)) ks) (skip_lem _ [] (b']' ∷ rest) tt refl)
    ∙ ap (λ q. close_call name (at p' (source ++ rest)) ks (at q (b']' ∷ rest))) (add-zero _)
    ∙ close_call_lem name source rest p' (p' + length name + 1 + length inner) ks long
  where
    bracket : is_name_char b'[' ≡ false
    bracket = refl

args_complete :
    {ks : Kids} {s : Text}
    → SpellsArgs ks s
    → (f p : ℕ) (rest : Text)
    → (IsNonempty ks
        → read_kids f (at p (s ++ (b']' ∷ rest))) ≡ ok (ks, at (p + length s) (b']' ∷ rest)))
    → (let args = skip (at p (s ++ (b']' ∷ rest))) in
        if peek args == b']' then ok (nil, args) else read_kids f args)
      ≡ ok (ks, at (p + length s) (b']' ∷ rest))
args_complete (none {s} sp) f p rest kids = rw (skip_lem p s (b']' ∷ rest) sp refl)
args_complete (first {k} {ks} {s} before after more sp sk sp' m e) f p rest kids =
    let split : s ++ (b']' ∷ rest) ≡ before ++ (raw k ++ (after ++ (more ++ (b']' ∷ rest)))) =
      simp (e, append_assoc) in
    rw split (args_of_kids f p k ks before _ _ sp (Spells-StartsTerm sk) (rw split at (kids tt)))

source_long :
    (name inner source : Text)
    → source ≡ name ++ (b'[' ∷ (inner ++ b']' ∷ []))
    → length source ≡ length name + length inner + 2
source_long name inner source e = omega (
  arith,
  ap length e,
  length-append name (b'[' ∷ (inner ++ b']' ∷ [])),
  length-append inner (b']' ∷ []),
)

argument_long :
    (before k after more s : Text)
    → s ≡ before ++ (k ++ (after ++ more))
    → length before + (length k + (length after + length more)) ≡ length s
argument_long before k after more s e = omega (
  arith,
  ap length e,
  length-append before (k ++ (after ++ more)),
  length-append k (after ++ more),
  length-append after more,
)

-- The fuel is above twice the length of what is read.
mutual
  node_complete :
      {n : Node}
      → Spells n
      → (p : ℕ) (before rest : Text) → IsSpaces before
      → Follows rest
      → Fuelled
          (λ f.
            read_node f (at p (before ++ (raw n ++ rest)))
            ≡ ok (n, at (p + length before + length (raw n)) rest))
          (2 * length (raw n))
  node_complete (token {t} form) p before rest sp fo =
      spend _ _ λ f h. token_complete t f p before rest form sp fo
  node_complete (call {name} {inner} {source} {ks} isname args e) p before rest sp fo =
      spend _ _ λ f h. call_complete name inner source ks f p before rest isname e sp (
        args_complete args f _ rest
          λ ne. kids_complete args ne _ rest f (omega (arith, source_long name inner source e)))

  kids_complete :
      {ks : Kids} {s : Text}
      → SpellsArgs ks s
      → IsNonempty ks
      → (p : ℕ) (rest : Text)
      → Fuelled
          (λ f. read_kids f (at p (s ++ (b']' ∷ rest))) ≡ ok (ks, at (p + length s) (b']' ∷ rest)))
          (2 * length s + 1)
  kids_complete (none sp) ne p rest = absurd ne
  kids_complete (first {k} {ks} {s} before after more sp sk sp' m e) ne p rest = spend _ _ λ f h.
      let split : s ++ (b']' ∷ rest) ≡ before ++ (raw k ++ (after ++ (more ++ (b']' ∷ rest)))) =
        simp (e, append_assoc) in
      let long : length before + (length (raw k) + (length after + length more)) ≡ length s =
        argument_long before (raw k) after more s e in
      let one = node_complete sk p before _ sp (more-Follows after rest m sp') f (omega arith) in
      let later = at (p + length before + length (raw k)) (after ++ (more ++ (b']' ∷ rest))) in
      rw split (
        read_kids_step f (at p (before ++ (raw k ++ (after ++ (more ++ (b']' ∷ rest)))))) later k
          one
        ∙ more_complete m (p + length before + length (raw k)) k after rest sp' f (omega arith)
        ∙ ap (λ q. ok (cons k ks, at q (b']' ∷ rest))) (omega arith))

  more_complete :
      {ks : Kids} {more : Text}
      → SpellsMore ks more
      → (p : ℕ) (k : Node) (after rest : Text) → IsSpaces after
      → Fuelled
          (λ f.
            rest_of_kids f k (skip (at p (after ++ (more ++ (b']' ∷ rest)))))
            ≡ ok (cons k ks, at (p + length after + length more) (b']' ∷ rest)))
          (2 * length more)
  more_complete stop p k after rest sp f h =
      rw (skip_lem p after (b']' ∷ rest) sp refl)
        (ap (λ q. ok (cons k nil, at q (b']' ∷ rest))) (omega arith))
  more_complete (comma {k = k'} {ks = ks'} {s = s} a) p k after rest sp f h =
      rw (skip_lem p after (b',' ∷ (s ++ (b']' ∷ rest))) sp refl) (
        rw (kids_complete a tt (p + length after + 1) rest f (omega arith))
          (ap (λ q. ok (cons k (cons k' ks'), at q (b']' ∷ rest))) (omega arith)))

IsSpaces-Follows : (s : Text) → IsSpaces s → Follows s
unfolding is_delimiter
IsSpaces-Follows [] a = tt
IsSpaces-Follows (c ∷ s) a = ground arith

finish_lem :
    (n : Node) (p : ℕ) (after : Text) → IsSpaces after → finish n (skip (at p after)) ≡ ok n
unfolding finish
finish_lem n p after sp = rw (← append-nil after) (rw (skip_lem p after [] sp tt))

-- A string constant that the end of the input cuts off.
cut_off_complete :
    (before t body : Text)
    → IsSpaces before
    → IsOpened t body
    → Fuelled
        (λ f.
          read_node f (at 0 (before ++ (t ++ [])))
          ≡ ok (leaf_node t, at (0 + length before + length t) []))
        0
unfolding is_name_start
cut_off_complete before t body sp o = spend _ _ λ f h.
    leaf_complete t f 0 before [] (rw o.0 (refl, refl)) (unnamed t o.0)
      (read_leaf_cut_off _ t body o) sp
  where
    unnamed : (u : Text) → u ≡ b'$' ∷ b'"' ∷ body → is_name_start (head_of (u ++ [])) ≡ false
    unnamed u e = rw e

-- A term between spaces, with nothing behind it.
parse_of_read :
    (s : Text) (n : Node) (before after : Text) (p : ℕ)
    → s ≡ before ++ (raw n ++ after)
    → IsSpaces after
    → read_node (2 * length s + 1) (at 0 (before ++ (raw n ++ after))) ≡ ok (n, at p after)
    → parse s ≡ ok n
unfolding parse
parse_of_read s n before after p e sp r =
    let read : read_node (2 * length s + 1) (at 0 s) ≡ ok (n, at p after) =
      ap (λ t. read_node (2 * length s + 1) (at 0 t)) e ∙ r in
    rw read (finish_lem n p after sp)

-- Every text of the grammar is accepted, and read as its tree.
pub parse_complete : (s : Text) (n : Node) → Parsed s n → parse s ≡ ok n
parse_complete s n d = elim d.spelled [
  | inl t ↦ parse_of_read s n d.before d.after _ d.splits d.after_spaces (
      node_complete t 0 d.before d.after d.before_spaces (IsSpaces-Follows d.after d.after_spaces)
        (2 * length s + 1) (omega (arith, parsed_long d.before (raw n) d.after s d.splits)))
  | inr (body, o, e, cut) ↦
      parse_of_read s n d.before d.after (0 + length d.before + length (raw n)) d.splits
        d.after_spaces
        (rw cut (
          cut_off_complete d.before (raw n) body d.before_spaces o (2 * length s + 1) (omega arith)
          ∙ ap (λ m. ok (m, at (0 + length d.before + length (raw n)) [])) (sym e)))
]
  where
    parsed_long : (before t after s : Text) → s ≡ before ++ (t ++ after) → length t < length s + 1
    parsed_long before t after s e =
        omega (arith, ap length e, length-append before (t ++ after), length-append t after)

-- `Parse` accepts exactly the texts of the grammar, each as its own tree.
pub parse-eq-ok_iff : (s : Text) (n : Node) → (parse s ≡ ok n) ↔ Parsed s n
parse-eq-ok_iff s n = (parse_sound s n, parse_complete s n)
