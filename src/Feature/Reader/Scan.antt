-- ===== src/Feature/Reader/Scan.antt =====
-- The scanning methods of the reader in feature/feature.go on a text that is known to split there.
use go_mathsearch.Base.{
  ℕ, ◌+◌, ◌-◌, ◌≡◌, refl, ap, ◌∙◌, Bool, true, false, not, [], ◌∷◌, ◌++◌, All, length,
  length-append, arith, append_assoc, ◌==◌, nat_eq, take-append,
}
use go_mathsearch.Base.Text.{Text}
use go_mathsearch.Feature.Reader.{
  Reader, skip, read_name, read_leaf, advance, advance_while, advance_closing, slice, is_name_char,
  is_delimiter, is_space, is_quote, is_quoted, tail_of,
}
use go_mathsearch.Feature.Reader.Grammar.{IsSpaces, IsName, IsAtom, IsString, IsOpened}
use go_mathsearch.Feature.Reader.Span.{Stops, advance_while_lem}

abbrev pub at : ℕ → Text → Reader
at p s = record { pos = p; rest = s }

-- What may follow a term: the end, or a delimiter that does not open a call.
abbrev pub Follows : Text → Type 0
Follows [] = Unit
Follows (c ∷ cs) = (is_delimiter c ≡ true) × ((c == b'[') ≡ false)

pub skip_lem :
    (p : ℕ) (s rest : Text)
    → IsSpaces s
    → Stops is_space rest
    → skip (at p (s ++ rest)) ≡ at (p + length s) rest
unfolding skip
skip_lem p s rest a st = advance_while_lem is_space p s rest a st

pub slice_lem : (p : ℕ) (s rest end : Text) → slice (at p (s ++ rest)) (at (p + length s) end) ≡ s
slice_lem p s rest end =
    let e : p + length s - p ≡ length s = omega arith in rw e (take-append s rest)

pub read_name-append :
    (p : ℕ) (s rest : Text)
    → IsName s
    → Stops is_name_char rest
    → read_name (at p (s ++ rest)) ≡ (s, at (p + length s) rest)
unfolding read_name
read_name-append p (c ∷ s) rest a st =
    rw (advance_while_lem is_name_char p (c ∷ s) rest a.1 st)
      (ap (λ t. (t, at (p + length (c ∷ s)) rest)) (slice_lem p (c ∷ s) rest rest))
read_name-append p [] rest a st = absurd a

All-not-false : (q : ℕ → Bool) (s : Text) → All (λ c. q c ≡ false) s → All (λ c. not (q c) ≡ true) s
All-not-false q [] a = tt
All-not-false q (c ∷ s) a = (ground arith, All-not-false q s a.1)

atom_not_quoted : (s rest : Text) → IsAtom s → Follows rest → is_quoted (s ++ rest) ≡ false
unfolding is_delimiter
atom_not_quoted (c ∷ []) [] a f = ground arith
atom_not_quoted (c ∷ []) (d ∷ rest) a f = ground arith
atom_not_quoted (c ∷ d ∷ s) rest a f = a.1
atom_not_quoted [] rest a f = absurd a

Follows-Stops : (rest : Text) → Follows rest → Stops (λ c. not (is_delimiter c)) rest
Follows-Stops [] f = tt
Follows-Stops (c ∷ cs) f = ground arith

pub read_leaf_atom :
    (p : ℕ) (s rest : Text)
    → IsAtom s
    → Follows rest
    → read_leaf (at p (s ++ rest)) ≡ (s, at (p + length s) rest)
unfolding read_leaf
read_leaf_atom p s rest a f = rw (atom_not_quoted s rest a f) (
    rw
      (advance_while_lem (λ c. not (is_delimiter c)) p s rest
        (All-not-false is_delimiter s (letters s a)) (Follows-Stops rest f))
      (ap (λ t. (t, at (p + length s) rest)) (slice_lem p s rest rest)))
  where
    letters : (t : Text) → IsAtom t → All (λ c. is_delimiter c ≡ false) t
    letters [] b = tt
    letters (c ∷ t) b = b.2

-- From behind the opening quote to behind the closing one.
closing-append :
    (q n : ℕ) (body rest : Text)
    → All (λ c. is_quote c ≡ false) body
    → q + length body + 1 ≡ n
    → advance_closing (advance_while (λ c. not (is_quote c)) (at q ((body ++ b'"' ∷ []) ++ rest)))
      ≡ at n rest
closing-append q n body rest a e = rw append_assoc (
    rw
      (advance_while_lem (λ c. not (is_quote c)) q body (b'"' ∷ rest)
        (All-not-false is_quote body a) refl)
      (ap (λ m. at m rest) e))

read_leaf_quoted :
    (r end : Reader)
    → is_quoted r.rest ≡ true
    → advance_closing (advance_while (λ c. not (is_quote c)) (advance (advance r))) ≡ end
    → read_leaf r ≡ (slice r end, end)
unfolding read_leaf
read_leaf_quoted r end q e = rw q (rw e)

pub read_leaf_string :
    (p : ℕ) (s rest : Text)
    → IsString s
    → read_leaf (at p (s ++ rest)) ≡ (s, at (p + length s) rest)
read_leaf_string p s rest (body, e, a) =
    let end : p + 1 + 1 + length body + 1 ≡ p + length s =
      omega (arith, ap length e, length-append body (b'"' ∷ [])) in
    let scan = closing-append (p + 1 + 1) (p + length s) body rest a end in
    let tails : tail_of (tail_of (s ++ rest)) ≡ (body ++ b'"' ∷ []) ++ rest = rw e in
    read_leaf_quoted (at p (s ++ rest)) (at (p + length s) rest) (rw e) (rw tails scan)
    ∙ ap (λ t. (t, at (p + length s) rest)) (slice_lem p s rest rest)

pub read_leaf_cut_off :
    (p : ℕ) (t body : Text)
    → IsOpened t body
    → read_leaf (at p (t ++ [])) ≡ (t, at (p + length t) [])
read_leaf_cut_off p t body (e, a) =
    let end : p + 1 + 1 + length body ≡ p + length t = omega (arith, ap length e) in
    let tails : tail_of (tail_of (t ++ [])) ≡ body ++ [] = rw e in
    let scan =
      advance_while_lem (λ c. not (is_quote c)) (p + 1 + 1) body [] (All-not-false is_quote body a)
        tt in
    read_leaf_quoted (at p (t ++ [])) (at (p + length t) []) (rw e)
      (rw tails (rw scan (ap (λ q. at q []) end)))
    ∙ ap (λ u. (u, at (p + length t) [])) (slice_lem p t [] [])
