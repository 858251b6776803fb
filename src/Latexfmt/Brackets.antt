-- ===== src/Latexfmt/Brackets.antt =====
-- Braces and parentheses in a LaTeX text, properly nested.
use go_mathsearch.Base.{
  ℕ, Bool, true, false, not, ◌&&◌, ◌||◌, Option, none, some, List, [], ◌∷◌, ◌++◌, ◌==◌, nat_eq,
  if◌then◌else◌, Bool-cases, Option-cases, ◌≡◌, refl, subst, ap, ◌∙◌, inl, inr, arith,
}
use go_mathsearch.Base.Text.{Text, codes, text_eq, text_beq, lookup}
use go_mathsearch.Feature.Similarity.{join}

-- What a code point makes of the stack of open brackets.
unfoldable pub bracket : ℕ → List ℕ → Option (List ℕ)
bracket c stack =
    if c == b'{' || c == b'('
    then some (c ∷ stack)
    else if c == b'}' || c == b')'
    then (elim stack [
      | [] ↦ none
      | o ∷ os ↦ if (o == b'{' && c == b'}') || (o == b'(' && c == b')') then some os else none
    ])
    else some stack

unfoldable pub scan : List ℕ → Text → Option (List ℕ)
unfolding bracket
scan stack [] = some stack
scan stack (c ∷ s) = elim (bracket c stack) [ none ↦ none | some next ↦ scan next s ]

-- Every bracket of the text is closed by one of its kind, in the text.
pub record IsBalanced (s : Text) : Type 0 where
  pub closed : scan [] s ≡ some []

-- No bracket at all.
unfoldable pub plain : Text → Bool
plain [] = true
plain (c ∷ s) = not (c == b'{' || c == b'(' || (c == b'}' || c == b')')) && plain s

bracket-append :
    (c : ℕ) (stack next under : List ℕ)
    → bracket c stack ≡ some next
    → bracket c (stack ++ under) ≡ some (next ++ under)
unfolding bracket
bracket-append c [] next under h = ground arith
bracket-append c (o ∷ os) next under h = ground arith

scan-append :
    (stack out under : List ℕ) (s : Text)
    → scan stack s ≡ some out
    → scan (stack ++ under) s ≡ some (out ++ under)
unfolding scan
scan-append stack out under [] h =
    let same : stack ≡ out = cc in ap (λ (st : List ℕ). some (st ++ under)) same
scan-append stack out under (c ∷ s) h = elim (Option-cases (bracket c stack)) [
  | inl stuck ↦ cc (rw (stuck, scan) at h)
  | inr (next, e) ↦
      rw (bracket-append c stack next under e, scan)
        (scan-append next out under s (rw (e, scan) at h))
]

scan-concat :
    (stack out : List ℕ) (s t : Text) → scan stack s ≡ some out → scan stack (s ++ t) ≡ scan out t
unfolding scan
scan-concat stack out [] t h = let same : stack ≡ out = cc in ap (λ st. scan st t) same
scan-concat stack out (c ∷ s) t h = elim (Option-cases (bracket c stack)) [
  | inl stuck ↦ cc (rw (stuck, scan) at h)
  | inr (next, e) ↦ rw (e, scan) (scan-concat next out s t (rw (e, scan) at h))
]

-- A balanced text is passed over, whatever is open.
pub skip :
    {s : Text} → IsBalanced s → (stack : List ℕ) (t : Text) → scan stack (s ++ t) ≡ scan stack t
skip {s} h stack t = scan-concat stack stack s t (scan-append [] [] stack s h.closed)

-- Two balanced texts.
pub IsBalanced-append : {s t : Text} → IsBalanced s → IsBalanced t → IsBalanced (s ++ t)
IsBalanced-append {s} {t} h k = record { closed = skip h [] t ∙ k.closed }

-- What stands behind a balanced text, at the end.
pub skip_last : {s : Text} → IsBalanced s → (stack : List ℕ) → scan stack s ≡ some stack
skip_last {s} h stack = scan-append [] [] stack s h.closed

pub IsBalanced-plain : (s : Text) → plain s ≡ true → IsBalanced s
unfolding plain scan bracket
IsBalanced-plain [] h = record { closed = refl }
IsBalanced-plain (c ∷ s) h = record {
  closed = ground (arith, (IsBalanced-plain s (ground arith)).closed);
}

abbrev pub AllBalanced : List Text → Type 0
AllBalanced [] = Unit
AllBalanced (s ∷ ss) = IsBalanced s × AllBalanced ss

pub IsBalanced-join :
    (sep : Text) (ss : List Text) → IsBalanced sep → AllBalanced ss → IsBalanced (join sep ss)
unfolding join scan
IsBalanced-join sep [] h a = record { closed = refl }
IsBalanced-join sep (s ∷ []) h a = a.0
IsBalanced-join sep (s ∷ t ∷ ss) h a =
    IsBalanced-append a.0 (IsBalanced-append h (IsBalanced-join sep (t ∷ ss) h a.1))

pub IsBalanced-if :
    (b : Bool) {s t : Text} → IsBalanced s → IsBalanced t → IsBalanced (if b then s else t)
IsBalanced-if true h k = h
IsBalanced-if false h k = k

-- `{s}` and `\left(s\right)` behind a command.
pub IsBalanced-braces : {s : Text} → IsBalanced s → IsBalanced (b'{' ∷ (s ++ codes "}"))
unfolding scan bracket
IsBalanced-braces {s} h = record { closed = skip h (b'{' ∷ []) (codes "}") }

-- The texts of a table are balanced.
abbrev pub TableBalanced : List (Text × Text) → Type 0
TableBalanced [] = Unit
TableBalanced (p ∷ m) = IsBalanced p.1 × TableBalanced m

pub lookup-IsBalanced :
    (k : Text) (m : List (Text × Text)) (v : Text)
    → TableBalanced m
    → lookup k m ≡ some v
    → IsBalanced v
unfolding lookup
lookup-IsBalanced k [] v t h = cc
lookup-IsBalanced k ((j, w) ∷ m) v t h = elim (Bool-cases (text_beq j k)) [
  | inl same ↦
      let found : some w ≡ some v = rw same at h in let is : w ≡ v = cc in subst IsBalanced is t.0
  | inr other ↦ lookup-IsBalanced k m v t.1 (rw other at h)
]
