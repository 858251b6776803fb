-- ===== src/Feature/Reader/Grammar.antt =====
-- The language of canonical strings that the reader of feature/feature.go accepts, as an
-- inductive description that does not mention the reader.
use go_mathsearch.Base.{◌≡◌, true, false, [], ◌∷◌, ◌++◌, ◌⊎◌, All}
use go_mathsearch.Base.Text.{Text}
use go_mathsearch.Feature.Node.{Node, Kids, node, nil, cons, raw}
use go_mathsearch.Feature.Reader.{
  is_space, is_name_start, is_name_char, is_quote, is_delimiter, is_quoted, leaf_node,
}

abbrev pub IsSpaces : Text → Type 0
IsSpaces = All (λ c. is_space c ≡ true)

abbrev pub IsName : Text → Type 0
IsName [] = ⊥
IsName (c ∷ cs) = (is_name_start c ≡ true) × All (λ d. is_name_char d ≡ true) (c ∷ cs)

-- `#1`, `v0`, `@2`, `$Pi`: runs up to the next delimiter.
abbrev pub IsAtom : Text → Type 0
IsAtom [] = ⊥
IsAtom (c ∷ cs) =
    (is_name_start c ≡ false)
    × (is_quoted (c ∷ cs) ≡ false)
    × All (λ d. is_delimiter d ≡ false) (c ∷ cs)

-- `$"` and a body with no quote in it.
abbrev pub IsOpened : Text → Text → Type 0
IsOpened t body = (t ≡ b'$' ∷ b'"' ∷ body) × All (λ c. is_quote c ≡ false) body

-- A string constant with its closing quote.
abbrev pub IsString : Text → Type 0
IsString t =
    (body : Text) × (t ≡ b'$' ∷ b'"' ∷ (body ++ b'"' ∷ [])) × All (λ c. is_quote c ≡ false) body

-- A leaf's token.
abbrev pub IsToken : Text → Type 0
IsToken t = IsName t ⊎ (IsAtom t ⊎ IsString t)

-- `Spells n`: the raw text of `n` reads as `n`. `SpellsArgs ks s`: `s` is what stands between the
-- brackets of a call with the arguments `ks`. `SpellsMore ks s`: `s` is what follows an argument.
mutual
  pub data Spells : Node → Type 0 where
    token : {t : Text} → IsToken t → Spells (leaf_node t)
    call :
        {name inner source : Text} {ks : Kids}
        → IsName name
        → SpellsArgs ks inner
        → source ≡ name ++ (b'[' ∷ (inner ++ b']' ∷ []))
        → Spells (node name ks [] source)

  pub data SpellsArgs : Kids → Text → Type 0 where
    none : {s : Text} → IsSpaces s → SpellsArgs nil s
    first :
        {k : Node} {ks : Kids} {s : Text} (before after more : Text)
        → IsSpaces before
        → Spells k
        → IsSpaces after
        → SpellsMore ks more
        → s ≡ before ++ (raw k ++ (after ++ more))
        → SpellsArgs (cons k ks) s

  pub data SpellsMore : Kids → Text → Type 0 where
    stop : SpellsMore nil []
    comma :
        {k : Node} {ks : Kids} {s : Text}
        → SpellsArgs (cons k ks) s
        → SpellsMore (cons k ks) (b',' ∷ s)

-- `s` is the raw text of `n` between spaces. A string constant that is the whole term may lack its
-- closing quote: it then runs to the end of the input.
pub record Parsed (s : Text) (n : Node) : Type 0 where
  pub before : Text
  pub after : Text
  pub splits : s ≡ before ++ (raw n ++ after)
  pub before_spaces : IsSpaces before
  pub after_spaces : IsSpaces after
  pub spelled :
      Spells n ⊎ ((body : Text) × IsOpened (raw n) body × (n ≡ leaf_node (raw n)) × (after ≡ []))
