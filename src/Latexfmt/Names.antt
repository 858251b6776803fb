-- ===== src/Latexfmt/Names.antt =====
-- latexfmt/names.go: how names are set in LaTeX. Names are ASCII, as far as `strings.ToLower` changes
-- them.
use go_mathsearch.Base.{
  ℕ, zero, suc, ◌+◌, ◌-◌, Bool, true, false, ◌&&◌, Option, none, some, List, [], ◌∷◌, ◌++◌, ◌==◌,
  nat_eq, ltb, leb, length, take, if◌then◌else◌,
}
use go_mathsearch.Base.Text.{Text, codes, text_eq, lookup}

abbrev pub greek : List (Text × Text)
greek =
    (codes "alpha", codes "\\alpha")
    ∷ (codes "beta", codes "\\beta")
    ∷ (codes "gamma", codes "\\gamma")
    ∷ (codes "delta", codes "\\delta")
    ∷ (codes "epsilon", codes "\\epsilon")
    ∷ (codes "varepsilon", codes "\\varepsilon")
    ∷ (codes "zeta", codes "\\zeta")
    ∷ (codes "eta", codes "\\eta")
    ∷ (codes "theta", codes "\\theta")
    ∷ (codes "vartheta", codes "\\vartheta")
    ∷ (codes "iota", codes "\\iota")
    ∷ (codes "kappa", codes "\\kappa")
    ∷ (codes "lambda", codes "\\lambda")
    ∷ (codes "mu", codes "\\mu")
    ∷ (codes "nu", codes "\\nu")
    ∷ (codes "xi", codes "\\xi")
    ∷ (codes "omicron", codes "o")
    ∷ (codes "pi", codes "\\pi")
    ∷ (codes "varpi", codes "\\varpi")
    ∷ (codes "rho", codes "\\rho")
    ∷ (codes "sigma", codes "\\sigma")
    ∷ (codes "tau", codes "\\tau")
    ∷ (codes "upsilon", codes "\\upsilon")
    ∷ (codes "phi", codes "\\phi")
    ∷ (codes "varphi", codes "\\varphi")
    ∷ (codes "chi", codes "\\chi")
    ∷ (codes "psi", codes "\\psi")
    ∷ (codes "omega", codes "\\omega")
    ∷ []

abbrev pub greek_capital : List (Text × Text)
greek_capital =
    (codes "gamma", codes "\\Gamma")
    ∷ (codes "delta", codes "\\Delta")
    ∷ (codes "theta", codes "\\Theta")
    ∷ (codes "lambda", codes "\\Lambda")
    ∷ (codes "xi", codes "\\Xi")
    ∷ (codes "pi", codes "\\Pi")
    ∷ (codes "sigma", codes "\\Sigma")
    ∷ (codes "upsilon", codes "\\Upsilon")
    ∷ (codes "phi", codes "\\Phi")
    ∷ (codes "psi", codes "\\Psi")
    ∷ (codes "omega", codes "\\Omega")
    ∷ []

-- `strings.HasPrefix(s, prefix)`
unfoldable pub has_prefix : Text → Text → Bool
has_prefix s [] = true
has_prefix [] (p ∷ ps) = false
has_prefix (c ∷ s) (p ∷ ps) = c == p && has_prefix s ps

-- `s[n:]`
unfoldable pub drop : ℕ → Text → Text
drop zero s = s
drop (suc n) [] = []
drop (suc n) (c ∷ s) = drop n s

-- The last code point, 0 of the empty string.
unfoldable pub last_of : Text → ℕ
last_of [] = 0
last_of (c ∷ []) = c
last_of (c ∷ d ∷ s) = last_of (d ∷ s)

-- `strings.ToLower` of ASCII letters.
abbrev pub lower : ℕ → ℕ
lower c = if leb b'A' c && leb c b'Z' then c + 32 else c

unfoldable pub to_lower : Text → Text
to_lower [] = []
to_lower (c ∷ s) = lower c ∷ to_lower s

abbrev pub mathrm : Text → Text
mathrm name = codes "\\mathrm{" ++ (name ++ codes "}")

-- A named character without its `\[` and `]`.
unfoldable pub named_character : Text → Text
unfolding has_prefix drop to_lower
named_character inner =
    let capital =
      if has_prefix inner (codes "Capital")
      then lookup (to_lower (drop 7 inner)) greek_capital
      else none in
    elim capital [
      | some g ↦ g
      | none ↦ elim (lookup (to_lower inner) greek) [ some g ↦ g | none ↦ mathrm inner ]
    ]

-- A variable that is no named character. `len(name) == 1` counts bytes.
unfoldable pub plain_symbol : Text → Text
plain_symbol name = elim (lookup name greek) [
  | some g ↦ g
  | none ↦ if length name == 1 && ltb (last_of name) 128 then name else mathrm name
]

-- `name[2 : len(name)-1]`
abbrev pub inner_of : Text → Text
inner_of name = drop 2 (take (length name - 1) name)

unfoldable pub symbol : Text → Text
unfolding has_prefix drop last_of named_character plain_symbol
symbol name =
    if name == []
    then []
    else if has_prefix name (codes "\\[") && last_of name == b']'
    then named_character (inner_of name)
    else plain_symbol name

-- `strings.TrimLeft(s, "\"")`
unfoldable pub trim_left : Text → Text
trim_left [] = []
trim_left (c ∷ s) = let rest = trim_left s in if c == b'"' then rest else c ∷ s

-- `strings.TrimRight(s, "\"")`
unfoldable pub trim_right : Text → Text
trim_right [] = []
trim_right (c ∷ s) = let rest = trim_right s in if c == b'"' && rest == [] then [] else c ∷ rest

-- The cases of the `switch` in `constName`.
abbrev pub const_names : List (Text × Text)
const_names =
    (codes "Pi", codes "\\pi")
    ∷ (codes "Infinity", codes "\\infty")
    ∷ (codes "ComplexInfinity", codes "\\tilde{\\infty}")
    ∷ (codes "E", codes "e")
    ∷ (codes "I", codes "i")
    ∷ (codes "EulerGamma", codes "\\gamma")
    ∷ (codes "Degree", codes "{}^{\\circ}")
    ∷ (codes "GoldenRatio", codes "\\varphi")
    ∷ (codes "Catalan", codes "G")
    ∷ (codes "Glaisher", codes "A")
    ∷ (codes "Khinchin", codes "K")
    ∷ []

-- `constName`
unfoldable pub const_name : Text → Text
unfolding has_prefix trim_left trim_right
const_name name =
    if has_prefix name (codes "\"")
    then codes "\\text{" ++ (trim_right (trim_left name) ++ codes "}")
    else (elim (lookup name const_names) [ some tex ↦ tex | none ↦ mathrm name ])

abbrev pub func_names : List (Text × Text)
func_names =
    (codes "Sin", codes "\\sin")
    ∷ (codes "Cos", codes "\\cos")
    ∷ (codes "Tan", codes "\\tan")
    ∷ (codes "Cot", codes "\\cot")
    ∷ (codes "Sec", codes "\\sec")
    ∷ (codes "Csc", codes "\\csc")
    ∷ (codes "Sinh", codes "\\sinh")
    ∷ (codes "Cosh", codes "\\cosh")
    ∷ (codes "Tanh", codes "\\tanh")
    ∷ (codes "Coth", codes "\\coth")
    ∷ (codes "ArcSin", codes "\\arcsin")
    ∷ (codes "ArcCos", codes "\\arccos")
    ∷ (codes "ArcTan", codes "\\arctan")
    ∷ (codes "Log", codes "\\ln")
    ∷ (codes "Gamma", codes "\\Gamma")
    ∷ (codes "Sech", codes "\\operatorname{sech}")
    ∷ (codes "Csch", codes "\\operatorname{csch}")
    ∷ (codes "ArcCot", codes "\\operatorname{arccot}")
    ∷ (codes "ArcSinh", codes "\\operatorname{arcsinh}")
    ∷ (codes "ArcCosh", codes "\\operatorname{arccosh}")
    ∷ (codes "ArcTanh", codes "\\operatorname{arctanh}")
    ∷ (codes "Erf", codes "\\operatorname{erf}")
    ∷ (codes "Erfc", codes "\\operatorname{erfc}")
    ∷ (codes "Erfi", codes "\\operatorname{erfi}")
    ∷ (codes "Sign", codes "\\operatorname{sgn}")
    ∷ (codes "Sinc", codes "\\operatorname{sinc}")
    ∷ []

-- `funcName`
unfoldable pub func_name : Text → Option Text
func_name op = lookup op func_names

abbrev pub subscript_funcs : List (Text × Text)
subscript_funcs =
    (codes "BesselJ", codes "J")
    ∷ (codes "BesselY", codes "Y")
    ∷ (codes "BesselI", codes "I")
    ∷ (codes "BesselK", codes "K")
    ∷ (codes "LegendreP", codes "P")
    ∷ (codes "LegendreQ", codes "Q")
    ∷ (codes "HermiteH", codes "H")
    ∷ (codes "LaguerreL", codes "L")
    ∷ (codes "ChebyshevT", codes "T")
    ∷ (codes "ChebyshevU", codes "U")
    ∷ (codes "GegenbauerC", codes "C")
    ∷ []

-- `subscriptFunc`
unfoldable pub subscript_func : Text → Option Text
subscript_func op = lookup op subscript_funcs
