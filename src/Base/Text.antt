-- ===== src/Base/Text.antt =====
-- Go strings. A text is the list of the code points of a valid UTF-8 string, so indexing it at an
-- ASCII character and testing its first byte are tests on its first code point.
use Prim.Native.Char.{code}
use Prim.Native.Nat.{ℕ}
use Prim.Native.String.{String}
use mathlib.Core.Path.{◌≡◌, refl}
use mathlib.Core.Logic.{◌↔◌}
use mathlib.Core.Bool.{Bool, true, false, ◌&&◌}
use mathlib.Core.Option.{Option, none, some}
use mathlib.Core.List.{List, [], ◌∷◌}
use native.Mathlib.Omega.{arith}
use go_mathsearch.Base.Tests.{nat_beq, if◌then◌else◌}
use go_mathsearch.Base.Equality.{Eq}

abbrev pub Text : Type 0
Text = List ℕ

-- The code points of a literal.
abbrev pub codes : String → Text
codes String.[] = []
codes (String.◌∷◌ c s) = code c ∷ codes s

unfoldable pub text_beq : Text → Text → Bool
text_beq [] [] = true
text_beq (x ∷ xs) (y ∷ ys) = nat_beq x y && text_beq xs ys
text_beq _ _ = false

pub text_beq_iff : (s t : Text) → (text_beq s t ≡ true) ↔ (s ≡ t)
unfolding text_beq
text_beq_iff (x ∷ xs) (y ∷ ys) = ground (arith, text_beq_iff xs ys)
text_beq_iff _ _ = ground arith

instance abbrev pub text_eq : Eq Text
text_eq = record { beq = text_beq; beq_iff = text_beq_iff }

-- A Go map literal from strings, read by `v, ok := m[k]`.
unfoldable pub lookup {ℓ} : {V : Type ℓ} → Text → List (Text × V) → Option V
lookup k [] = none
lookup k ((j, v) ∷ m) = if text_beq j k then some v else lookup k m

-- A row put into a table with a primary key, in the place of the row with the same key.
unfoldable pub put {ℓ} : {V : Type ℓ} → Text → V → List (Text × V) → List (Text × V)
put k v [] = (k, v) ∷ []
put k v ((j, w) ∷ m) = let rest = put k v m in if text_beq j k then (j, v) ∷ m else (j, w) ∷ rest

pub lookup-put {ℓ} :
    {V : Type ℓ} (i k : Text) (v : V) (m : List (Text × V))
    → lookup i (put k v m) ≡ (if text_beq k i then some v else lookup i m)
unfolding lookup put
lookup-put i k v [] = refl
lookup-put i k v ((j, w) ∷ m) =
    ground (arith, lookup-put i k v m, text_beq_iff j k, text_beq_iff j i, text_beq_iff k i)
