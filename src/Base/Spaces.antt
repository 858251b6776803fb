-- ===== src/Base/Spaces.antt =====
-- `strings.TrimSpace`.
use Prim.Native.Nat.{ℕ}
use mathlib.Core.Bool.{Bool, ◌||◌, ◌&&◌}
use mathlib.Core.List.{[], ◌∷◌}
use go_mathsearch.Base.Tests.{leb, nat_beq, if◌then◌else◌}
use go_mathsearch.Base.Text.{Text}

-- `unicode.IsSpace`
abbrev pub is_white : ℕ → Bool
is_white c =
    leb 9 c && leb c 13
    || (nat_beq c 32
        || (nat_beq c 133
            || (nat_beq c 160
                || (nat_beq c 5760
                    || (leb 8192 c && leb c 8202
                        || (nat_beq c 8232
                            || (nat_beq c 8233
                                || (nat_beq c 8239 || (nat_beq c 8287 || nat_beq c 12288)))))))))

unfoldable pub trim_front : Text → Text
trim_front [] = []
trim_front (c ∷ s) = let rest = trim_front s in if is_white c then rest else c ∷ s

-- A space is dropped where nothing but spaces follows.
unfoldable pub trim_back : Text → Text
trim_back [] = []
trim_back (c ∷ s) = keep c (trim_back s)
  where
    keep : ℕ → Text → Text
    keep c [] = if is_white c then [] else c ∷ []
    keep c (d ∷ t) = c ∷ d ∷ t

unfoldable pub trim_space : Text → Text
unfolding trim_front trim_back
trim_space s = trim_back (trim_front s)
