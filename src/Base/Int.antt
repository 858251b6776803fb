-- ===== src/Base/Int.antt =====
-- Go's signed integers, and their decimal form.
use Prim.Native.Nat.{ℕ, zero, suc, ◌+◌, ◌-◌, ◌*◌, ◌/◌, ◌%◌}
use mathlib.Core.Bool.{Bool, true, false}
use mathlib.Core.List.{[], ◌∷◌}
use go_mathsearch.Base.Tests.{ltb, nat_beq, if◌then◌else◌}
use go_mathsearch.Base.Text.{Text}

-- `negsuc n` is - (n + 1).
pub data ℤ : Type 0 where
  pos : ℕ → ℤ
  negsuc : ℕ → ℤ

abbrev pub is_negative : ℤ → Bool
is_negative (pos n) = false
is_negative (negsuc n) = true

abbrev pub int_beq : ℤ → ℤ → Bool
int_beq (pos m) (pos n) = nat_beq m n
int_beq (negsuc m) (negsuc n) = nat_beq m n
int_beq _ _ = false

abbrev pub negate : ℤ → ℤ
negate (pos zero) = pos zero
negate (pos (suc n)) = negsuc n
negate (negsuc n) = pos (suc n)

-- `n <= 0`
abbrev pub is_positive : ℤ → Bool
is_positive (pos n) = ltb 0 n
is_positive (negsuc n) = false

-- `m < n`
abbrev pub int_ltb : ℤ → ℤ → Bool
int_ltb (pos m) (pos n) = ltb m n
int_ltb (pos m) (negsuc n) = false
int_ltb (negsuc m) (pos n) = true
int_ltb (negsuc m) (negsuc n) = ltb n m

-- The product with a natural number.
abbrev pub times_nat : ℤ → ℕ → ℤ
times_nat (pos m) k = pos (m * k)
times_nat (negsuc m) zero = pos zero
times_nat (negsuc m) (suc k) = negsuc (m * suc k + k)

-- The digits of a number of at most so many, in front of those already written.
unfoldable pub digits : ℕ → ℕ → Text → Text
digits zero n out = out
digits (suc f) n out =
    let longer = digits f (n / 10) ((b'0' + n % 10) ∷ out) in
    if ltb n 10 then (b'0' + n) ∷ out else longer

-- A number is longer than its decimal form.
unfoldable pub show_nat : ℕ → Text
unfolding digits
show_nat n = digits (suc n) n []

-- `n.String()`
unfoldable pub show_int : ℤ → Text
unfolding show_nat
show_int (pos n) = show_nat n
show_int (negsuc n) = b'-' ∷ show_nat (suc n)

-- A 64-bit word as a signed integer.
abbrev pub of_word : ℕ → ℤ
of_word n = if ltb n 9223372036854775808 then pos n else negsuc (18446744073709551615 - n)

-- The wrap-around of `int` and `int64`, of 64 bits.
unfoldable pub wrap64 : ℤ → ℤ
wrap64 (pos n) = of_word (n % 18446744073709551616)
wrap64 (negsuc n) = of_word (18446744073709551615 - n % 18446744073709551616)

-- `Time.Truncate`, of a time in nanoseconds: the last multiple of `d` that is not after it.
unfoldable pub truncate : ℕ → ℤ → ℤ
truncate d (pos n) = pos (n - n % d)
truncate d (negsuc n) = negsuc (n - n % d + (d - 1))

-- A number of nanoseconds behind a time.
unfoldable pub later : ℕ → ℤ → ℤ
later t (pos n) = pos (t + n)
later t (negsuc n) = if ltb n t then pos (t - (n + 1)) else negsuc (n - t)
