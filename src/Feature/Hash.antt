-- ===== src/Feature/Hash.antt =====
-- The hashes of feature/feature.go: `fingerprint`, `hashToken`, and the standard library's UTF-8
-- encoding, FNV-1a and `strconv.FormatUint` that they are made of.
use go_mathsearch.Base.{
  ℕ, zero, suc, ◌+◌, ◌-◌, ◌*◌, ◌/◌, ◌%◌, ◌^◌, bit_xor, List, [], ◌∷◌, ◌++◌, ltb, if◌then◌else◌,
}
use go_mathsearch.Base.Text.{Text}

-- The bytes of one code point.
unfoldable pub encode_rune : ℕ → List ℕ
encode_rune c =
    if ltb c 0x80
    then c ∷ []
    else if ltb c 0x800
    then (0xc0 + c / 64) ∷ (0x80 + c % 64) ∷ []
    else if ltb c 0x10000
    then (0xe0 + c / 4096) ∷ (0x80 + c / 64 % 64) ∷ (0x80 + c % 64) ∷ []
    else (0xf0 + c / 262144) ∷ (0x80 + c / 4096 % 64) ∷ (0x80 + c / 64 % 64) ∷ (0x80 + c % 64) ∷ []

-- `[]byte(s)`
unfoldable pub encode : Text → List ℕ
unfolding encode_rune
encode [] = []
encode (c ∷ s) = encode_rune c ++ encode s

abbrev pub fnv_offset : ℕ
fnv_offset = 14695981039346656037

abbrev pub fnv_prime : ℕ
fnv_prime = 1099511628211

-- `h.Write`, a byte at a time, on a 64-bit word.
unfoldable pub fnv_write : ℕ → List ℕ → ℕ
fnv_write h [] = h
fnv_write h (b ∷ bs) = fnv_write (bit_xor h b * fnv_prime % 2 ^ 64) bs

-- `fnv.New64a()`, `h.Write([]byte(s))`, `h.Sum64()`
unfoldable pub fnv1a : Text → ℕ
unfolding fnv_write encode
fnv1a s = fnv_write fnv_offset (encode s)

-- The digits 0-9 and a-z.
unfoldable pub digit36 : ℕ → ℕ
digit36 d = if ltb d 10 then b'0' + d else b'a' + (d - 10)

-- `strconv.FormatUint(n, 36)` of at most so many digits, in front of those already written.
unfoldable pub format36 : ℕ → ℕ → Text → Text
unfolding digit36
format36 zero n out = out
format36 (suc f) n out =
    let longer = format36 f (n / 36) (digit36 (n % 36) ∷ out) in
    if ltb n 36 then digit36 n ∷ out else longer

-- Thirteen digits hold a 64-bit word, since 2 ^ 64 < 36 ^ 13.
unfoldable pub format_uint36 : ℕ → Text
unfolding format36
format_uint36 n = format36 13 n []

unfoldable pub fingerprint : Text → Text
unfolding fnv1a format_uint36
fingerprint raw = format_uint36 (fnv1a raw)

unfoldable pub hash_token : Text → Text
unfolding fnv1a format_uint36
hash_token t = b't' ∷ format_uint36 (fnv1a t)
