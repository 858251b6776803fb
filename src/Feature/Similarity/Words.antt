-- ===== src/Feature/Similarity/Words.antt =====
-- `Document` of feature/feature.go: each token becomes one word, and distinct hashes distinct words.
use native.Mathlib.Nat.{pow-suc, mod-lt}
use go_mathsearch.Base.{
  ℕ, zero, suc, ◌+◌, ◌-◌, ◌*◌, ◌/◌, ◌%◌, ◌^◌, ◌<◌, bit_xor, ◌≡◌, ◌↔◌, refl, sym, ap, ◌∙◌, inl, inr,
  Bool, true, false, ◌&&◌, ◌||◌, List, [], ◌∷◌, ◌++◌, append_assoc, append-nil, map, All, arith,
  ◌==◌, nat_eq, ltb, leb, if◌then◌else◌, Bool-cases,
}
use go_mathsearch.Base.Text.{Text, text_eq, text_beq}
use go_mathsearch.Feature.Hash.{
  fnv_offset, encode, fnv1a, fnv_write, fnv_prime, digit36, format36, format_uint36, hash_token,
}
use go_mathsearch.Feature.Reader.{tail_of}
use go_mathsearch.Feature.Similarity.{write_document, document}

-- A letter or a digit, as the full-text tokenizer keeps it.
abbrev pub is_alphanumeric : ℕ → Bool
is_alphanumeric c = leb b'0' c && leb c b'9' || leb b'a' c && leb c b'z'

abbrev pub IsWord : Text → Type 0
IsWord = All (λ c. is_alphanumeric c ≡ true)

digit36_alphanumeric : (d : ℕ) → d < 36 → is_alphanumeric (digit36 d) ≡ true
unfolding digit36
digit36_alphanumeric d h = ground arith

format36-IsWord : (f n : ℕ) (out : Text) → IsWord out → IsWord (format36 f n out)
unfolding format36
format36-IsWord zero n out w = w
format36-IsWord (suc f) n out w = elim (Bool-cases (ltb n 36)) [
  | inl small ↦ rw small (digit36_alphanumeric n (ground arith), w)
  | inr large ↦ rw large (
      format36-IsWord f (n / 36) (digit36 (n % 36) ∷ out)
        (digit36_alphanumeric (n % 36) (omega arith), w))
]

-- The number that a text of such digits stands for.
abbrev digit_value : ℕ → ℕ
digit_value c = if ltb c b':' then c - b'0' else c - b'a' + 10

value36 : ℕ → Text → ℕ
value36 acc [] = acc
value36 acc (c ∷ cs) = value36 (acc * 36 + digit_value c) cs

digit_value-digit36 : (d : ℕ) → d < 36 → digit_value (digit36 d) ≡ d
unfolding digit36
digit_value-digit36 d h = ground arith

quotient_below : (f n : ℕ) → n < 36 ^ suc f → n / 36 < 36 ^ f
quotient_below f n h = omega (arith, pow-suc 36 f)

value36-format36 :
    (f n : ℕ) (out : Text) → n < 36 ^ f → value36 0 (format36 f n out) ≡ value36 n out
unfolding format36 value36
value36-format36 zero n out h =
    let none : n ≡ 0 = omega (arith, h) in ap (λ m. value36 m out) (sym none)
value36-format36 (suc f) n out h = elim (Bool-cases (ltb n 36)) [
  | inl small ↦
      rw small (ap (λ m. value36 m out) (omega (arith, digit_value-digit36 n (ground arith))))
  | inr large ↦ rw large (
      value36-format36 f (n / 36) (digit36 (n % 36) ∷ out) (quotient_below f n h)
      ∙ ap (λ d. value36 (n / 36 * 36 + d) out) (digit_value-digit36 (n % 36) (omega arith))
      ∙ ap (λ m. value36 m out) (omega arith))
]

-- A word is below 2 ^ 64, which thirteen digits reach.
fnv_write-lt : (h : ℕ) (bs : List ℕ) → h < 2 ^ 64 → fnv_write h bs < 2 ^ 64
unfolding fnv_write
fnv_write-lt h [] k = k
fnv_write-lt h (b ∷ bs) k =
    fnv_write-lt (bit_xor h b * fnv_prime % 2 ^ 64) bs (mod-lt _ (omega arith))

pub fnv1a-lt : (s : Text) → fnv1a s < 2 ^ 64
unfolding fnv1a
fnv1a-lt s = fnv_write-lt fnv_offset (encode s) (omega arith)

value36-format_uint36 : (n : ℕ) → n < 2 ^ 64 → value36 0 (format_uint36 n) ≡ n
unfolding format_uint36 value36
value36-format_uint36 n h = value36-format36 13 n [] (omega arith)

-- Two tokens have one hashed word exactly when their 64-bit hashes agree.
pub hash_token-eq_iff : (s t : Text) → (hash_token s ≡ hash_token t) ↔ (fnv1a s ≡ fnv1a t)
unfolding hash_token
hash_token-eq_iff s t = (
  λ e.
      sym (value36-format_uint36 (fnv1a s) (fnv1a-lt s))
      ∙ ap (λ u. value36 0 (tail_of u)) e
      ∙ value36-format_uint36 (fnv1a t) (fnv1a-lt t),
  λ e. ap (λ n. b't' ∷ format_uint36 n) e,
)

-- The words of a text between spaces, behind what has been read of the present word.
words_from : Text → Text → List Text
words_from word [] = if word == [] then [] else word ∷ []
words_from word (c ∷ cs) =
    let next = words_from [] cs in
    let longer = words_from (word ++ c ∷ []) cs in
    if c == b' ' then (if word == [] then next else word ∷ next) else longer

unfoldable pub words : Text → List Text
unfolding words_from
words s = words_from [] s

IsWord-head : (c : ℕ) → is_alphanumeric c ≡ true → (c == b' ') ≡ false
IsWord-head c h = ground arith

-- A word is read whole.
words_from-append :
    (word w rest : Text) → IsWord w → words_from word (w ++ rest) ≡ words_from (word ++ w) rest
unfolding words_from
words_from-append word [] rest h = rw append-nil
words_from-append word (c ∷ w) rest h = rw (IsWord-head c h.0) (
    words_from-append (word ++ c ∷ []) w rest h.1
    ∙ ap (λ u. words_from u rest) (append_assoc word (c ∷ []) w))

hash_token-IsWord : (t : Text) → IsWord (hash_token t)
unfolding hash_token format_uint36
hash_token-IsWord t = (refl, format36-IsWord 13 (fnv1a t) [] tt)

-- The text that the loop still writes.
abbrev document_tail : List Text → Text
document_tail [] = []
document_tail (t ∷ ts) = b' ' ∷ (hash_token t ++ document_tail ts)

write_document-append :
    (b : Text) (ts : List Text) → write_document b true ts ≡ b ++ document_tail ts
unfolding write_document
write_document-append b [] = sym (append-nil b)
write_document-append b (t ∷ ts) =
    write_document-append ((b ++ b' ' ∷ []) ++ hash_token t) ts ∙ simp append_assoc

words-document_tail :
    (t : Text) (ts : List Text)
    → words_from (hash_token t) (document_tail ts) ≡ hash_token t ∷ map hash_token ts
unfolding hash_token words_from text_beq
words-document_tail t [] = refl
words-document_tail t (u ∷ ts) = ap (◌∷◌ (hash_token t)) (
    words_from-append [] (hash_token u) (document_tail ts) (hash_token-IsWord u)
    ∙ words-document_tail u ts)

-- The words of a document are the hashed tokens, in order and as often.
pub words-document : (ts : List Text) → words (document ts) ≡ map hash_token ts
unfolding words document text_beq
words-document [] = refl
words-document (t ∷ ts) =
    ap (words_from []) (write_document-append (hash_token t) ts)
    ∙ words_from-append [] (hash_token t) (document_tail ts) (hash_token-IsWord t)
    ∙ words-document_tail t ts
