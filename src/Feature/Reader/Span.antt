-- ===== src/Feature/Reader/Span.antt =====
-- What the scanning loops of the reader in feature/feature.go consume.
use go_mathsearch.Base.{
  ℕ, ◌+◌, ◌-◌, ◌≡◌, refl, sym, ap, ◌∙◌, Bool, true, false, inl, inr, [], ◌∷◌, ◌++◌, append_assoc,
  All, Bool-cases, length, length-append, take-append, arith,
}
use go_mathsearch.Base.Text.{Text}
use go_mathsearch.Feature.Reader.{Reader, advance_while, advance_over, slice}

-- `r'` is `r` after the runes `taken`.
pub record Moves (r : Reader) (taken : Text) (r' : Reader) : Type 0 where
  pub splits : r.rest ≡ taken ++ r'.rest
  pub moved : r'.pos ≡ r.pos + length taken

pub Moves-append :
    {r r' r'' : Reader} (s t : Text) → Moves r s r' → Moves r' t r'' → Moves r (s ++ t) r''
Moves-append {r} {r'} {r''} s t m n = record {
  splits = m.splits ∙ ap (λ u. s ++ u) n.splits ∙ sym (append_assoc s t r''.rest);
  moved = omega (arith, m.moved, n.moved, length-append s t);
}

-- `string(r.s[start:r.pos])` is what was consumed.
pub slice-Moves : {r r' : Reader} (t : Text) → Moves r t r' → slice r r' ≡ t
slice-Moves {r} {r'} t m =
    rw m.splits
      (let e : r'.pos - r.pos ≡ length t = omega (arith, m.moved) in rw e (take-append t r'.rest))

abbrev pub Stops : (ℕ → Bool) → Text → Type 0
Stops test [] = Unit
Stops test (c ∷ cs) = test c ≡ false

-- A loop consumes the longest run of runes that pass its test.
pub record Spans (test : ℕ → Bool) (r r' : Reader) : Type 0 where
  pub taken : Text
  pub moves : Moves r taken r'
  pub passed : All (λ c. test c ≡ true) taken
  pub stops : Stops test r'.rest

advance_over-Spans :
    (test : ℕ → Bool) (p : ℕ) (s : Text)
    → Spans test (record { pos = p; rest = s }) (advance_over test p s)
unfolding advance_over
advance_over-Spans test p [] = record {
  taken = [];
  moves = record { splits = refl; moved = omega arith };
  passed = tt;
  stops = tt;
}
advance_over-Spans test p (c ∷ cs) = elim (Bool-cases (test c)) [
  | inl e ↦ rw e (
      let later = advance_over-Spans test (p + 1) cs in
      record {
        taken = c ∷ later.taken;
        moves = record {
          splits = ap (◌∷◌ c) later.moves.splits;
          moved = omega (arith, later.moves.moved);
        };
        passed = (e, later.passed);
        stops = later.stops;
      })
  | inr e ↦ rw e (record {
    taken = [];
    moves = record { splits = refl; moved = omega arith };
    passed = tt;
    stops = e;
  })
]

pub advance_while-Spans : (test : ℕ → Bool) (r : Reader) → Spans test r (advance_while test r)
unfolding advance_while
advance_while-Spans test r = advance_over-Spans test r.pos r.rest

-- The loop over a text that is known to split there.
pub advance_while_lem :
    (test : ℕ → Bool) (p : ℕ) (s rest : Text)
    → All (λ c. test c ≡ true) s
    → Stops test rest
    → advance_while test (record { pos = p; rest = s ++ rest })
      ≡ record { pos = p + length s; rest = rest }
unfolding advance_while advance_over
advance_while_lem test p [] [] a h = ground arith
advance_while_lem test p [] (c ∷ cs) a h = ground arith
advance_while_lem test p (x ∷ xs) rest a h =
    ground (arith, advance_while_lem test (p + 1) xs rest a.1 h)
