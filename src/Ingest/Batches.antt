-- ===== src/Ingest/Batches.antt =====
-- The batches of `cmdIngest` of cmd/mathsearch/main.go, against an ingest without batches.
use go_mathsearch.Base.{
  ℕ, suc, ◌+◌, List, [], ◌∷◌, nat_eq, if◌then◌else◌, Bool-cases, ◌≡◌, refl, sym, ap, subst, ◌∙◌,
  inl, inr, arith,
}
use go_mathsearch.Base.Text.{text_eq}
use go_mathsearch.Feature.Similarity.{document}
use go_mathsearch.Feature.Tokens.{tokens_from}
use go_mathsearch.Store.Canonical.{Canonical, Parsed, parsed, parse_error}
use go_mathsearch.Store.Database.{Db, Engine, Statement, effect}
use go_mathsearch.Store.Writes.{Outcome, done, failed, and_then, exec, add_formula}
use go_mathsearch.Store.Writes.Consistent.{exec-done}
use go_mathsearch.Server.Edits.{formula_of}
use go_mathsearch.Ingest.Targets.{File}
use go_mathsearch.Ingest.{
  Side, sides_of_files, Batch, opened, is_blank, flush, counted, ingest_side, ingest_sides,
  ingest_files,
}
use go_mathsearch.Ingest.Flushes.{and_then_inv, IsSettled, flush-IsFlushed, counted-done}

-- How many sides have something in them.
unfoldable pub filled : List Side → ℕ
filled [] = 0
filled ((e, side, mma) ∷ ss) = if is_blank mma then filled ss else suc (filled ss)

module _ (E : Engine) (K : Canonical) where
  -- The reference: each formula that parses is added to one database, in order.
  unfoldable pub store_side : Side → Db E.Index → Outcome (Db E.Index)
  store_side (e, side, mma) db = if is_blank mma then done db else (elim (K.parse mma) [
    | parse_error message ↦ done db
    | parsed expr ↦
        add_formula E (formula_of K e side mma expr) (document (tokens_from (K.canonical expr))) db
  ])

  unfoldable pub store_sides : List Side → Db E.Index → Outcome (Db E.Index)
  unfolding store_side
  store_sides [] db = done db
  store_sides (s ∷ ss) db = and_then (store_side s db) (store_sides ss)

  -- One turn without an error: the formula is in the transaction, and the side is counted if it has
  -- something in it.
  record IsTurn (s : Side) (b b' : Batch E.Index) : Type 0 where
    stored : store_side s b.working ≡ done b'.working
    settled : IsSettled E K b'
    counts : b'.indexed + b'.parse_fail ≡ b.indexed + b.parse_fail + (if is_blank s.2 then 0 else 1)

  ingest_side-IsTurn :
      (s : Side) (b b' : Batch E.Index)
      → IsSettled E K b
      → ingest_side E K s b ≡ done b'
      → IsTurn s b b'
  unfolding ingest_side store_side
  ingest_side-IsTurn (e, side, mma) b b' t h = elim (Bool-cases (is_blank mma)) [
    | inl blank ↦
        let kept : done b ≡ done b' = rw blank at h in
        let same : b ≡ b' = cc in
        subst (IsTurn (e, side, mma) b) same
          (record { stored = rw blank refl; settled = t; counts = rw blank (omega arith) })
    | inr full ↦
        let turn = read (K.parse mma) (rw full at h) in
        record { stored = rw full turn.0; settled = turn.1; counts = rw full turn.2 }
  ]
    where
      Turn : Outcome (Db E.Index) → Type 0
      Turn o =
          (o ≡ done b'.working)
          × IsSettled E K b'
          × (b'.indexed + b'.parse_fail ≡ b.indexed + b.parse_fail + 1)

      added :
          (o : Outcome (Db E.Index))
          → elim o [
            | failed part ↦ failed (record b { working = b.committed })
            | done new ↦ counted E K (record b { working = new })
          ]
            ≡ done b'
          → Turn o
      added (failed part) k = cc
      added (done new) k =
          let more = counted-done E K (record b { working = new }) b' t.not_full k in
          (ap done (sym more.0), more.1, omega (arith, more.2))

      unread : done (record b { parse_fail = suc b.parse_fail }) ≡ done b' → Turn (done b.working)
      unread k =
          let same : record b { parse_fail = suc b.parse_fail } ≡ b' = cc in
          (
            ap (λ (c : Batch E.Index). done c.working) same,
            subst (IsSettled E K) same (record { settled = t.settled; not_full = t.not_full }),
            subst (λ (c : Batch E.Index). c.indexed + c.parse_fail ≡ b.indexed + b.parse_fail + 1)
                same (omega arith),
          )

      read :
          (q : Parsed)
          → elim q [
            | parse_error message ↦ done (record b { parse_fail = suc b.parse_fail })
            | parsed expr ↦
                elim (add_formula E
                  (formula_of K e side mma expr)
                  (document (tokens_from (K.canonical expr)))
                  b.working) [
                    | failed part ↦ failed (record b { working = b.committed })
                    | done new ↦ counted E K (record b { working = new })
                  ]
          ]
            ≡ done b'
          → Turn (elim q [
            | parse_error message ↦ done b.working
            | parsed expr ↦
                add_formula E
                  (formula_of K e side mma expr)
                  (document (tokens_from (K.canonical expr)))
                  b.working
          ])
      read (parse_error message) k = unread k
      read (parsed expr) k =
          added
            (add_formula E (formula_of K e side mma expr)
              (document (tokens_from (K.canonical expr))) b.working)
            k

  ingest_sides-done :
      (ss : List Side) (b b' : Batch E.Index)
      → IsSettled E K b
      → ingest_sides E K ss b ≡ done b'
      → (store_sides ss b.working ≡ done b'.working)
        × IsSettled E K b'
        × (b'.indexed + b'.parse_fail ≡ b.indexed + b.parse_fail + filled ss)
  unfolding ingest_sides store_sides filled and_then
  ingest_sides-done [] b b' t h =
      let same : b ≡ b' = cc in
      (
        ap (λ (c : Batch E.Index). done c.working) same,
        subst (IsSettled E K) same t,
        subst (λ (c : Batch E.Index). c.indexed + c.parse_fail ≡ b.indexed + b.parse_fail + 0) same
            (omega arith),
      )
  ingest_sides-done (s ∷ ss) b b' t h =
      let (c, first, others) = and_then_inv (ingest_side E K s b) (ingest_sides E K ss) b' h in
      let turn = ingest_side-IsTurn s b c t first in
      let rest = ingest_sides-done ss c b' turn.settled others in
      (rw turn.stored rest.0, rest.1, ground (arith, rest.2, turn.counts))

  -- An ingest without an error commits exactly what storing its formulas one by one, in their order and
  -- with no batches, leaves; nothing is left uncommitted; and each side of the files with something in it is
  -- counted once, as indexed or as a parse failure.
  pub ingest_files-done :
      (files : List File) (db : Db E.Index) (b : Batch E.Index)
      → ingest_files E K files db ≡ done b
      → (store_sides (sides_of_files files) db ≡ done b.committed)
        × (b.working ≡ b.committed)
        × (b.in_batch ≡ 0)
        × (b.indexed + b.parse_fail ≡ filled (sides_of_files files))
  unfolding ingest_files effect
  ingest_files-done files db b h = go (exec E Statement.begin db) refl h
    where
      go :
          (o : Outcome (Db E.Index))
          → exec E Statement.begin db ≡ o
          → elim o [
            | failed same ↦ failed (opened same)
            | done new ↦ and_then (ingest_sides E K (sides_of_files files) (opened new)) (flush E K)
          ]
            ≡ done b
          → (store_sides (sides_of_files files) db ≡ done b.committed)
            × (b.working ≡ b.committed)
            × (b.in_batch ≡ 0)
            × (b.indexed + b.parse_fail ≡ filled (sides_of_files files))
      go (failed same) is k = cc
      go (done new) is k =
          let (c, loop, last) =
            and_then_inv (ingest_sides E K (sides_of_files files) (opened new)) (flush E K) b k in
          let all =
            ingest_sides-done (sides_of_files files) (opened new) c
              (record { settled = inl refl; not_full = omega arith }) loop in
          let f = flush-IsFlushed E K c b last all.1.settled in
          (
            ap (store_sides (sides_of_files files)) (exec-done E Statement.begin db new is)
                ∙ all.0
                ∙ ap done (sym f.committed),
            f.working ∙ sym f.committed,
            f.empty,
            omega (arith, all.2, f.counts),
          )
