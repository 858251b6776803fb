-- ===== src/Ingest/Flushes.antt =====
-- A flush of `cmdIngest` of cmd/mathsearch/main.go, and the count of a formula.
use go_mathsearch.Base.{
  suc, ◌+◌, ◌<◌, false, ◌==◌, ==_iff, nat_eq, leb, Bool-cases, ◌≡◌, ◌⊎◌, refl, sym, subst, ◌∙◌, inl,
  inr, arith,
}
use go_mathsearch.Base.Text.{text_eq}
use go_mathsearch.Store.Canonical.{Canonical}
use go_mathsearch.Store.Database.{Db, Engine, Statement, effect}
use go_mathsearch.Store.Writes.{Outcome, done, failed, and_then, exec}
use go_mathsearch.Store.Writes.Consistent.{exec-done}
use go_mathsearch.Ingest.{batch_size, Batch, flush, counted}

-- What a chain of two without an error went through.
pub and_then_inv :
    {A : Type 0} (o : Outcome A) (f : A → Outcome A) (b : A)
    → and_then o f ≡ done b
    → (a : A) × (o ≡ done a) × (f a ≡ done b)
unfolding and_then
and_then_inv (done a) f b h = (a, refl, h)
and_then_inv (failed a) f b h = cc

module _ (E : Engine) (K : Canonical) where
  -- What is committed is all there is, or the batch is not empty; and the batch is not full.
  pub record IsSettled (b : Batch E.Index) : Type 0 where
    pub settled : (b.committed ≡ b.working) ⊎ ((b.in_batch == 0) ≡ false)
    pub not_full : b.in_batch < batch_size

  -- What a flush without error does.
  pub record IsFlushed (b b' : Batch E.Index) : Type 0 where
    pub committed : b'.committed ≡ b.working
    pub working : b'.working ≡ b.working
    pub empty : b'.in_batch ≡ 0
    pub counts : b'.indexed + b'.parse_fail ≡ b.indexed + b.parse_fail

  -- A batch that has become what it is now.
  flushed :
      (b : Batch E.Index) (new next : Db E.Index)
      → b.working ≡ new
      → new ≡ next
      → IsFlushed b (record b { committed = new; working = next; in_batch = 0 })
  flushed b new next h k = record {
    committed = sym h;
    working = sym (h ∙ k);
    empty = refl;
    counts = refl;
  }

  pub flush-IsFlushed :
      (b b' : Batch E.Index)
      → flush E K b ≡ done b'
      → (b.committed ≡ b.working) ⊎ ((b.in_batch == 0) ≡ false)
      → IsFlushed b b'
  unfolding flush effect
  flush-IsFlushed b b' h s = elim (Bool-cases (b.in_batch == 0)) [
    | inl nothing ↦
        let kept : done b ≡ done b' = rw nothing at h in
        let same : b ≡ b' = cc in
        let settled : b.committed ≡ b.working = elim s [
          | inl all ↦ all
          | inr more ↦ ground (arith, more, nothing)
        ] in
        subst (IsFlushed b) same (record {
          committed = settled;
          working = refl;
          empty = (==_iff b.in_batch 0).0 nothing;
          counts = refl;
        })
    | inr something ↦ after_commit (exec E Statement.commit b.working) refl (rw something at h)
  ]
    where
      begun :
          (new : Db E.Index)
          → b.working ≡ new
          → (o : Outcome (Db E.Index)) → exec E Statement.begin new ≡ o
          → elim o [
            | failed same ↦ failed (record b { committed = new; working = new; in_batch = 0 })
            | done next ↦ done (record b { committed = new; working = next; in_batch = 0 })
          ]
            ≡ done b'
          → IsFlushed b b'
      begun new same (failed part) is k = cc
      begun new same (done next) is k =
          let all : record b { committed = new; working = next; in_batch = 0 } ≡ b' = cc in
          subst (IsFlushed b) all
            (flushed b new next same (exec-done E Statement.begin new next is))

      after_commit :
          (o : Outcome (Db E.Index))
          → exec E Statement.commit b.working ≡ o
          → elim o [
            | failed same ↦ failed (record b { working = b.committed })
            | done new ↦ elim (exec E Statement.begin new) [
              | failed same ↦ failed (record b { committed = new; working = new; in_batch = 0 })
              | done next ↦ done (record b { committed = new; working = next; in_batch = 0 })
            ]
          ]
            ≡ done b'
          → IsFlushed b b'
      after_commit (failed part) is k = cc
      after_commit (done new) is k =
          begun new (exec-done E Statement.commit b.working new is) (exec E Statement.begin new)
            refl k

  pub counted-done :
      (b b' : Batch E.Index)
      → b.in_batch < batch_size
      → counted E K b ≡ done b'
      → (b'.working ≡ b.working)
        × IsSettled b'
        × (b'.indexed + b'.parse_fail ≡ suc (b.indexed + b.parse_fail))
  unfolding counted
  counted-done b b' full h =
      let more : Batch E.Index = record b { indexed = suc b.indexed; in_batch = suc b.in_batch } in
      elim (Bool-cases (leb batch_size (suc b.in_batch))) [
        | inl now ↦
            let f = flush-IsFlushed more b' (rw now at h) (inr (ground (arith))) in
            (
              f.working,
              record {
                settled = inl (f.committed ∙ sym f.working);
                not_full = omega (arith, f.empty);
              },
              omega (arith, f.counts),
            )
        | inr later ↦
            let kept : done more ≡ done b' = rw later at h in
            let same : more ≡ b' = cc in
            subst
              (λ (c : Batch E.Index).
                (c.working ≡ b.working)
                × IsSettled c
                × (c.indexed + c.parse_fail ≡ suc (b.indexed + b.parse_fail)))
              same
              (
                refl,
                record { settled = inr (ground arith); not_full = ground (arith, later) },
                omega arith,
              )
      ]
