-- ===== src/Ingest/Kept.antt =====
-- The tables of the store during `cmdIngest` of cmd/mathsearch/main.go, wherever it stops.
use go_mathsearch.Base.{
  suc, List, [], ◌∷◌, ◌==◌, nat_eq, leb, Bool-cases, ◌≡◌, refl, subst, inl, inr,
}
use go_mathsearch.Base.Text.{Text, text_eq}
use go_mathsearch.Feature.Similarity.{document}
use go_mathsearch.Feature.Tokens.{tokens_from}
use go_mathsearch.Store.{Formula}
use go_mathsearch.Store.Canonical.{Canonical, Parsed, parsed, parse_error}
use go_mathsearch.Store.Database.{Db, Engine, IsFresh, Statement, effect}
use go_mathsearch.Store.Writes.{Outcome, done, failed, state, and_then, exec, add_formula}
use go_mathsearch.Store.Writes.Consistent.{exec-done, IsConsistent, add_formula-IsConsistent}
use go_mathsearch.Server.Edits.{formula_of}
use go_mathsearch.Ingest.Targets.{File}
use go_mathsearch.Ingest.{
  Side, sides_of_files, batch_size, Batch, opened, is_blank, flush, counted, ingest_side,
  ingest_sides, ingest_files,
}

state-and_then :
    {A : Type 0} (P : A → Type 0) (o : Outcome A) (f : A → Outcome A)
    → P (state o)
    → ((a : A) → P a → P (state (f a)))
    → P (state (and_then o f))
unfolding and_then
state-and_then P (done a) f h k = k a h
state-and_then P (failed a) f h k = h

exec-failed :
    (E : Engine) (st : Statement) (db same : Db E.Index) → exec E st db ≡ failed same → db ≡ same
unfolding exec
exec-failed E st db same h = elim (Bool-cases (E.allows st db)) [
  | inl allowed ↦ let impossible : done (effect E st db) ≡ failed same = rw allowed at h in cc
  | inr refusal ↦ let all : failed db ≡ failed same = rw refusal at h in cc
]

module _ (E : Engine) (K : Canonical) where
  -- Both views of the database are consistent.
  record IsKept (b : Batch E.Index) : Type 0 where
    committed : IsConsistent b.committed
    working : IsConsistent b.working

  flush-IsKept : (b : Batch E.Index) → IsKept b → IsKept (state (flush E K b))
  unfolding flush effect
  flush-IsKept b c = elim (Bool-cases (b.in_batch == 0)) [
    | inl nothing ↦ rw nothing c
    | inr something ↦ rw something (after_commit (exec E Statement.commit b.working) refl)
  ]
    where
      begun :
          (new : Db E.Index)
          → IsConsistent new
          → (o : Outcome (Db E.Index)) → exec E Statement.begin new ≡ o
          → IsKept (
              state (elim o as (λ _. Outcome (Batch E.Index)) [
                | failed same ↦ failed (record b { committed = new; working = new; in_batch = 0 })
                | done next ↦ done (record b { committed = new; working = next; in_batch = 0 })
              ]))
      begun new k (failed part) is = record { committed = k; working = k }
      begun new k (done next) is = record {
        committed = k;
        working = subst IsConsistent (exec-done E Statement.begin new next is) k;
      }

      after_commit :
          (o : Outcome (Db E.Index))
          → exec E Statement.commit b.working ≡ o
          → IsKept (
              state (elim o as (λ _. Outcome (Batch E.Index)) [
                | failed same ↦ failed (record b { working = b.committed })
                | done new ↦ elim (exec E Statement.begin new) [
                  | failed same ↦ failed (record b { committed = new; working = new; in_batch = 0 })
                  | done next ↦ done (record b { committed = new; working = next; in_batch = 0 })
                ]
              ]))
      after_commit (failed part) is = record { committed = c.committed; working = c.committed }
      after_commit (done new) is =
          begun new (subst IsConsistent (exec-done E Statement.commit b.working new is) c.working)
            (exec E Statement.begin new) refl

  counted-IsKept : (b : Batch E.Index) → IsKept b → IsKept (state (counted E K b))
  unfolding counted
  counted-IsKept b c =
      let more : Batch E.Index = record b { indexed = suc b.indexed; in_batch = suc b.in_batch } in
      let kept : IsKept more = record { committed = c.committed; working = c.working } in
      elim (Bool-cases (leb batch_size (suc b.in_batch))) [
        | inl now ↦ rw now (flush-IsKept more kept)
        | inr later ↦ rw later kept
      ]

  ingest_side-IsKept :
      (s : Side) (b : Batch E.Index) → IsFresh E → IsKept b → IsKept (state (ingest_side E K s b))
  unfolding ingest_side
  ingest_side-IsKept (e, side, mma) b fresh c = elim (Bool-cases (is_blank mma)) [
    | inl blank ↦ rw blank c
    | inr full ↦ rw full (read (K.parse mma))
  ]
    where
      added :
          (f : Formula) (features : Text) (o : Outcome (Db E.Index))
          → add_formula E f features b.working ≡ o
          → IsKept (
              state (elim o as (λ _. Outcome (Batch E.Index)) [
                | failed part ↦ failed (record b { working = b.committed })
                | done new ↦ counted E K (record b { working = new })
              ]))
      added f features (failed part) is = record { committed = c.committed; working = c.committed }
      added f features (done new) is =
          counted-IsKept (record b { working = new })
            (record {
              committed = c.committed;
              working = add_formula-IsConsistent E f features b.working new fresh c.working is;
            })

      read :
          (q : Parsed)
          → IsKept (
              state (elim q as (λ _. Outcome (Batch E.Index)) [
                | parse_error message ↦ done (record b { parse_fail = suc b.parse_fail })
                | parsed expr ↦
                    elim (add_formula E
                      (formula_of K e side mma expr)
                      (document (tokens_from (K.canonical expr)))
                      b.working) [
                        | failed part ↦ failed (record b { working = b.committed })
                        | done new ↦ counted E K (record b { working = new })
                      ]
              ]))
      read (parse_error message) = record { committed = c.committed; working = c.working }
      read (parsed expr) =
          added (formula_of K e side mma expr) (document (tokens_from (K.canonical expr)))
            (add_formula E (formula_of K e side mma expr)
              (document (tokens_from (K.canonical expr))) b.working)
            refl

  ingest_sides-IsKept :
      (ss : List Side) (b : Batch E.Index)
      → IsFresh E
      → IsKept b
      → IsKept (state (ingest_sides E K ss b))
  unfolding ingest_sides
  ingest_sides-IsKept [] b fresh c = c
  ingest_sides-IsKept (s ∷ ss) b fresh c =
      state-and_then IsKept (ingest_side E K s b) (ingest_sides E K ss)
        (ingest_side-IsKept s b fresh c) (λ a. ingest_sides-IsKept ss a fresh)

  -- If the tables are consistent before an ingest, and a new row id is one that no row has, the tables that
  -- the ingest has committed are consistent, also where it stops with an error: at a commit, at a new
  -- transaction, or at a formula.
  pub ingest_files-IsConsistent :
      (files : List File) (db : Db E.Index)
      → IsFresh E
      → IsConsistent db
      → IsConsistent (state (ingest_files E K files db)).committed
  unfolding ingest_files effect
  ingest_files-IsConsistent files db fresh c = go (exec E Statement.begin db) refl
    where
      go :
          (o : Outcome (Db E.Index))
          → exec E Statement.begin db ≡ o
          → IsConsistent
              (state (elim o as (λ _. Outcome (Batch E.Index)) [
                | failed same ↦ failed (opened same)
                | done new ↦
                    and_then (ingest_sides E K (sides_of_files files) (opened new)) (flush E K)
              ])).committed
      go (failed same) is = subst IsConsistent (exec-failed E Statement.begin db same is) c
      go (done new) is =
          let k : IsConsistent new = subst IsConsistent (exec-done E Statement.begin db new is) c in
          (state-and_then IsKept (ingest_sides E K (sides_of_files files) (opened new)) (flush E K)
            (ingest_sides-IsKept (sides_of_files files) (opened new) fresh
              (record { committed = k; working = k }))
            flush-IsKept).committed
