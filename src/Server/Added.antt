-- ===== src/Server/Added.antt =====
-- The formulas that `handleAddFormula` of cmd/mathsearch/serve.go stores.
use go_mathsearch.Base.{
  ℕ, suc, true, false, List, [], ◌∷◌, some, ◌==◌, ==_refl, nat_eq, pair_eq, Bool-cases, All, ◌≡◌,
  ◌⊎◌, refl, sym, ap, subst, ◌∙◌, inl, inr, arith,
}
use go_mathsearch.Base.Text.{codes, Text, text_eq, text_beq, put}
use go_mathsearch.Latexfmt.Terms.{Expr}
use go_mathsearch.Store.{Formula}
use go_mathsearch.Store.Canonical.{Canonical, parsed}
use go_mathsearch.Store.Database.{Db, Engine, find_formula}
use go_mathsearch.Store.Writes.Consistent.{find_formula-upsert}
use go_mathsearch.Server.Replies.{Entry, Response}
use go_mathsearch.Server.Edits.{formula_of, sides_of, add_sides, handle_add_formula}
use go_mathsearch.Server.Sides.{features_of, one_side, one_side-cases}

module _ (E : Engine) (K : Canonical) where
  -- Another entry or side.
  abbrev IsApart : Text × Text → Entry → List (Text × Text) → Type 0
  IsApart k e [] = Unit
  IsApart k e ((side, mma) ∷ sides) = (((e.id, side) == k) ≡ false) × IsApart k e sides

  find_formula-add_sides :
      (k : Text × Text) (e : Entry) (sides sigs : List (Text × Text)) (n : ℕ) (db : Db E.Index)
      → IsApart k e sides
      → find_formula k (add_sides E K e sides sigs n db).1.rows ≡ find_formula k db.rows
  unfolding add_sides
  find_formula-add_sides k e [] sigs n db a = elim (Bool-cases (n == 0)) [
    | inl nothing ↦ rw nothing
    | inr something ↦ rw something
  ]
  find_formula-add_sides k e ((side, mma) ∷ sides) sigs n db a = elim (Bool-cases (mma == [])) [
    | inl empty ↦ rw empty (find_formula-add_sides k e sides sigs n db a.1)
    | inr full ↦ rw full (
        one_side-cases E K (λ x. find_formula k x.1.rows ≡ find_formula k db.rows) e side mma db
          (λ sig. add_sides E K e sides (put side sig sigs) (suc n)) (λ message. refl) refl
          (λ expr new is up.
            find_formula-add_sides k e sides (put side (K.signature expr) sigs) (suc n) new a.1
            ∙ find_formula-upsert E k (formula_of K e side mma expr) (features_of E K expr) db new
                up
            ∙ rw a.0 refl))
  ]

  -- The entry's fields, with the canonical form and the signature of what was parsed.
  pub record IsFormulaOf (e : Entry) (side mma : Text) (expr : Expr) (f : Formula) : Type 0 where
    pub same_id : f.entry_id ≡ e.id
    pub same_side : f.side ≡ side
    pub same_label : f.label ≡ e.label
    pub same_source : f.source ≡ e.source
    pub same_class : f.class ≡ e.class
    pub same_latex : f.latex ≡ e.latex
    pub same_mma : f.mma ≡ mma
    pub is_canonical : f.canonical ≡ K.canonical expr
    pub is_signature : f.signature ≡ K.signature expr
    pub same_verified : f.verified ≡ e.verified

  formula_of-IsFormulaOf :
      (e : Entry) (side mma : Text) (expr : Expr)
      → IsFormulaOf e side mma expr (formula_of K e side mma expr)
  formula_of-IsFormulaOf e side mma expr = record {
    same_id = refl;
    same_side = refl;
    same_label = refl;
    same_source = refl;
    same_class = refl;
    same_latex = refl;
    same_mma = refl;
    is_canonical = refl;
    is_signature = refl;
    same_verified = refl;
  }

  -- A side is empty, or it stands in the store as it was parsed.
  abbrev pub IsStored : Entry → Db E.Index → Text × Text → Type 0
  IsStored e db p =
      ((p.1 == []) ≡ true)
      ⊎ ((expr : Expr) × (f : Formula) × (K.parse p.1 ≡ parsed expr)
          × (find_formula (e.id, p.0) db.rows ≡ some f)
          × IsFormulaOf e p.0 p.1 expr f)

  -- The sides have different names.
  abbrev AreApart : Entry → List (Text × Text) → Type 0
  AreApart e [] = Unit
  AreApart e ((side, mma) ∷ sides) = IsApart (e.id, side) e sides × AreApart e sides

  add_sides-empty :
      (e : Entry) (side mma : Text) (sides sigs : List (Text × Text)) (n : ℕ) (db : Db E.Index)
      → (mma == []) ≡ true
      → add_sides E K e ((side, mma) ∷ sides) sigs n db ≡ add_sides E K e sides sigs n db
  unfolding add_sides
  add_sides-empty e side mma sides sigs n db h = rw h

  add_sides-full :
      (e : Entry) (side mma : Text) (sides sigs : List (Text × Text)) (n : ℕ) (db : Db E.Index)
      → (mma == []) ≡ false
      → add_sides E K e ((side, mma) ∷ sides) sigs n db
        ≡ one_side E K e side mma db (λ sig. add_sides E K e sides (put side sig sigs) (suc n))
  unfolding add_sides
  add_sides-full e side mma sides sigs n db h = rw h

  add_sides-IsStored :
      (e : Entry) (sides sigs : List (Text × Text)) (n : ℕ) (db : Db E.Index)
      → AreApart e sides
      → (add_sides E K e sides sigs n db).0.0 ≡ 200
      → All (IsStored e (add_sides E K e sides sigs n db).1) sides
  unfolding add_sides
  add_sides-IsStored e [] sigs n db a h = tt
  add_sides-IsStored e ((side, mma) ∷ sides) sigs n db a h = elim (Bool-cases (mma == [])) [
    | inl empty ↦
        subst Stored (sym (add_sides-empty e side mma sides sigs n db empty))
          (λ k. (inl empty, add_sides-IsStored e sides sigs n db a.1 k)) h
    | inr full ↦
        subst Stored (sym (add_sides-full e side mma sides sigs n db full))
          (one_side-cases E K Stored e side mma db
            (λ sig. add_sides E K e sides (put side sig sigs) (suc n))
            (λ message k. ground (arith, k)) (λ k. ground (arith, k))
            (λ expr new is up k. (
              inr (
                expr,
                formula_of K e side mma expr,
                is,
                find_formula-add_sides (e.id, side) e sides (put side (K.signature expr) sigs)
                      (suc n) new a.0
                    ∙ find_formula-upsert E (e.id, side) (formula_of K e side mma expr)
                        (features_of E K expr) db new up
                    ∙ rw (==_refl {A = Text × Text} (e.id, side)) refl,
                formula_of-IsFormulaOf e side mma expr,
              ),
              add_sides-IsStored e sides (put side (K.signature expr) sigs) (suc n) new a.1 k,
            )))
          h
  ]
    where
      Stored : Response × Db E.Index → Type 0
      Stored x = x.0.0 ≡ 200 → All (IsStored e x.1) ((side, mma) ∷ sides)

  -- Where `handleAddFormula` answers with status 200, each side of the entry that is not empty has been
  -- parsed and stands in the store under the entry's id and its name, with the entry's fields and the
  -- canonical form and signature of what was parsed; and some other entry's formulas are as before.
  pub handle_add_formula-IsStored :
      (e : Entry) (db : Db E.Index) (k : Text × Text)
      → (e.id == k.0) ≡ false
      → (handle_add_formula E K (some e) db).0.0 ≡ 200
      → IsStored e (handle_add_formula E K (some e) db).1 (codes "lhs", e.lhs)
        × IsStored e (handle_add_formula E K (some e) db).1 (codes "rhs", e.rhs)
        × (find_formula k (handle_add_formula E K (some e) db).1.rows ≡ find_formula k db.rows)
  unfolding handle_add_formula text_beq
  handle_add_formula-IsStored e db k other h = elim (Bool-cases (e.id == [])) [
    | inl missing ↦ let impossible : 400 ≡ 200 = rw missing at h in ground (arith, impossible)
    | inr given ↦
        let run : handle_add_formula E K (some e) db ≡ add_sides E K e (sides_of e) [] 0 db =
          rw given in
        let stored =
          add_sides-IsStored e (sides_of e) [] 0 db ((ground arith, tt), (tt, tt))
            (ap (λ (x : Response × Db E.Index). x.0.0) (sym run) ∙ h) in
        subst Right (sym run) (
          stored.0,
          stored.1.0,
          find_formula-add_sides k e (sides_of e) [] 0 db
              (ground (arith, other), (ground (arith, other), tt)),
        )
  ]
    where
      Right : Response × Db E.Index → Type 0
      Right x =
          IsStored e x.1 (codes "lhs", e.lhs)
          × IsStored e x.1 (codes "rhs", e.rhs)
          × (find_formula k x.1.rows ≡ find_formula k db.rows)
