-- ===== src/Store/Duplicates/Order.antt =====
-- The order by entry and side of the queries of store/store.go.
use go_mathsearch.Base.{
  true, false, ==_comm, Bool-cases, ◌≡◌, sym, subst, ap, ap₂, ◌∙◌, inl, inr, arith,
}
use go_mathsearch.Base.Orders.{IsWeak}
use go_mathsearch.Base.Sorting.{text_lt, text_lt_asymm, text_lt_weak, text_lt_total}
use go_mathsearch.Base.Text.{Text, text_eq, text_beq, text_beq_iff}
use go_mathsearch.Store.Database.{Row}
use go_mathsearch.Store.Search.{key_lt}

-- A text is not before one that it equals.
text_lt_same : (a b : Text) → text_beq a b ≡ true → text_lt a b ≡ false
text_lt_same a b h = elim (Bool-cases (text_lt a b)) [
  | inl less ↦
      let same = (text_beq_iff a b).0 h in
      let back : text_lt b a ≡ true = ap₂ text_lt (sym same) same ∙ less in
      ground (arith, text_lt_asymm a b less, back)
  | inr other ↦ other
]

key_lt-asymm : (q r : Row) → key_lt q r ≡ true → key_lt r q ≡ false
key_lt-asymm q r h =
    let a = q.formula in
    let b = r.formula in
    let comm : text_beq a.entry_id b.entry_id ≡ text_beq b.entry_id a.entry_id =
      ==_comm a.entry_id b.entry_id in
    ground (
      arith,
      text_lt_asymm a.entry_id b.entry_id,
      text_lt_asymm a.side b.side,
      comm,
      text_lt_same a.entry_id b.entry_id,
      text_lt_same b.entry_id a.entry_id,
      h,
    )

-- Between equal texts there is no other.
text_eq_between :
    (a b c : Text)
    → text_lt b a ≡ false
    → text_lt c b ≡ false
    → text_beq c a ≡ true
    → (text_beq b a ≡ true) × (text_beq c b ≡ true)
text_eq_between a b c h k same =
    let p = (text_beq_iff c a).0 same in
    let k' : text_lt a b ≡ false = subst (λ t. text_lt t b ≡ false) p k in
    let q : text_beq a b ≡ true = elim (Bool-cases (text_beq a b)) [
      | inl is ↦ is
      | inr differ ↦ ground (arith, text_lt_total a b k' differ, h)
    ] in
    let comm : text_beq a b ≡ text_beq b a = ==_comm a b in
    (sym comm ∙ q, ap (λ t. text_beq t b) p ∙ q)

key_lt-weak : (q r s : Row) → key_lt r q ≡ false → key_lt s r ≡ false → key_lt s q ≡ false
key_lt-weak q r s h k =
    let a = q.formula in
    let b = r.formula in
    let c = s.formula in
    ground (
      arith,
      text_lt_weak a.entry_id b.entry_id c.entry_id,
      text_lt_weak a.side b.side c.side,
      text_eq_between a.entry_id b.entry_id c.entry_id,
      h,
      k,
    )

pub key_lt-IsWeak : IsWeak key_lt
key_lt-IsWeak = (key_lt-asymm, key_lt-weak)
