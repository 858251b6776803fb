-- ===== src/Store/Collapse/Groups.antt =====
-- What `collapse` of store/store.go promises of its hits, for a list of rows in rank order.
use go_mathsearch.Base.{
  ◌≡◌, refl, ◌∙◌, sym, ap, true, false, ◌&&◌, not, List, [], ◌∷◌, map, arith, ◌==◌, Bool-cases, inl,
  inr, ==_comm, ==_refl, ==_iff, contains, contains-add, add, IsDistinct, All,
}
use go_mathsearch.Base.Text.{Text, text_eq}
use go_mathsearch.Store.{Hit}
use go_mathsearch.Store.Collapse.{collapse}
use go_mathsearch.Store.Collapse.Index.{signature_of, places, firsts, places-cons}
use go_mathsearch.Store.Collapse.Loop.{collapse-firsts}

sig_step : (s t : Text) (known : List Text) → (t == s) ≡ true → contains t known ≡ contains s known
sig_step s t known h = ap (λ u. contains u known) ((==_iff t s).0 h)

firsts-contains :
    (s : Text) (known : List Text) (rs : List Hit)
    → contains s (map signature_of (firsts known rs))
      ≡ (contains s (map signature_of rs) && not (contains s known))
unfolding contains firsts
firsts-contains s known [] = refl
firsts-contains s known (r ∷ rs) = ground (
  arith,
  firsts-contains s (add (signature_of r) known) rs,
  contains-add s (signature_of r) known,
  sig_step s (signature_of r) known,
)

firsts-IsDistinct :
    (known : List Text) (rs : List Hit) → IsDistinct (map signature_of (firsts known rs))
unfolding firsts
firsts-IsDistinct known [] = tt
firsts-IsDistinct known (r ∷ rs) = elim (Bool-cases (contains (signature_of r) known)) [
  | inl old ↦ rw old (firsts-IsDistinct (add (signature_of r) known) rs)
  | inr new ↦ rw new (
    ground (
      arith,
      firsts-contains (signature_of r) (add (signature_of r) known) rs,
      contains-add (signature_of r) (signature_of r) known,
      ==_refl (signature_of r),
    ),
    firsts-IsDistinct (add (signature_of r) known) rs,
  )
]

-- A hit whose signature is not known yet, with all its rows.
abbrev IsGroup : List Text → List Hit → Hit → Type 0
IsGroup known rs h =
    (contains (signature_of h) known ≡ false) × (h.occurrences ≡ places (signature_of h) rs)

IsGroup-cons :
    (known : List Text) (r : Hit) (rs : List Hit) (h : Hit)
    → IsGroup (add (signature_of r) known) rs h
    → IsGroup known (r ∷ rs) h
IsGroup-cons known r rs h (fresh, all) =
    let split = contains-add (signature_of h) (signature_of r) known in
    let other : (signature_of h == signature_of r) ≡ false =
      ground (arith, split, fresh, ==_comm (signature_of h) (signature_of r)) in
    (ground (arith, split, fresh), all ∙ sym (places-cons (signature_of h) r rs ∙ rw other))

All-weaken :
    (known : List Text) (r : Hit) (rs hs : List Hit)
    → All (IsGroup (add (signature_of r) known) rs) hs
    → All (IsGroup known (r ∷ rs)) hs
All-weaken known r rs [] a = tt
All-weaken known r rs (h ∷ hs) a = (IsGroup-cons known r rs h a.0, All-weaken known r rs hs a.1)

firsts-IsGroup : (known : List Text) (rs : List Hit) → All (IsGroup known rs) (firsts known rs)
unfolding firsts
firsts-IsGroup known [] = tt
firsts-IsGroup known (r ∷ rs) =
    let rest = All-weaken known r rs _ (firsts-IsGroup (add (signature_of r) known) rs) in
    elim (Bool-cases (contains (signature_of r) known)) [
      | inl old ↦ rw old rest
      | inr new ↦ rw new ((new, refl), rest)
    ]

-- No two hits of the result have the same signature.
pub collapse-IsDistinct : (rs : List Hit) → IsDistinct (map signature_of (collapse rs))
collapse-IsDistinct rs = rw (collapse-firsts rs) (firsts-IsDistinct [] rs)

-- A signature is that of a hit of the result exactly if it is that of a row.
pub contains-collapse :
    (s : Text) (rs : List Hit)
    → contains s (map signature_of (collapse rs)) ≡ contains s (map signature_of rs)
contains-collapse s rs =
    unfold contains in rw (collapse-firsts rs) (ground (arith, firsts-contains s [] rs))

-- The occurrences of a hit of the result are those of all the rows with its signature, in their order.
pub collapse-places :
    (rs : List Hit) → All (λ h. h.occurrences ≡ places (signature_of h) rs) (collapse rs)
collapse-places rs = rw (collapse-firsts rs) (go (firsts [] rs) (firsts-IsGroup [] rs))
  where
    go :
        (hs : List Hit)
        → All (IsGroup [] rs) hs
        → All (λ h. h.occurrences ≡ places (signature_of h) rs) hs
    go [] a = tt
    go (h ∷ hs) a = (a.0.1, go hs a.1)
