-- ===== src/Store/Collapse/Index.antt =====
-- The groups that `collapse` of store/store.go builds, and what keeps its map of indices right.
use go_mathsearch.Base.{
  ℕ, zero, suc, ◌≡◌, refl, sym, ap, ap₂, subst, ◌∙◌, inl, inr, true, false, List, [], ◌∷◌, ◌++◌,
  append_assoc, map, map-append, none, some, arith, length, ◌==◌, nat_eq, if◌then◌else◌, Bool-cases,
  ==_comm, contains, contains-concat, IsDistinct-concat, add, IsDistinct, select,
}
use go_mathsearch.Base.Text.{Text, text_eq, text_beq, text_beq_iff, lookup}
use go_mathsearch.Store.{Occurrence, Hit, occurrence_of}
use go_mathsearch.Store.Collapse.{append_occurrence}

abbrev pub signature_of : Hit → Text
signature_of r = r.formula.signature

-- The occurrences of a signature in a list of rows, in order.
abbrev pub places : Text → List Hit → List Occurrence
places sig rs = map (λ (r : Hit). occurrence_of r.formula) (select (λ r. signature_of r == sig) rs)

-- Hits with those occurrences added that later rows bring.
abbrev pub grow : List Hit → List Hit → List Hit
grow rs out =
    map (λ (h : Hit). record h { occurrences = h.occurrences ++ places (signature_of h) rs }) out

-- The first hit of each signature that is not yet known, with all its places.
unfoldable pub firsts : List Text → List Hit → List Hit
firsts known [] = []
firsts known (r ∷ rs) =
    let rest = firsts (add (signature_of r) known) rs in
    if contains (signature_of r) known
    then rest
    else record r { occurrences = places (signature_of r) (r ∷ rs) } ∷ rest

abbrev pub sigs : List Hit → List Text
sigs = map signature_of

abbrev pub HasAt : ℕ → Text → List Text → Type 0
HasAt i s [] = ⊥
HasAt zero s (t ∷ ts) = t ≡ s
HasAt (suc i) s (t ∷ ts) = HasAt i s ts

-- The map of the loop names the place of each signature in the slice, and each stands there once.
pub record Indexed (by_id : List (Text × ℕ)) (out : List Hit) : Type 0 where
  pub found : (s : Text) (i : ℕ) → lookup s by_id ≡ some i → HasAt i s (sigs out)
  pub absent : (s : Text) → lookup s by_id ≡ none → contains s (sigs out) ≡ false
  pub distinct : IsDistinct (sigs out)

-- The occurrence added wherever the signature is.
abbrev pub bump : Text → Occurrence → List Hit → List Hit
bump s occ = map (λ (h : Hit).
    if signature_of h == s then record h { occurrences = h.occurrences ++ occ ∷ [] } else h)

pub HasAt-contains : (i : ℕ) (s : Text) (ts : List Text) → HasAt i s ts → contains s ts ≡ true
unfolding contains
HasAt-contains i s [] h = absurd h
HasAt-contains zero s (t ∷ ts) h = ground (arith, text_beq_iff t s)
HasAt-contains (suc i) s (t ∷ ts) h = ground (arith, HasAt-contains i s ts h)

pub bump_absent :
    (s : Text) (occ : Occurrence) (out : List Hit)
    → contains s (sigs out) ≡ false
    → bump s occ out ≡ out
unfolding contains
bump_absent s occ [] h = refl
bump_absent s occ (o ∷ out) h = ground (arith, bump_absent s occ out)

pub append_occurrence-bump :
    (i : ℕ) (s : Text) (occ : Occurrence) (out : List Hit)
    → IsDistinct (sigs out)
    → HasAt i s (sigs out)
    → append_occurrence i occ out ≡ bump s occ out
unfolding append_occurrence
append_occurrence-bump i s occ [] d h = absurd h
append_occurrence-bump zero s occ (o ∷ out) d h =
    ground (arith, text_beq_iff (signature_of o) s, bump_absent s occ out (rw h at d.0))
append_occurrence-bump (suc i) s occ (o ∷ out) d h = ground (
  arith,
  text_beq_iff (signature_of o) s,
  append_occurrence-bump i s occ out d.1 h,
  HasAt-contains i s (sigs out) h,
  d.0,
  ap (λ t. contains t (sigs out)) {x = signature_of o} {y = s},
)

pub sigs-bump : (s : Text) (occ : Occurrence) (out : List Hit) → sigs (bump s occ out) ≡ sigs out
sigs-bump s occ [] = refl
sigs-bump s occ (o ∷ out) = ground (arith, sigs-bump s occ out)

pub places-cons :
    (s : Text) (r : Hit) (rs : List Hit)
    → places s (r ∷ rs)
      ≡ (if s == signature_of r then occurrence_of r.formula ∷ places s rs else places s rs)
unfolding select
places-cons s r rs = elim (Bool-cases (s == signature_of r)) [
  | inl same ↦ rw same (rw (==_comm (signature_of r) s ∙ same))
  | inr other ↦ rw other (rw (==_comm (signature_of r) s ∙ other))
]

pub grow-bump_one :
    (r : Hit) (rs : List Hit) (o : Hit)
    → grow rs (bump (signature_of r) (occurrence_of r.formula) (o ∷ [])) ≡ grow (r ∷ rs) (o ∷ [])
grow-bump_one r rs o = elim (Bool-cases (signature_of o == signature_of r)) [
  | inl same ↦ rw same (
      ap (λ (ps : List Occurrence). record o { occurrences = ps } ∷ [])
        (append_assoc o.occurrences (occurrence_of r.formula ∷ []) (places (signature_of o) rs)
          ∙ ap (λ (ps : List Occurrence). o.occurrences ++ ps)
              (sym (places-cons (signature_of o) r rs ∙ rw same))))
  | inr other ↦ rw other (
      ap (λ (ps : List Occurrence). record o { occurrences = o.occurrences ++ ps } ∷ [])
        (sym (places-cons (signature_of o) r rs ∙ rw other)))
]

pub grow-bump :
    (r : Hit) (rs out : List Hit)
    → grow rs (bump (signature_of r) (occurrence_of r.formula) out) ≡ grow (r ∷ rs) out
grow-bump r rs [] = refl
grow-bump r rs (o ∷ out) =
    ap₂ (λ (xs ys : List Hit). xs ++ ys) (grow-bump_one r rs o) (grow-bump r rs out)

pub grow_absent :
    (r : Hit) (rs out : List Hit)
    → contains (signature_of r) (sigs out) ≡ false
    → grow (r ∷ rs) out ≡ grow rs out
grow_absent r rs out h =
    sym (grow-bump r rs out)
    ∙ ap (grow rs) (bump_absent (signature_of r) (occurrence_of r.formula) out h)

-- The slice after a row whose signature is known.
pub Indexed-old :
    (by_id : List (Text × ℕ)) (out : List Hit) (s : Text) (occ : Occurrence)
    → Indexed by_id out
    → Indexed by_id (bump s occ out)
Indexed-old by_id out s occ x =
    let same = sigs-bump s occ out in
    record {
      found = λ t i e. rw same (x.found t i e);
      absent = λ t e. rw same (x.absent t e);
      distinct = rw same x.distinct;
    }

pub HasAt-append : (i : ℕ) (s : Text) (ts us : List Text) → HasAt i s ts → HasAt i s (ts ++ us)
HasAt-append i s [] us h = absurd h
HasAt-append zero s (t ∷ ts) us h = h
HasAt-append (suc i) s (t ∷ ts) us h = HasAt-append i s ts us h

pub HasAt-last : (s : Text) (out : List Hit) → HasAt (length out) s (sigs out ++ s ∷ [])
HasAt-last s [] = refl
HasAt-last s (o ∷ out) = HasAt-last s out

-- The slice after a row whose signature is new.
pub Indexed-new :
    (by_id : List (Text × ℕ)) (out : List Hit) (r : Hit)
    → Indexed by_id out
    → lookup (signature_of r) by_id ≡ none
    → Indexed ((signature_of r, length out) ∷ by_id) (out ++ r ∷ [])
unfolding lookup
Indexed-new by_id out r x e =
    let split : sigs (out ++ r ∷ []) ≡ sigs out ++ signature_of r ∷ [] =
      map-append signature_of out (r ∷ []) in
    let new = x.absent (signature_of r) e in
    record {
      found = λ t i h. rw split (found t i h);
      absent = λ t h. rw split (absent t h);
      distinct = rw split (IsDistinct-concat (signature_of r) (sigs out) new x.distinct);
    }
  where
    found :
        (t : Text) (i : ℕ)
        → lookup t ((signature_of r, length out) ∷ by_id) ≡ some i
        → HasAt i t (sigs out ++ signature_of r ∷ [])
    found t i h = elim (Bool-cases (text_beq (signature_of r) t)) [
      | inr other ↦ HasAt-append i t (sigs out) (signature_of r ∷ []) (x.found t i (rw other at h))
      | inl same ↦
          let put : some (length out) ≡ some i = rw same at h in
          let at_end : length out ≡ i = cc in
          rw (← at_end) (
            subst (λ u. HasAt (length out) u (sigs out ++ signature_of r ∷ []))
              ((text_beq_iff (signature_of r) t).0 same) (HasAt-last (signature_of r) out))
    ]

    absent :
        (t : Text)
        → lookup t ((signature_of r, length out) ∷ by_id) ≡ none
        → contains t (sigs out ++ signature_of r ∷ []) ≡ false
    absent t h = elim (Bool-cases (text_beq (signature_of r) t)) [
      | inl same ↦ cc (rw same at h)
      | inr other ↦
          contains-concat t (signature_of r) (sigs out) ∙ ground (arith, x.absent t (rw other at h))
    ]
