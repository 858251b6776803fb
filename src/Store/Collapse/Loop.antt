-- ===== src/Store/Collapse/Loop.antt =====
-- The loop of `collapse` in store/store.go against the groups it builds.
use go_mathsearch.Base.{
  ℕ, ◌≡◌, refl, sym, ap, ap₂, ◌∙◌, inl, inr, true, false, List, [], ◌∷◌, ◌++◌, append_assoc,
  append-nil, map-append, none, some, length, nat_eq, Option-cases, ==_refl, contains, add_old,
  add_new, select,
}
use go_mathsearch.Base.Text.{Text, text_eq, lookup}
use go_mathsearch.Store.{Occurrence, Hit, occurrence_of}
use go_mathsearch.Store.Collapse.{append_occurrence, collapse_onto, collapse}
use go_mathsearch.Store.Collapse.Index.{
  signature_of, places, grow, firsts, sigs, Indexed, bump, HasAt-contains, append_occurrence-bump,
  sigs-bump, places-cons, grow-bump, grow_absent, Indexed-old, Indexed-new,
}

grow_nil : (out : List Hit) → grow [] out ≡ out
unfolding select
grow_nil [] = refl
grow_nil (o ∷ out) =
    ap₂ (λ (ps : List Occurrence) (hs : List Hit). record o { occurrences = ps } ∷ hs)
      (append-nil o.occurrences) (grow_nil out)

module _ (r : Hit) (rs : List Hit) where
  collapse_onto_old :
      (by_id : List (Text × ℕ)) (out : List Hit) (i : ℕ)
      → lookup (signature_of r) by_id ≡ some i
      → collapse_onto by_id out (r ∷ rs)
        ≡ collapse_onto by_id (append_occurrence i (occurrence_of r.formula) out) rs
  unfolding collapse_onto
  collapse_onto_old by_id out i e = rw (e, collapse_onto)

  collapse_onto_new :
      (by_id : List (Text × ℕ)) (out : List Hit)
      → lookup (signature_of r) by_id ≡ none
      → collapse_onto by_id out (r ∷ rs)
        ≡ collapse_onto
            ((signature_of r, length out) ∷ by_id)
            (out ++ record r { occurrences = occurrence_of r.formula ∷ [] } ∷ [])
            rs
  unfolding collapse_onto
  collapse_onto_new by_id out e = rw (e, collapse_onto)

  pub firsts_old :
      (known : List Text)
      → contains (signature_of r) known ≡ true
      → firsts known (r ∷ rs) ≡ firsts known rs
  unfolding firsts
  firsts_old known h = rw h (ap (λ k. firsts k rs) (add_old (signature_of r) known h))

  pub firsts_new :
      (known : List Text)
      → contains (signature_of r) known ≡ false
      → firsts known (r ∷ rs)
        ≡ record r { occurrences = places (signature_of r) (r ∷ rs) }
          ∷ firsts (known ++ signature_of r ∷ []) rs
  unfolding firsts
  firsts_new known h = rw h (
      ap (λ k. record r { occurrences = places (signature_of r) (r ∷ rs) } ∷ firsts k rs)
        (add_new (signature_of r) known h))

-- A new hit grows into one with all its places.
grow_new :
    (r : Hit) (rs out : List Hit)
    → contains (signature_of r) (sigs out) ≡ false
    → grow rs (out ++ record r { occurrences = occurrence_of r.formula ∷ [] } ∷ [])
      ≡ grow (r ∷ rs) out ++ record r { occurrences = places (signature_of r) (r ∷ rs) } ∷ []
grow_new r rs out h =
    map-append _ out _
    ∙ ap₂ (λ (xs : List Hit) (ps : List Occurrence). xs ++ record r { occurrences = ps } ∷ [])
        (sym (grow_absent r rs out h))
        (sym (places-cons (signature_of r) r rs ∙ rw (==_refl (signature_of r))))

-- The loop, from a slice and a map that agree.
collapse_onto-firsts :
    (by_id : List (Text × ℕ)) (out rs : List Hit)
    → Indexed by_id out
    → collapse_onto by_id out rs ≡ grow rs out ++ firsts (sigs out) rs
unfolding firsts
collapse_onto-firsts by_id out [] x =
    unfold collapse_onto in sym (append-nil (grow [] out) ∙ grow_nil out)
collapse_onto-firsts by_id out (r ∷ rs) x = elim (Option-cases (lookup (signature_of r) by_id)) [
  | inl new ↦
      let sig = signature_of r in
      let r' = record r { occurrences = occurrence_of r.formula ∷ [] } in
      let fresh = x.absent sig new in
      collapse_onto_new r rs by_id out new
      ∙ collapse_onto-firsts ((sig, length out) ∷ by_id) (out ++ r' ∷ []) rs
          (Indexed-new by_id out r' x new)
      ∙ ap₂ (λ (xs : List Hit) (ks : List Text). xs ++ firsts ks rs) (grow_new r rs out fresh)
          (map-append signature_of out (r' ∷ []))
      ∙ append_assoc (grow (r ∷ rs) out) _ _
      ∙ ap (λ (xs : List Hit). grow (r ∷ rs) out ++ xs) (sym (firsts_new r rs (sigs out) fresh))
  | inr (i, old) ↦
      let sig = signature_of r in
      let occ = occurrence_of r.formula in
      let at_i = x.found sig i old in
      collapse_onto_old r rs by_id out i old
      ∙ ap (λ (hs : List Hit). collapse_onto by_id hs rs)
          (append_occurrence-bump i sig occ out x.distinct at_i)
      ∙ collapse_onto-firsts by_id (bump sig occ out) rs (Indexed-old by_id out sig occ x)
      ∙ ap₂ (λ (xs : List Hit) (ks : List Text). xs ++ firsts ks rs) (grow-bump r rs out)
          (sigs-bump sig occ out)
      ∙ ap (λ (xs : List Hit). grow (r ∷ rs) out ++ xs)
          (sym (firsts_old r rs (sigs out) (HasAt-contains i sig (sigs out) at_i)))
]

-- The loop computes the first hit of each signature, with all the rows of the signature as occurrences.
pub collapse-firsts : (rs : List Hit) → collapse rs ≡ firsts [] rs
unfolding collapse
collapse-firsts rs = collapse_onto-firsts [] [] rs (record {
  found = λ s i e. unfold lookup in let no : ⊥ = cc in absurd no;
  absent = λ s e. unfold contains in refl;
  distinct = tt;
})
