-- ===== src/Feature/Facets/Members.antt =====
-- Which tags `Facets` of feature/feature.go returns, and in what order.
use go_mathsearch.Base.{
  ◌≡◌, ◌↔◌, ◌⊎◌, sym, ◌∙◌, inl, inr, true, false, ◌||◌, List, [], ◌++◌, arith, ◌==◌, nat_eq,
  if◌then◌else◌, Bool-cases, or-cases, contains, contains-append, contains-add_all, add_all,
  IsDistinct, add_all-IsDistinct,
}
use go_mathsearch.Base.Sorting.{contains-sort, sort-IsAscending, IsAscending}
use go_mathsearch.Base.Text.{Text, text_eq}
use go_mathsearch.Feature.Node.{Node, Kids, node, nil, cons}
use go_mathsearch.Feature.Tokens.Subterm.{Visited, VisitedKids, here, below, head, later}
use go_mathsearch.Feature.Facets.{
  facet_walk, facet_walk_kids, facets, leaf_facets, table_facets, switch_facets,
}

-- The tags that one node sets.
abbrev pub own_facets : Node → List Text
own_facets (node o ks l r) = if o == [] then leaf_facets l else table_facets o ++ switch_facets o ks

-- A visited node sets the tag.
abbrev pub Carries : Text → Node → Type 0
Carries f n = (m : Node) × Visited m n × (contains f (own_facets m) ≡ true)

abbrev CarriesKids : Text → Kids → Type 0
CarriesKids f ks = (m : Node) × VisitedKids m ks × (contains f (own_facets m) ≡ true)

set_step :
    (f o : Text) (set : List Text) (ks : Kids)
    → contains f (add_all (add_all set (table_facets o)) (switch_facets o ks))
      ≡ (contains f set || contains f (table_facets o ++ switch_facets o ks))
set_step f o set ks = ground (
  arith,
  contains-add_all f (add_all set (table_facets o)) (switch_facets o ks),
  contains-add_all f set (table_facets o),
  contains-append f (table_facets o) (switch_facets o ks),
)

module _ (o l r : Text) (ks : Kids) where
  facet_walk_leaf :
      (set : List Text)
      → (o == []) ≡ true
      → facet_walk set (node o ks l r) ≡ add_all set (leaf_facets l)
  unfolding facet_walk
  facet_walk_leaf set h = rw h

  facet_walk_operator :
      (set : List Text)
      → (o == []) ≡ false
      → facet_walk set (node o ks l r)
        ≡ facet_walk_kids (add_all (add_all set (table_facets o)) (switch_facets o ks)) ks
  unfolding facet_walk
  facet_walk_operator set h = rw h

mutual
  unfolding facet_walk

  facet_walk-Carries :
      (f : Text) (set : List Text) (n : Node)
      → contains f (facet_walk set n) ≡ true
      → (contains f set ≡ true) ⊎ Carries f n
  facet_walk-Carries f set (node o ks l r) h = elim (Bool-cases (o == [])) [
    | inl leaf ↦
        let found =
          rw (facet_walk_leaf o l r ks set leaf, contains-add_all f set (leaf_facets l)) at h in
        elim (or-cases _ _ found) [
          | inl old ↦ inl old
          | inr new ↦ inr (node o ks l r, here, rw leaf new)
        ]
    | inr oper ↦
        let found = rw (facet_walk_operator o l r ks set oper) at h in
        elim (facet_walk_kids-Carries f _ ks found) [
          | inr (m, v, c) ↦ inr (m, below oper v, c)
          | inl before ↦ elim (or-cases _ _ (rw (set_step f o set ks) at before)) [
            | inl old ↦ inl old
            | inr new ↦ inr (node o ks l r, here, rw oper new)
          ]
        ]
  ]

  facet_walk_kids-Carries :
      (f : Text) (set : List Text) (ks : Kids)
      → contains f (facet_walk_kids set ks) ≡ true
      → (contains f set ≡ true) ⊎ CarriesKids f ks
  facet_walk_kids-Carries f set nil h = inl h
  facet_walk_kids-Carries f set (cons k ks) h =
      elim (facet_walk_kids-Carries f (facet_walk set k) ks h) [
        | inr (m, v, c) ↦ inr (m, later v, c)
        | inl before ↦ elim (facet_walk-Carries f set k before) [
          | inl old ↦ inl old
          | inr (m, v, c) ↦ inr (m, head v, c)
        ]
      ]

mutual
  unfolding facet_walk

  facet_walk-keeps :
      (f : Text) (set : List Text) (n : Node)
      → contains f set ≡ true
      → contains f (facet_walk set n) ≡ true
  facet_walk-keeps f set (node o ks l r) h = elim (Bool-cases (o == [])) [
    | inl leaf ↦
        rw (facet_walk_leaf o l r ks set leaf)
          (ground (arith, contains-add_all f set (leaf_facets l)))
    | inr oper ↦
        rw (facet_walk_operator o l r ks set oper)
          (facet_walk_kids-keeps f _ ks (ground (arith, set_step f o set ks)))
  ]

  facet_walk_kids-keeps :
      (f : Text) (set : List Text) (ks : Kids)
      → contains f set ≡ true
      → contains f (facet_walk_kids set ks) ≡ true
  facet_walk_kids-keeps f set nil h = h
  facet_walk_kids-keeps f set (cons k ks) h =
      facet_walk_kids-keeps f (facet_walk set k) ks (facet_walk-keeps f set k h)

facet_walk-own :
    (f : Text) (set : List Text) (n : Node)
    → contains f (own_facets n) ≡ true
    → contains f (facet_walk set n) ≡ true
facet_walk-own f set (node o ks l r) h = elim (Bool-cases (o == [])) [
  | inl leaf ↦
      rw (facet_walk_leaf o l r ks set leaf)
        (ground (arith, contains-add_all f set (leaf_facets l), rw leaf at h))
  | inr oper ↦
      rw (facet_walk_operator o l r ks set oper)
        (facet_walk_kids-keeps f _ ks (ground (arith, set_step f o set ks, rw oper at h)))
]

mutual
  unfolding facet_walk

  facet_walk-Visited :
      {m n : Node}
      → Visited m n
      → (f : Text) (set : List Text) → contains f (own_facets m) ≡ true
      → contains f (facet_walk set n) ≡ true
  facet_walk-Visited {m} here f set h = facet_walk-own f set m h
  facet_walk-Visited (below {o} {l} {r} {ks} oper v) f set h =
      rw (facet_walk_operator o l r ks set oper) (facet_walk_kids-visited v f _ h)

  facet_walk_kids-visited :
      {m : Node} {ks : Kids}
      → VisitedKids m ks
      → (f : Text) (set : List Text) → contains f (own_facets m) ≡ true
      → contains f (facet_walk_kids set ks) ≡ true
  facet_walk_kids-visited (head {k} {ks} v) f set h =
      facet_walk_kids-keeps f _ ks (facet_walk-Visited v f set h)
  facet_walk_kids-visited (later {k} {ks} v) f set h =
      facet_walk_kids-visited v f (facet_walk set k) h

mutual
  unfolding facet_walk

  facet_walk-IsDistinct :
      (set : List Text) (n : Node) → IsDistinct set → IsDistinct (facet_walk set n)
  facet_walk-IsDistinct set (node o ks l r) d = elim (Bool-cases (o == [])) [
    | inl leaf ↦ rw (facet_walk_leaf o l r ks set leaf) (add_all-IsDistinct set (leaf_facets l) d)
    | inr oper ↦ rw (facet_walk_operator o l r ks set oper) (
        facet_walk_kids-IsDistinct _ ks
          (add_all-IsDistinct _ (switch_facets o ks) (add_all-IsDistinct set (table_facets o) d)))
  ]

  facet_walk_kids-IsDistinct :
      (set : List Text) (ks : Kids) → IsDistinct set → IsDistinct (facet_walk_kids set ks)
  facet_walk_kids-IsDistinct set nil d = d
  facet_walk_kids-IsDistinct set (cons k ks) d =
      facet_walk_kids-IsDistinct (facet_walk set k) ks (facet_walk-IsDistinct set k d)

-- A tag is returned exactly when a visited node sets it.
pub facets-Carries_iff : (f : Text) (n : Node) → (contains f (facets n) ≡ true) ↔ Carries f n
unfolding facets contains
facets-Carries_iff f n = (
  λ h. elim (facet_walk-Carries f [] n (sym (contains-sort f (facet_walk [] n)) ∙ h)) [
    | inl none ↦ cc
    | inr found ↦ found
  ],
  λ (m, v, c). contains-sort f (facet_walk [] n) ∙ facet_walk-Visited v f [] c,
)

-- The tags come in strictly ascending order, each once.
pub facets-IsAscending : (n : Node) → IsAscending (facets n)
unfolding facets
facets-IsAscending n = sort-IsAscending (facet_walk [] n) (facet_walk-IsDistinct [] n tt)
