-- ===== src/Feature/Node.antt =====
-- The type `Node` of feature/feature.go: a parsed canonical term.
use go_mathsearch.Base.{ℕ, suc, List, [], ◌∷◌}
use go_mathsearch.Base.Text.{Text, text_eq}

-- `node op kids leaf raw`: `op` is empty for a leaf and `leaf` for an operator; `raw` is the
-- source substring. `Kids` is the slice of children.
mutual
  pub data Node : Type 0 where
    node : Text → Kids → Text → Text → Node

  pub data Kids : Type 0 where
    nil : Kids
    cons : Node → Kids → Kids

abbrev pub op : Node → Text
op (node o k l r) = o

abbrev pub kids : Node → Kids
kids (node o k l r) = k

abbrev pub leaf : Node → Text
leaf (node o k l r) = l

abbrev pub raw : Node → Text
raw (node o k l r) = r

-- `len(n.Kids)`
abbrev pub count : Kids → ℕ
count nil = 0
count (cons k ks) = suc (count ks)

abbrev pub to_list : Kids → List Node
to_list nil = []
to_list (cons k ks) = k ∷ to_list ks
