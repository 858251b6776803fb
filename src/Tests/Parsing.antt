-- ===== src/Tests/Parsing.antt =====
-- The reader of feature/feature.go on concrete strings.
use go_mathsearch.Base.{◌≡◌, refl, []}
use go_mathsearch.Base.Text.{codes, text_beq}
use go_mathsearch.Feature.Node.{node, nil, cons}
use go_mathsearch.Feature.Reader.{
  parse, ok, error_at, expected_bracket, leaf_node, read_node, read_name, read_leaf, advance_while,
  skip, is_name_start, is_name_char, is_delimiter, close_call, finish,
}

-- A string atom may contain commas and brackets.
parse-quoted :
    parse (codes "f[$\"a,b[c]\", v0]")
    ≡ ok (
        node
          (codes "f")
          (cons (leaf_node (codes "$\"a,b[c]\"")) (cons (leaf_node (codes "v0")) nil))
          []
          (codes "f[$\"a,b[c]\", v0]"))
unfolding parse read_node read_name read_leaf advance_while skip is_name_start is_name_char
    is_delimiter close_call finish text_beq
parse-quoted = refl

parse-unclosed : parse (codes "f[#1") ≡ error_at 4 expected_bracket
unfolding parse read_node read_name read_leaf advance_while skip is_name_start is_name_char
    is_delimiter close_call finish text_beq
parse-unclosed = refl
