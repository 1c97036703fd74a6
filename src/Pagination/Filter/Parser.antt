-- ===== src/Pagination/Filter/Parser.antt =====
-- infra/pagination/filter_parser.go: the parser of filter queries, over valid UTF-8. `chars` is a
-- list of code points, `index` counts them; lengths of strings count bytes.
use authzsdk.Prelude.{
  ℕ, zero, suc, ◌+◌, none, some, List, [], ◌∷◌, true, false, Text, lit, has_prefix, trim_prefix,
  trim_suffix, split_n, length, drop, get_elem?, if◌then◌else◌, ◌==◌,
}
use authzsdk.Pagination.Filter.Operators.{Operator, and_op, or_op, is_leaf_operator}
use authzsdk.Pagination.Filter.Nodes.{
  nested, operator, string, Heap, empty_query, node, add_child, is_nested, is_root, find_ancestor,
  rotate_left,
}
use authzsdk.Pagination.Filter.Leaf.{byte_length, find_leaf, parse_key}

pub data ParseError : Type 0 where
  filter_empty unexpected_char unbalanced unexpected_leaf invalid_leaf invalid_key : ParseError
  invalid_logical unrecognized_operator unbalanced_end : ParseError

-- A result, an error, a nil pointer that is read, or no result while the fuel lasts.
pub data Outcome {ℓ} (A : Type ℓ) : Type ℓ where
  ok : A → Outcome A
  err : ParseError → Outcome A
  panic : Outcome A
  timeout : Outcome A

pub record FilterParser : Type 0 where
  pub chars : Text
  pub index : ℕ
  pub heap : Heap
  pub fq : ℕ

unfoldable pub new_filter_parser : Text → FilterParser
new_filter_parser filter = record { chars = filter; index = 0; heap = empty_query ∷ []; fq = 0 }

abbrev pub remaining : FilterParser → Text
remaining fp = drop fp.index fp.chars

unfoldable pub advance : ℕ → FilterParser → FilterParser
advance n fp = record fp { index = fp.index + n }

unfoldable pub parse_start_nested : FilterParser → FilterParser
unfolding advance
parse_start_nested fp =
    let (heap, child) = add_child fp.heap fp.fq nested in
    advance 1 (record fp { heap = heap; fq = child })

unfoldable pub parse_end_nested : FilterParser → Outcome FilterParser
unfolding advance
parse_end_nested fp =
    let fq = find_ancestor (length fp.heap) fp.heap fp.fq in
    if is_root fp.heap fq then err unbalanced_end else ok (advance 1 (record fp { fq = fq }))

unfoldable pub parse_logical : FilterParser → Outcome FilterParser
unfolding advance
parse_logical fp =
    if is_root fp.heap fp.fq
    then err invalid_logical
    else if has_prefix (remaining fp) (lit ",AND,")
    then ok (advance 5 (record fp { heap = rotate_left fp.heap fp.fq (operator and_op) }))
    else if has_prefix (remaining fp) (lit ",OR,")
    then ok (advance 4 (record fp { heap = rotate_left fp.heap fp.fq (operator or_op) }))
    else err unrecognized_operator

-- The end of `parseLeaf`: the operator's node, with the key and the value for its children.
unfoldable pub add_leaf : Text → Operator → Text → FilterParser → Outcome FilterParser
unfolding advance
add_leaf key op value fp =
    if is_leaf_operator op
    then (let (heap, child) = add_child fp.heap fp.fq (operator op) in
        elim (parse_key key) [
          | none ↦ err invalid_key
          | some key_to_add ↦
              let (heap', _) = add_child heap child (string key_to_add) in
              let (heap'', _) = add_child heap' child (string value) in
              ok (
                advance (byte_length key + byte_length op + byte_length value + 6)
                  (record fp { heap = heap''; fq = child }))
        ])
    else err invalid_leaf

unfoldable pub parse_leaf_parts : List Text → FilterParser → Outcome FilterParser
unfolding add_leaf
parse_leaf_parts (a ∷ op ∷ c ∷ []) fp =
    add_leaf (trim_suffix a (lit "'")) op (trim_suffix (trim_prefix c (lit "'")) (lit "')")) fp
parse_leaf_parts _ fp = err invalid_leaf

unfoldable pub parse_leaf : FilterParser → Outcome FilterParser
unfolding parse_leaf_parts
parse_leaf fp =
    if is_nested fp.heap fp.fq
    then elim (find_leaf (remaining fp)) [
      | none ↦ err invalid_leaf
      | some leaf_prefix ↦
          parse_leaf_parts (split_n 3 (trim_prefix leaf_prefix (lit "'")) (lit ",")) fp
    ]
    else err unexpected_leaf

-- One round of the loop, by the current character.
unfoldable pub parse_char : ℕ → FilterParser → Outcome FilterParser
unfolding parse_start_nested parse_end_nested parse_leaf parse_logical
parse_char c fp =
    if c == b'('
    then ok (parse_start_nested fp)
    else if c == b')'
    then parse_end_nested fp
    else if c == 39
    then parse_leaf fp
    else if c == b','
    then parse_logical fp
    else err unexpected_char

-- Behind the loop: the tree must hang on the root, whose parent is a nil pointer.
unfoldable pub parse_done : FilterParser → Outcome (Heap × ℕ)
parse_done fp = elim (node fp.heap fp.fq).parent [
  | none ↦ panic
  | some p ↦ elim (is_root fp.heap p) [ true ↦ ok (fp.heap, fp.fq) | false ↦ err unbalanced ]
]

unfoldable pub parse_loop : ℕ → FilterParser → Outcome (Heap × ℕ)
unfolding parse_done
parse_loop zero fp = timeout
parse_loop (suc fuel) fp = elim (get_elem? fp.chars fp.index) [
  | none ↦ parse_done fp
  | some c ↦ elim (parse_char c fp) [
    | ok fp' ↦ parse_loop fuel fp'
    | err e ↦ err e
    | panic ↦ panic
    | timeout ↦ timeout
  ]
]

unfoldable pub create_filter_query : Text → Outcome (Heap × ℕ)
unfolding parse_loop new_filter_parser
create_filter_query s =
    if length s == 0 then err filter_empty else parse_loop (suc (length s)) (new_filter_parser s)
