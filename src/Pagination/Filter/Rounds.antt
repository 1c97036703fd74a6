-- ===== src/Pagination/Filter/Rounds.antt =====
-- infra/pagination/filter_parser.go: what a round of the parser that succeeds does.
use authzsdk.Prelude.{
  ℕ, suc, ◌+◌, ◌<◌, ◌≡◌, refl, subst, inl, inr, List, [], ◌∷◌, false, Text, lit, length, arith,
  Option-cases, Bool-cases, ◌==◌, has_prefix, trim_prefix, split_n,
}
use authzsdk.Pagination.Filter.Operators.{Operator, and_op, or_op, is_leaf_operator}
use authzsdk.Pagination.Filter.Nodes.{
  Value, nested, operator, string, Heap, add_child, is_nested, is_root, find_ancestor, rotate_left,
}
use authzsdk.Pagination.Filter.Leaf.{byte_length, find_leaf, parse_key}
use authzsdk.Pagination.Filter.Parser.{
  ok, FilterParser, remaining, advance, parse_start_nested, parse_end_nested, parse_logical,
  add_leaf, parse_leaf_parts, parse_leaf, parse_char,
}
use authzsdk.Pagination.Filter.Heaps.{
  ParentsBefore, IsBelow, IsBelow-lt, add_child-ParentsBefore, rotate_left-ParentsBefore,
  add_child-IsBelow, IsBelow-add_child, IsBelow-rotate_left, IsBelow-of_not_root, length-add_child,
  length-rotate_left,
}

-- The state of a parser between two rounds.
pub record IsWellFormed (fp : FilterParser) : Type 0 where
  pub before : ParentsBefore fp.heap
  pub allocated : fp.fq < length fp.heap

-- What a round that succeeds makes of a parser.
pub record Progress (fp fp' : FilterParser) : Type 0 where
  pub chars : fp'.chars ≡ fp.chars
  pub further : fp.index < fp'.index
  pub well_formed : IsWellFormed fp'
  pub below : IsBelow fp'.heap fp'.fq

ok_injective {ℓ} : {A : Type ℓ} {a b : A} → ok a ≡ ok b → a ≡ b
ok_injective e = cc

-- `fp'` is the parser that the round returned.
returned :
    {fp : FilterParser} (next fp' : FilterParser)
    → ok next ≡ ok fp'
    → Progress fp next
    → Progress fp fp'
returned {fp} next fp' e p = subst (λ z. Progress fp z) (ok_injective e) p

parse_start_nested-Progress :
    (fp : FilterParser) → IsWellFormed fp → Progress fp (parse_start_nested fp)
unfolding parse_start_nested add_child
parse_start_nested-Progress fp w = record {
  chars = refl;
  further = omega arith;
  well_formed = record {
    before = add_child-ParentsBefore fp.heap fp.fq nested w.allocated w.before;
    allocated = omega (arith, length-add_child fp.heap fp.fq nested);
  };
  below = add_child-IsBelow fp.heap fp.fq nested w.allocated;
}

parse_end_nested-Progress :
    (fp fp' : FilterParser) → IsWellFormed fp → parse_end_nested fp ≡ ok fp' → Progress fp fp'
unfolding parse_end_nested
parse_end_nested-Progress fp fp' w e =
    let fq = find_ancestor (length fp.heap) fp.heap fp.fq in
    elim (Bool-cases (is_root fp.heap fq)) [
      | inl r ↦ absurd (ground arith)
      | inr r ↦ returned (advance 1 (record fp { fq = fq })) fp' (ground arith) (record {
        chars = refl;
        further = omega arith;
        well_formed = record {
          before = w.before;
          allocated = IsBelow-lt fp.heap fq (IsBelow-of_not_root fp.heap fq r);
        };
        below = IsBelow-of_not_root fp.heap fq r;
      })
    ]

-- A logical operator turns the node under the parser, which keeps its parent.
rotated-Progress :
    (fp : FilterParser) (value : Value) (n : ℕ)
    → IsWellFormed fp
    → is_root fp.heap fp.fq ≡ false
    → Progress fp (advance (suc n) (record fp { heap = rotate_left fp.heap fp.fq value }))
unfolding advance
rotated-Progress fp value n w r = record {
  chars = refl;
  further = omega arith;
  well_formed = record {
    before = rotate_left-ParentsBefore fp.heap fp.fq value w.allocated w.before;
    allocated = omega (arith, w.allocated, length-rotate_left fp.heap fp.fq value);
  };
  below = IsBelow-rotate_left fp.heap fp.fq value (IsBelow-of_not_root fp.heap fp.fq r);
}

parse_logical-Progress :
    (fp fp' : FilterParser) → IsWellFormed fp → parse_logical fp ≡ ok fp' → Progress fp fp'
unfolding parse_logical
parse_logical-Progress fp fp' w e = elim (Bool-cases (is_root fp.heap fp.fq)) [
  | inl r ↦ absurd (ground arith)
  | inr r ↦ elim (Bool-cases (has_prefix (remaining fp) (lit ",AND,"))) [
    | inl a ↦
        returned (advance 5 (record fp { heap = rotate_left fp.heap fp.fq (operator and_op) })) fp'
          (ground arith) (rotated-Progress fp (operator and_op) 4 w r)
    | inr a ↦ elim (Bool-cases (has_prefix (remaining fp) (lit ",OR,"))) [
      | inl o ↦
          returned (advance 4 (record fp { heap = rotate_left fp.heap fp.fq (operator or_op) })) fp'
            (ground arith) (rotated-Progress fp (operator or_op) 3 w r)
      | inr o ↦ absurd (ground arith)
    ]
  ]
]

-- The operator's node with its two children, as the end of `parseLeaf` makes them.
module _ (fp : FilterParser) (op : Operator) (k v : Text) where
  with_operator : Heap
  with_operator = (add_child fp.heap fp.fq (operator op)).0

  with_key : Heap
  with_key = (add_child with_operator (length fp.heap) (string k)).0

  with_value : Heap
  with_value = (add_child with_key (length fp.heap) (string v)).0

  leaf-Progress :
      (n : ℕ)
      → IsWellFormed fp
      → Progress fp (advance (n + 6) (record fp { heap = with_value; fq = length fp.heap }))
  unfolding advance with_value with_key with_operator
  leaf-Progress n w =
      let c = length fp.heap in
      let b1 = add_child-IsBelow fp.heap fp.fq (operator op) w.allocated in
      let a1 = IsBelow-lt with_operator c b1 in
      let b2 = IsBelow-add_child with_operator c c (string k) a1 b1 in
      let a2 = IsBelow-lt with_key c b2 in
      let b3 = IsBelow-add_child with_key c c (string v) a2 b2 in
      record {
        chars = refl;
        further = omega arith;
        well_formed = record {
          before = add_child-ParentsBefore with_key c (string v) a2 (
              add_child-ParentsBefore with_operator c (string k) a1
                (add_child-ParentsBefore fp.heap fp.fq (operator op) w.allocated w.before));
          allocated = IsBelow-lt with_value c b3;
        };
        below = b3;
      }

add_leaf-Progress :
    (key : Text) (op : Operator) (value : Text) (fp fp' : FilterParser)
    → IsWellFormed fp
    → add_leaf key op value fp ≡ ok fp'
    → Progress fp fp'
unfolding add_leaf with_value with_key with_operator add_child
add_leaf-Progress key op value fp fp' w e = elim (Bool-cases (is_leaf_operator op)) [
  | inl l ↦ elim (Option-cases (parse_key key)) [
    | inl n ↦ absurd (ground arith)
    | inr (k, n) ↦
        returned
          (advance (byte_length key + byte_length op + byte_length value + 6)
            (record fp { heap = with_value fp op k value; fq = length fp.heap }))
          fp' (ground arith)
          (leaf-Progress fp op k value (byte_length key + byte_length op + byte_length value) w)
  ]
  | inr l ↦ absurd (ground arith)
]

parse_leaf_parts-Progress :
    (parts : List Text) (fp fp' : FilterParser)
    → IsWellFormed fp
    → parse_leaf_parts parts fp ≡ ok fp'
    → Progress fp fp'
unfolding parse_leaf_parts
parse_leaf_parts-Progress (a ∷ op ∷ c ∷ []) fp fp' w e = add_leaf-Progress _ op _ fp fp' w e
parse_leaf_parts-Progress _ fp fp' w e = absurd (cc)

parse_leaf-Progress :
    (fp fp' : FilterParser) → IsWellFormed fp → parse_leaf fp ≡ ok fp' → Progress fp fp'
unfolding parse_leaf
parse_leaf-Progress fp fp' w e = elim (Bool-cases (is_nested fp.heap fp.fq)) [
  | inl n ↦ elim (Option-cases (find_leaf (remaining fp))) [
    | inl f ↦ absurd (ground arith)
    | inr (m, f) ↦
        parse_leaf_parts-Progress (split_n 3 (trim_prefix m (lit "'")) (lit ",")) fp fp' w
          (ground arith)
  ]
  | inr n ↦ absurd (ground arith)
]

pub parse_char-Progress :
    (c : ℕ) (fp fp' : FilterParser) → IsWellFormed fp → parse_char c fp ≡ ok fp' → Progress fp fp'
unfolding parse_char
parse_char-Progress c fp fp' w e = elim (Bool-cases (c == b'(')) [
  | inl a ↦ returned (parse_start_nested fp) fp' (ground arith) (parse_start_nested-Progress fp w)
  | inr a ↦ elim (Bool-cases (c == b')')) [
    | inl b ↦ parse_end_nested-Progress fp fp' w (ground arith)
    | inr b ↦ elim (Bool-cases (c == 39)) [
      | inl q ↦ parse_leaf-Progress fp fp' w (ground arith)
      | inr q ↦ elim (Bool-cases (c == b',')) [
        | inl l ↦ parse_logical-Progress fp fp' w (ground arith)
        | inr l ↦ absurd (ground arith)
      ]
    ]
  ]
]
