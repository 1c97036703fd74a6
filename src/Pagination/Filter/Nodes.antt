-- ===== src/Pagination/Filter/Nodes.antt =====
-- infra/pagination/filter_query.go: the nodes of a query tree. They point to one another and are
-- changed in place, so they stand in a heap; a pointer is a position in it.
use authzsdk.Prelude.{
  ℕ, zero, suc, Option, none, some, List, [], ◌∷◌, ◌++◌, Bool, true, false, Text, length, get_elem?,
}
use authzsdk.Pagination.Filter.Operators.{Operator}

-- The field `value any`: nil, the constant `nested`, an operator, or a string.
pub data Value : Type 0 where
  nil nested : Value
  operator : Operator → Value
  string : Text → Value

pub record FilterQuery : Type 0 where
  pub value : Value
  pub parent : Option ℕ
  pub left_child : Option ℕ
  pub right_child : Option ℕ

abbrev pub Heap : Type 0
Heap = List FilterQuery

-- `&FilterQuery{}`
abbrev pub empty_query : FilterQuery
empty_query = record { value = nil; parent = none; left_child = none; right_child = none }

-- A read of the node behind a pointer. Every pointer in use is allocated.
abbrev pub node_or_empty : Option FilterQuery → FilterQuery
node_or_empty (some n) = n
node_or_empty none = empty_query

abbrev pub node : Heap → ℕ → FilterQuery
node h fq = node_or_empty (get_elem? h fq)

-- A write through a pointer.
unfoldable pub update : Heap → ℕ → FilterQuery → Heap
update [] i n = []
update (m ∷ h) zero n = n ∷ h
update (m ∷ h) (suc i) n = m ∷ update h i n

-- The node with a new first or second child.
abbrev pub with_child : FilterQuery → ℕ → FilterQuery
with_child n child = elim n.left_child [
  | none ↦ record n { left_child = some child }
  | some c ↦ record n { right_child = some child }
]

unfoldable pub add_child : Heap → ℕ → Value → Heap × ℕ
add_child h fq value =
    let child = length h in
    (
      update h fq (with_child (node h fq) child)
          ++ record { value = value; parent = some fq; left_child = none; right_child = none } ∷ [],
      child,
    )

unfoldable pub is_nested : Heap → ℕ → Bool
is_nested h fq = elim (node h fq).value [ nested ↦ true | _ ↦ false ]

unfoldable pub is_root : Heap → ℕ → Bool
is_root h fq = elim (node h fq).parent [ none ↦ true | some p ↦ false ]

-- The loop, on fuel.
unfoldable pub find_ancestor : ℕ → Heap → ℕ → ℕ
find_ancestor zero h fq = fq
find_ancestor (suc fuel) h fq = elim (node h fq).parent [
  | none ↦ fq
  | some p ↦ elim (is_nested h p) [ true ↦ p | false ↦ find_ancestor fuel h p ]
]

unfoldable pub rotate_left : Heap → ℕ → Value → Heap
rotate_left h fq value =
    let n = node h fq in
    update h fq (record n { value = value; left_child = some (length h); right_child = none })
    ++ record n { parent = some fq } ∷ []
