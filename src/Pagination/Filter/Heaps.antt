-- ===== src/Pagination/Filter/Heaps.antt =====
-- What the operations on nodes do to the heap: allocation keeps the other nodes, and parents stand
-- before their children.
use authzsdk.Prelude.{
  ℕ, zero, suc, ◌+◌, ◌<◌, ◌≡◌, refl, ap, ◌⊎◌, inl, inr, none, some, List, [], ◌∷◌, ◌++◌, true,
  false, length, length-append, get_elem?, arith, Option-cases, Bool-cases, ◌==◌, if◌then◌else◌,
}
use authzsdk.Pagination.Filter.Nodes.{
  Value, FilterQuery, Heap, node, update, with_child, add_child, is_nested, is_root, find_ancestor,
  rotate_left,
}

pub length-update : (h : Heap) (i : ℕ) (n : FilterQuery) → length (update h i n) ≡ length h
unfolding update
length-update [] i n = refl
length-update (m ∷ h) zero n = refl
length-update (m ∷ h) (suc i) n = ap suc (length-update h i n)

pub get_elem?-update :
    (h : Heap) (i j : ℕ) (n : FilterQuery)
    → i < length h
    → get_elem? (update h i n) j ≡ (if i == j then some n else get_elem? h j)
unfolding update
get_elem?-update [] i j n a = elim a [ ]
get_elem?-update (m ∷ h) zero zero n a = ground arith
get_elem?-update (m ∷ h) zero (suc j) n a = ground arith
get_elem?-update (m ∷ h) (suc i) zero n a = ground arith
get_elem?-update (m ∷ h) (suc i) (suc j) n a = ground (arith, get_elem?-update h i j n)

pub get_elem?-append_last :
    {A : Type 0} (h : List A) (n : A) (j : ℕ)
    → get_elem? (h ++ n ∷ []) j ≡ (if j == length h then some n else get_elem? h j)
get_elem?-append_last [] n zero = ground arith
get_elem?-append_last [] n (suc j) = ground arith
get_elem?-append_last (m ∷ h) n zero = ground arith
get_elem?-append_last (m ∷ h) n (suc j) = ground (arith, get_elem?-append_last h n j)

pub get_elem?-lt : {A : Type 0} (h : List A) (j : ℕ) (n : A) → get_elem? h j ≡ some n → j < length h
get_elem?-lt [] j n e = cc
get_elem?-lt (m ∷ h) zero n e = omega arith
get_elem?-lt (m ∷ h) (suc j) n e = omega (arith, get_elem?-lt h j n e)

-- A node is written, and another one is allocated.
node-append_last :
    (h : Heap) (i j : ℕ) (n last : FilterQuery)
    → i < length h
    → node (update h i n ++ last ∷ []) j
      ≡ (if j == length h then last else if i == j then n else node h j)
node-append_last h i j n last a = ground (
  arith,
  get_elem?-append_last (update h i n) last j,
  get_elem?-update h i j n,
  length-update h i n,
)

-- The node behind a pointer after `rotateLeft` and `addChild`.
pub node-rotate_left :
    (h : Heap) (fq : ℕ) (value : Value) (j : ℕ)
    → fq < length h
    → node (rotate_left h fq value) j ≡ (
        if j == length h
        then record (node h fq) { parent = some fq }
        else if fq == j
        then record (node h fq) { value = value; left_child = some (length h); right_child = none }
        else node h j)
unfolding rotate_left
node-rotate_left h fq value j a =
    let n = node h fq in
    let top = record n { value = value; left_child = some (length h); right_child = none } in
    node-append_last h fq j top (record n { parent = some fq }) a

pub node-add_child :
    (h : Heap) (fq : ℕ) (value : Value) (j : ℕ)
    → fq < length h
    → node (add_child h fq value).0 j ≡ (
        if j == length h
        then record { value = value; parent = some fq; left_child = none; right_child = none }
        else if fq == j
        then with_child (node h fq) (length h)
        else node h j)
unfolding add_child
node-add_child h fq value j a =
    node-append_last h fq j (with_child (node h fq) (length h))
      (record { value = value; parent = some fq; left_child = none; right_child = none }) a

pub length-add_child :
    (h : Heap) (fq : ℕ) (value : Value) → length (add_child h fq value).0 ≡ length h + 1
unfolding add_child
length-add_child h fq value = omega (
  arith,
  length-append {0} (update h fq (with_child (node h fq) (length h)))
      (record { value = value; parent = some fq; left_child = none; right_child = none } ∷ []),
  length-update h fq (with_child (node h fq) (length h)),
)

pub length-rotate_left :
    (h : Heap) (fq : ℕ) (value : Value) → length (rotate_left h fq value) ≡ length h + 1
unfolding rotate_left
length-rotate_left h fq value =
    let n = node h fq in
    let top = record n { value = value; left_child = some (length h); right_child = none } in
    omega (
      arith,
      length-append {0} (update h fq top) (record n { parent = some fq } ∷ []),
      length-update h fq top,
    )

-- Every parent stands before its child, so that the way up ends.
abbrev pub ParentsBefore : Heap → Type 0
ParentsBefore h = (i p : ℕ) → (node h i).parent ≡ some p → p < i

-- A pointer to a node that has a parent.
pub record IsBelow (h : Heap) (fq : ℕ) : Type 0 where
  pub parent : ℕ
  pub hangs : (node h fq).parent ≡ some parent

pub IsBelow-lt : (h : Heap) (fq : ℕ) → IsBelow h fq → fq < length h
IsBelow-lt h fq b = elim (Option-cases (get_elem? h fq)) [
  | inl e ↦ absurd (ground (arith, b.hangs))
  | inr (n, e) ↦ get_elem?-lt h fq n e
]

with_child-parent : (n : FilterQuery) (c : ℕ) → (with_child n c).parent ≡ n.parent
with_child-parent n c = ground arith

pub add_child-ParentsBefore :
    (h : Heap) (fq : ℕ) (value : Value)
    → fq < length h
    → ParentsBefore h
    → ParentsBefore (add_child h fq value).0
add_child-ParentsBefore h fq value a b i p e =
    ground (arith, node-add_child h fq value i a, with_child-parent (node h fq) (length h), b i p)

pub rotate_left-ParentsBefore :
    (h : Heap) (fq : ℕ) (value : Value)
    → fq < length h
    → ParentsBefore h
    → ParentsBefore (rotate_left h fq value)
rotate_left-ParentsBefore h fq value a b i p e =
    ground (arith, node-rotate_left h fq value i a, b i p)

-- The new child hangs on its parent, and what had a parent keeps it.
pub add_child-IsBelow :
    (h : Heap) (fq : ℕ) (value : Value)
    → fq < length h
    → IsBelow (add_child h fq value).0 (length h)
add_child-IsBelow h fq value a = record {
  parent = fq;
  hangs = ground (arith, node-add_child h fq value (length h) a);
}

pub IsBelow-add_child :
    (h : Heap) (fq j : ℕ) (value : Value)
    → fq < length h
    → IsBelow h j
    → IsBelow (add_child h fq value).0 j
IsBelow-add_child h fq j value a b = record {
  parent = b.parent;
  hangs = ground (
    arith,
    node-add_child h fq value j a,
    with_child-parent (node h fq) (length h),
    b.hangs,
    IsBelow-lt h j b,
  );
}

pub IsBelow-rotate_left :
    (h : Heap) (fq : ℕ) (value : Value) → IsBelow h fq → IsBelow (rotate_left h fq value) fq
IsBelow-rotate_left h fq value b =
    let a = IsBelow-lt h fq b in
    record { parent = b.parent; hangs = ground (arith, node-rotate_left h fq value fq a, b.hangs) }

find_ancestor-up :
    (fuel : ℕ) (h : Heap) (fq p : ℕ)
    → (node h fq).parent ≡ some p
    → find_ancestor (suc fuel) h fq ≡ (if is_nested h p then p else find_ancestor fuel h p)
unfolding find_ancestor
find_ancestor-up fuel h fq p e = ground arith

find_ancestor-stay :
    (fuel : ℕ) (h : Heap) (fq : ℕ)
    → (node h fq).parent ≡ none
    → (find_ancestor (suc fuel) h fq ≡ fq) × (is_root h fq ≡ true)
unfolding find_ancestor is_root
find_ancestor-stay fuel h fq e = (ground arith, ground arith)

-- `findAncestor` ends at the root or at a nested node.
pub find_ancestor_lem :
    (fuel : ℕ) (h : Heap) (fq : ℕ)
    → ParentsBefore h
    → fq < fuel
    → (is_root h (find_ancestor fuel h fq) ≡ true) ⊎ (is_nested h (find_ancestor fuel h fq) ≡ true)
find_ancestor_lem zero h fq b l = absurd (omega arith)
find_ancestor_lem (suc fuel) h fq b l = elim (Option-cases (node h fq).parent) [
  | inl e ↦ let (stays, root) = find_ancestor-stay fuel h fq e in inl (rw stays root)
  | inr (p, e) ↦ elim (Bool-cases (is_nested h p)) [
    | inl n ↦ inr (rw (find_ancestor-up fuel h fq p e) (rw n n))
    | inr n ↦
        rw (find_ancestor-up fuel h fq p e)
          (rw n (find_ancestor_lem fuel h p b (omega (arith, b fq p e))))
  ]
]

-- What is not the root has a parent.
pub IsBelow-of_not_root : (h : Heap) (fq : ℕ) → is_root h fq ≡ false → IsBelow h fq
unfolding is_root
IsBelow-of_not_root h fq e = elim (Option-cases (node h fq).parent) [
  | inl n ↦ absurd (ground arith)
  | inr (p, s) ↦ record { parent = p; hangs = s }
]
