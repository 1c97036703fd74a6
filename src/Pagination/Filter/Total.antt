-- ===== src/Pagination/Filter/Total.antt =====
-- The filter parser always ends: with a query that hangs on the root, or with an error.
use authzsdk.Prelude.{
  ℕ, zero, suc, ◌+◌, ◌<◌, ◌≡◌, refl, ap, ◌⊎◌, inl, inr, none, some, List, [], ◌∷◌, Bool, true,
  false, Text, lit, length, get_elem?, arith, Option-cases, Bool-cases, ◌==◌, trim_prefix, split_n,
}
use authzsdk.Pagination.Filter.Nodes.{Heap, empty_query, node, is_root}
use authzsdk.Pagination.Filter.Leaf.{find_leaf}
use authzsdk.Pagination.Filter.Parser.{
  ParseError, Outcome, ok, err, panic, timeout, FilterParser, remaining, new_filter_parser,
  parse_end_nested, parse_logical, add_leaf, parse_leaf_parts, parse_leaf, parse_char, parse_done,
  parse_loop, create_filter_query,
}
use authzsdk.Pagination.Filter.Heaps.{ParentsBefore, IsBelow, get_elem?-lt}
use authzsdk.Pagination.Filter.Rounds.{IsWellFormed, parse_char-Progress}

suc_not_zero : (n : ℕ) → (suc n == 0) ≡ false
suc_not_zero n = ground arith

-- No round reads a nil pointer.
abbrev ends {ℓ} : {A : Type ℓ} → Outcome A → Bool
ends (ok a) = true
ends (err e) = true
ends panic = false
ends timeout = false

parse_leaf_parts-ends :
    (parts : List Text) (fp : FilterParser) → ends (parse_leaf_parts parts fp) ≡ true
unfolding parse_leaf_parts add_leaf
parse_leaf_parts-ends (a ∷ op ∷ c ∷ []) fp = ground arith
parse_leaf_parts-ends _ fp = refl

parse_leaf-ends : (fp : FilterParser) → ends (parse_leaf fp) ≡ true
unfolding parse_leaf
parse_leaf-ends fp = elim (Option-cases (find_leaf (remaining fp))) [
  | inl e ↦ ground arith
  | inr (m, e) ↦
      ground (arith, parse_leaf_parts-ends (split_n 3 (trim_prefix m (lit "'")) (lit ",")) fp)
]

parse_char-ends : (c : ℕ) (fp : FilterParser) → ends (parse_char c fp) ≡ true
unfolding parse_char parse_end_nested parse_logical
parse_char-ends c fp = ground (arith, parse_leaf-ends fp)

-- The outcome of a parse that ends: an error, or a tree whose parents stand before their children,
-- with a pointer to a node that hangs on the root.
abbrev pub Finished : Outcome (Heap × ℕ) → Type 0
Finished (ok (h, fq)) =
    ParentsBefore h × ((p : ℕ) × ((node h fq).parent ≡ some p) × (is_root h p ≡ true))
Finished (err e) = Unit
Finished panic = ⊥
Finished timeout = ⊥

parse_done-Finished :
    (fp : FilterParser) → IsWellFormed fp → IsBelow fp.heap fp.fq → Finished (parse_done fp)
unfolding parse_done
parse_done-Finished fp w b = elim (Bool-cases (is_root fp.heap b.parent)) [
  | inl r ↦ rw (b.hangs, parse_done) (rw r (w.before, (b.parent, b.hangs, r)))
  | inr r ↦ rw (b.hangs, parse_done) (rw r tt)
]

Outcome-cases :
    {A : Type 0} (r : Outcome A)
    → ends r ≡ true
    → ((a : A) × (r ≡ ok a)) ⊎ ((e : ParseError) × (r ≡ err e))
Outcome-cases (ok a) h = inl (a, refl)
Outcome-cases (err e) h = inr (e, refl)
Outcome-cases panic h = absurd (cc)
Outcome-cases timeout h = absurd (cc)

module _ (fuel : ℕ) (fp : FilterParser) (c : ℕ) (found : get_elem? fp.chars fp.index ≡ some c) where
  parse_loop-ok :
      (fp' : FilterParser)
      → parse_char c fp ≡ ok fp'
      → parse_loop (suc fuel) fp ≡ parse_loop fuel fp'
  unfolding parse_loop
  parse_loop-ok fp' e = ground (arith, found, e)

  parse_loop-err : (x : ParseError) → parse_char c fp ≡ err x → parse_loop (suc fuel) fp ≡ err x
  unfolding parse_loop
  parse_loop-err x e = ground (arith, found, e)

parse_loop-Finished :
    (fuel : ℕ) (fp : FilterParser)
    → IsWellFormed fp
    → (get_elem? fp.chars fp.index ≡ none → IsBelow fp.heap fp.fq)
    → length fp.chars < fuel + fp.index
    → 0 < fuel
    → Finished (parse_loop fuel fp)
unfolding parse_loop
parse_loop-Finished zero fp w b l p = absurd (omega arith)
parse_loop-Finished (suc fuel) fp w b l p = elim (Option-cases (get_elem? fp.chars fp.index)) [
  | inl e ↦ rw (e, parse_loop) (parse_done-Finished fp w (b e))
  | inr (c, e) ↦ elim (Outcome-cases (parse_char c fp) (parse_char-ends c fp)) [
    | inl (fp', r) ↦
        let q = parse_char-Progress c fp fp' w r in
        rw (parse_loop-ok fuel fp c e fp' r) (
          parse_loop-Finished fuel fp' q.well_formed (λ _. q.below)
            (omega (arith, ap length q.chars, q.further))
            (omega (arith, get_elem?-lt fp.chars fp.index c e)))
    | inr (x, r) ↦ rw (parse_loop-err fuel fp c e x r) tt
  ]
]

empty_query-ParentsBefore : ParentsBefore (empty_query ∷ [])
empty_query-ParentsBefore zero p e = absurd (cc)
empty_query-ParentsBefore (suc i) p e = absurd (cc)

-- The parser of filter queries, on any text: it ends within as many rounds as the text has
-- characters and one more, and reads no nil pointer. Its outcome is an error, or a tree in which
-- every parent was made before its child, with a pointer to a node whose parent is the root.
pub create_filter_query-Finished : (s : Text) → Finished (create_filter_query s)
unfolding create_filter_query new_filter_parser
create_filter_query-Finished [] = tt
create_filter_query-Finished (c ∷ s) =
    let r = new_filter_parser (c ∷ s) in
    rw (suc_not_zero (length s)) (
      parse_loop-Finished (suc (length (c ∷ s))) r
        (record { before = empty_query-ParentsBefore; allocated = omega arith }) (λ e. absurd (cc))
        (omega arith) (omega arith))
