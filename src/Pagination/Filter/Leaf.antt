-- ===== src/Pagination/Filter/Leaf.antt =====
-- infra/pagination/filter_parser.go: the leaf of a filter, `'KEY',OPERATOR,'VALUE')`, by the regular
-- expression `'[^']+',[A-Z]+,'.*?[^\\]'[)]`, and the rewriting of its key.
-- Texts are lists of code points here, as `strings.Split(filter, "")` makes them.
use authzsdk.Prelude.{
  ℕ, ◌+◌, Option, none, some, List, [], ◌∷◌, ◌++◌, Bool, not, ◌&&◌, Text, lit, has_prefix, split,
  split_n, cut, length, if◌then◌else◌, ltb, leb, ◌==◌, drop,
}

-- The bytes of a code point in UTF-8, and `len` of a string.
unfoldable pub utf8_width : ℕ → ℕ
utf8_width c = if ltb c 0x80 then 1 else if ltb c 0x800 then 2 else if ltb c 0x10000 then 3 else 4

unfoldable pub byte_length : Text → ℕ
unfolding utf8_width
byte_length [] = 0
byte_length (c ∷ s) = utf8_width c + byte_length s

-- A maximal run of characters, and what is behind it.
unfoldable pub span : (ℕ → Bool) → Text → Text × Text
span p [] = ([], [])
span p (c ∷ s) = let rest = span p s in if p c then (c ∷ rest.0, rest.1) else ([], c ∷ s)

abbrev not_quote : ℕ → Bool
not_quote c = not (c == 39)

abbrev upper_case : ℕ → Bool
upper_case c = leb b'A' c && leb c b'Z'

-- `.*?[^\\]'[)]`: the shortest text of this form, all of it.
unfoldable pub match_value : Text → Option Text
match_value [] = none
match_value (c ∷ s) =
    let more = match_value s in
    if not (c == 92) && has_prefix s (lit "')")
    then some (c ∷ lit "')")
    else if c == 0x0a
    then none
    else elim more [ none ↦ none | some v ↦ some (c ∷ v) ]

-- `[A-Z]+,'.*?[^\\]'[)]`
unfoldable pub match_operator : Text → Option Text
unfolding span match_value
match_operator s =
    let op = span upper_case s in
    if length op.0 == 0
    then none
    else if has_prefix op.1 (lit ",'")
    then elim (match_value (drop 2 op.1)) [ none ↦ none | some v ↦ some (op.0 ++ (lit ",'" ++ v)) ]
    else none

-- `[^']+',[A-Z]+,'.*?[^\\]'[)]`
unfoldable pub match_key : Text → Option Text
unfolding match_operator
match_key s =
    let key = span not_quote s in
    if length key.0 == 0
    then none
    else if has_prefix key.1 (lit "',")
    then elim (match_operator (drop 2 key.1)) [
      | none ↦ none
      | some v ↦ some (key.0 ++ (lit "'," ++ v))
    ]
    else none

-- `leafFilter.FindString`: the match that begins first.
unfoldable pub find_leaf : Text → Option Text
unfolding match_key
find_leaf [] = none
find_leaf (c ∷ s) =
    let later = find_leaf s in
    let here : Option Text = if c == 39 then match_key s else none in
    elim here [ none ↦ later | some m ↦ some (c ∷ m) ]

-- The second half of `parseKey`, by the parts around `->`.
unfoldable pub json_object_key : List Text → Text → Option Text
json_object_key (a ∷ b ∷ []) key = some (a ++ (lit "->'" ++ (b ++ lit "'")))
json_object_key (a ∷ []) key = some key
json_object_key _ key = none

-- `parseKey`, by the parts around `->>`: `none` where the key is not valid.
unfoldable pub json_text_key : List Text → Text → Option Text
unfolding json_object_key split split_n cut
json_text_key (a ∷ b ∷ []) key = some (a ++ (lit "->>'" ++ (b ++ lit "'")))
json_text_key _ key = json_object_key (split key (lit "->")) key

unfoldable pub parse_key : Text → Option Text
unfolding json_text_key
parse_key key = json_text_key (split key (lit "->>")) key
