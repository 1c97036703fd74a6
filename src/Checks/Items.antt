-- ===== src/Checks/Items.antt =====
-- The theorems on values, dependency lists and removals at concrete inputs.
use authzsdk.Prelude.{
  ◌≡◌, ◌≢◌, refl, none, some, [], ◌∷◌, map, true, false, not, ◌&&◌, Text, lit, text_eq,
  ne_of_text_eq, has_prefix, contains, if◌then◌else◌, arith,
}
use authzsdk.Cache.Sentinel.{
  read, update, write_through, generate_sentinel, is_sentinel_value, is_tombstone_sentinel,
}
use authzsdk.Cache.Store.{str, arr}
use authzsdk.Cache.InMemory.Base.{ok, err, key_tombstoned, get_string_keys_from_cache_keys}
use authzsdk.Cache.InMemory.Values.{miss, set_value, get_value, get_values, delete_value}
use authzsdk.Cache.InMemory.Dependencies.{
  add_dependency, clear_dependencies, is_tombstoned, dependents,
}
use authzsdk.Cache.Storing.{is_stored, set_value_held, set_value_lost}
use authzsdk.Cache.Reading.{seen, fetch_store_fetch, one_read_lock, get_values-seen}
use authzsdk.Cache.Removing.{removed, replacement, get-delete_value, get-clear_dependencies}
use authzsdk.Cache.Dependents.{
  Depends, add_dependency-Depends, add_dependency_tombstoned, dependents_cleared,
}
use authzsdk.Checks.Table.{Table, table, get}

abbrev key : Text
key = lit "k"

abbrev alias : Text
alias = lit "a"

named : key ≢ []
unfolding text_eq
named = ne_of_text_eq key [] refl

abbrev mine : Text
mine = generate_sentinel update (lit "1")

abbrev held : Table
held = (key, str mine) ∷ (alias, str (lit "old")) ∷ []

some_keys : get_string_keys_from_cache_keys (key ∷ alias ∷ []) ≢ []
unfolding get_string_keys_from_cache_keys text_eq
some_keys e = cc

set_value_held_example :
    ((set_value table write_through 5 key (key ∷ alias ∷ []) (lit "new") mine 60 held).1
      ≡ ok (record { stored = true; conflict = false }))
    × ((j : Text)
        → get (set_value table write_through 5 key (key ∷ alias ∷ []) (lit "new") mine 60 held).0 j
          ≡ (if contains (key ∷ alias ∷ []) j && not (text_eq j [])
              then some (str (lit "new"))
              else get held j))
unfolding get text_eq
set_value_held_example =
    set_value_held table 5 key (key ∷ alias ∷ []) (lit "new") mine 60 held (omega arith) named
      some_keys refl

abbrev theirs : Text
theirs = generate_sentinel update (lit "2")

not_theirs : get held key ≢ some (str theirs)
unfolding get text_eq generate_sentinel
not_theirs e = ne_of_text_eq mine theirs refl (cc)

set_value_lost_example :
    (is_stored (set_value table write_through 5 key (key ∷ alias ∷ []) (lit "new") theirs 60 held).1
      ≡ false)
    × ((j : Text)
        → get
            (set_value table write_through 5 key (key ∷ alias ∷ []) (lit "new") theirs 60 held).0
            j
          ≡ some (str (lit "new"))
        → get held j ≡ some (str (lit "new")))
unfolding is_sentinel_value is_tombstone_sentinel has_prefix
set_value_lost_example =
    set_value_lost table 5 key (key ∷ alias ∷ []) (lit "new") theirs 60 held refl not_theirs

fetch_store_fetch_example :
    (let t = (get_value table write_through 5 key true (lit "3") []).0 in
      let u =
        set_value table write_through 5 key
          (key ∷ [])
          (lit "v")
          (generate_sentinel read (lit "3"))
          60
          t in
      (is_stored u.1 ≡ true)
      × (get_value table write_through 5 key true (lit "4") u.0
          ≡ (u.0, ok (record miss { value = some (lit "v") }))))
unfolding get contains text_eq is_sentinel_value is_tombstone_sentinel has_prefix
fetch_store_fetch_example =
    fetch_store_fetch table 5 key (key ∷ []) (lit "3") (lit "4") (lit "v") true 60 [] named refl
      refl refl (omega arith)

one_read_lock_example :
    (let t = (get_value table write_through 5 key true (lit "3") []).0 in
      get_value table write_through 5 key true (lit "4") t
      ≡ (t, ok (record miss { conflict = some (generate_sentinel read (lit "3")) })))
unfolding get
one_read_lock_example = one_read_lock table 5 key (lit "3") (lit "4") [] named refl

get_values-seen_example :
    get_values table write_through 5
      (key ∷ alias ∷ key ∷ [])
      (false ∷ false ∷ false ∷ [])
      (λ i. lit "3")
      held
    ≡ (held, ok (map (λ k. seen (get held k)) (key ∷ alias ∷ key ∷ [])))
unfolding text_eq
get_values-seen_example =
    get_values-seen table 5 (key ∷ alias ∷ key ∷ []) (false ∷ false ∷ false ∷ []) (λ i. lit "3")
      held refl (named, (ne_of_text_eq alias [] refl, (named, tt))) (refl, (refl, (refl, tt)))

get-delete_value_example :
    get (delete_value table write_through 5 (key ∷ alias ∷ []) true false (lit "3") held) alias ≡ (
      if contains (key ∷ alias ∷ []) alias && not (text_eq alias [])
      then removed false (replacement true (lit "3")) (get held alias)
      else get held alias)
get-delete_value_example =
    get-delete_value table 5 (omega arith) (key ∷ alias ∷ []) true false (lit "3") held alias

abbrev listed : Table
listed = (lit "d", arr (alias ∷ [])) ∷ held

get-clear_dependencies_example :
    get (clear_dependencies table 5 (lit "d") true (lit "3") listed).0 alias ≡ (
      if text_eq (lit "d") alias
      then (if not true && is_tombstoned (get listed (lit "d"))
          then get listed (lit "d")
          else replacement true (lit "3"))
      else if contains (dependents (get listed (lit "d"))) alias
      then none
      else get listed alias)
unfolding text_eq
get-clear_dependencies_example =
    get-clear_dependencies table 5 (omega arith) (lit "d") true (lit "3") listed alias
      (ne_of_text_eq (lit "d") [] refl)

add_dependency-Depends_example :
    Depends table
      (key ∷ alias ∷ [])
      (lit "d")
      (add_dependency table (lit "d" ∷ []) (key ∷ alias ∷ []) 60 listed).0
unfolding add_dependency contains text_eq get get_string_keys_from_cache_keys
add_dependency-Depends_example =
    add_dependency-Depends table (lit "d" ∷ []) (key ∷ alias ∷ []) 60 listed (lit "d") (omega arith)
      refl (ne_of_text_eq (lit "d") [] refl) refl

abbrev tombstoned : Table
tombstoned = (lit "d", str (lit "Tombstone1")) ∷ held

add_dependency_tombstoned_example :
    (add_dependency table (lit "e" ∷ lit "d" ∷ []) (key ∷ []) 60 tombstoned).1 ≡ err key_tombstoned
unfolding contains text_eq get is_tombstone_sentinel has_prefix
add_dependency_tombstoned_example =
    add_dependency_tombstoned table (lit "e" ∷ lit "d" ∷ []) (key ∷ []) 60 tombstoned (lit "d")
      (lit "Tombstone1") (omega arith) (ne_of_text_eq (lit "d") [] refl) refl refl refl

dependents_cleared_example :
    get
      (clear_dependencies table 5
        (lit "d")
        true
        (lit "3")
        (add_dependency table (lit "d" ∷ []) (key ∷ []) 60 listed).0).0
      key
    ≡ none
unfolding add_dependency contains text_eq get get_string_keys_from_cache_keys
dependents_cleared_example =
    dependents_cleared table (lit "d" ∷ []) (key ∷ []) 60 5 listed (lit "d") key true (lit "3")
      (omega arith) (omega arith) refl (ne_of_text_eq (lit "d") [] refl) refl named refl
      (ne_of_text_eq key (lit "d") refl)
