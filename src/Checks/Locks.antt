-- ===== src/Checks/Locks.antt =====
-- The theorems on `WriteSentinel` and `ReleaseSentinel` at concrete inputs.
use authzsdk.Prelude.{◌≡◌, ◌⊎◌, refl, [], ◌∷◌, true, Text, lit, text_eq, has_prefix, arith, ◌≢◌}
use authzsdk.Cache.Sentinel.{
  update, delete, write_through, generate_sentinel, is_sentinel_value, is_tombstone_sentinel,
  is_read_type, is_delete_sentinel_prefix, can_set_value, nothing, is_write_sentinel_prefix,
  no_lock_sentinel, can_always_set_sentinel, can_set_sentinel_given_curr_val,
  is_read_sentinel_prefix,
}
use authzsdk.Cache.Sentinel.Prefixes.{IsOfType, generate_sentinel-IsOfType}
use authzsdk.Cache.Store.{str}
use authzsdk.Cache.InMemory.Base.{ok, in_mem_multi_set, get_string_keys_from_cache_keys}
use authzsdk.Cache.InMemory.Locks.{write_sentinel, primary_refuses, new_keys}
use authzsdk.Cache.Granting.{Granted, write_sentinel-Granted}
use authzsdk.Cache.Storing.{can_set_value_verdicts}
use authzsdk.Checks.Table.{Table, table, get, set}

generate_sentinel-IsOfType_example : IsOfType delete (generate_sentinel delete (lit "a"))
generate_sentinel-IsOfType_example = generate_sentinel-IsOfType delete (lit "a")

abbrev key : Text
key = lit "k"

-- A secondary key is tombstoned, another one is free.
abbrev mixed : Table
mixed = (lit "t", str (lit "Tombstone1")) ∷ (key, str (lit "old")) ∷ []

write_sentinel-Granted_example :
    ((write_sentinel table write_through 5 update (key ∷ lit "t" ∷ lit "n" ∷ []) (lit "a") mixed).1
      ≡ ok (generate_sentinel update (lit "a")))
    × Granted table
        (generate_sentinel update (lit "a"))
        key
        (lit "t" ∷ lit "n" ∷ [])
        mixed
        (write_sentinel table write_through 5 update
          (key ∷ lit "t" ∷ lit "n" ∷ [])
          (lit "a")
          mixed).0
unfolding get_string_keys_from_cache_keys get text_eq is_sentinel_value is_tombstone_sentinel
    is_read_type has_prefix is_delete_sentinel_prefix
write_sentinel-Granted_example =
    write_sentinel-Granted table 5 (omega arith) update (key ∷ lit "t" ∷ lit "n" ∷ []) (lit "a") key
      (lit "t" ∷ lit "n" ∷ []) mixed refl refl

abbrev deleting : Table
deleting = (write_sentinel table write_through 5 delete (key ∷ []) (lit "a") mixed).0

-- A delete is refused its lock where another delete holds one.
delete_over_delete :
    write_sentinel table write_through 5 delete (key ∷ []) (lit "b") deleting
    ≡ (deleting, ok no_lock_sentinel)
unfolding write_sentinel get text_eq get_string_keys_from_cache_keys can_always_set_sentinel
    primary_refuses in_mem_multi_set new_keys set generate_sentinel can_set_sentinel_given_curr_val
    is_read_sentinel_prefix is_delete_sentinel_prefix is_sentinel_value is_tombstone_sentinel
    has_prefix
delete_over_delete = refl

abbrev earlier : Text
earlier = generate_sentinel update (lit "a")

abbrev later : Text
later = generate_sentinel update (lit "b")

can_set_value_verdicts_example :
    (can_set_value later (lit "v") earlier ≡ record nothing { set = true }) × (later ≡ earlier)
    ⊎ (later ≢ earlier) × (can_set_value later (lit "v") earlier ≡ nothing)
    ⊎ (later ≢ earlier)
      × (is_write_sentinel_prefix earlier ≡ true)
      × (can_set_value later (lit "v") earlier ≡ record nothing { clear = true })
    ⊎ (later ≢ earlier)
      × (is_write_sentinel_prefix earlier ≡ true)
      × (is_write_sentinel_prefix later ≡ true)
      × (can_set_value later (lit "v") earlier ≡ record nothing { conflict = true })
can_set_value_verdicts_example = can_set_value_verdicts later (lit "v") earlier
