-- ===== src/Cache/InMemory/Base.antt =====
-- infra/cache/inmemory_provider.go: the loops over keys that its methods share.
use authzsdk.Prelude.{
  ℕ, Option, none, some, List, [], ◌∷◌, Bool, true, false, ◌&&◌, Text, text_eq, if◌then◌else◌,
  is_some,
}
use authzsdk.Cache.Sentinel.{Key}
use authzsdk.Cache.Store.{Item, str, arr, GoCache}

pub data Error : Type 0 where
  no_keys lengths_differ key_tombstoned : Error

pub data Result {ℓ} (A : Type ℓ) : Type ℓ where
  ok : A → Result A
  err : Error → Result A

abbrev pub mem_sentinel_ttl : ℕ
mem_sentinel_ttl = 70

abbrev pub invalidation_tombstone_ttl : ℕ
invalidation_tombstone_ttl = 5

-- `x.(string)` of what `Get` found.
abbrev pub as_string : Option Item → Option Text
as_string (some (str v)) = some v
as_string (some (arr l)) = none
as_string none = none

-- The same, with the zero value of a failed assertion.
abbrev pub string_or_empty : Option Item → Text
string_or_empty (some (str v)) = v
string_or_empty (some (arr l)) = []
string_or_empty none = []

unfoldable pub get_string_keys_from_cache_keys : List Key → List Text
get_string_keys_from_cache_keys [] = []
get_string_keys_from_cache_keys (k ∷ keys) =
    let rest = get_string_keys_from_cache_keys keys in if text_eq k [] then rest else k ∷ rest

module _ (g : GoCache) where
  open g use {State, get, set, delete}

  unfoldable pub in_mem_multi_set : List Text → Text → Bool → ℕ → State → State × Bool
  in_mem_multi_set [] value if_not_exists ttl s = (s, true)
  in_mem_multi_set (key ∷ keys) value if_not_exists ttl s =
      let skip = if_not_exists && is_some (get s key) in
      let rest =
        in_mem_multi_set keys value if_not_exists ttl
          (if skip then s else set s key (str value) ttl) in
      (rest.0, if skip then false else rest.1)

  unfoldable pub in_mem_multi_get : List Text → State → List Text
  in_mem_multi_get [] s = []
  in_mem_multi_get (key ∷ keys) s = string_or_empty (get s key) ∷ in_mem_multi_get keys s

  unfoldable pub in_mem_multi_delete : List Text → State → State
  in_mem_multi_delete [] s = s
  in_mem_multi_delete (key ∷ keys) s = in_mem_multi_delete keys (delete s key)

  -- A key that is found is set again to what it holds.
  unfoldable pub refresh : Text → ℕ → Option Item → State → State
  refresh key ttl (some v) s = set s key v ttl
  refresh key ttl none s = s

  unfoldable pub in_mem_multi_expire : List Text → ℕ → State → State × Bool
  unfolding refresh
  in_mem_multi_expire [] ttl s = (s, true)
  in_mem_multi_expire (key ∷ keys) ttl s =
      in_mem_multi_expire keys ttl (refresh key ttl (get s key) s)
