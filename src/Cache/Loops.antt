-- ===== src/Cache/Loops.antt =====
-- What the loops of infra/cache/inmemory_provider.go leave in the map, key by key.
use authzsdk.Prelude.{
  ℕ, ◌<◌, ◌≡◌, refl, ap, ◌∙◌, inl, inr, Option-cases, text_eq_refl, Option, none, some, List, [],
  ◌∷◌, Bool, false, not, ◌&&◌, Text, text_eq, eq_of_text_eq, contains, if◌then◌else◌, arith,
}
use authzsdk.Cache.Sentinel.{Sentinel}
use authzsdk.Cache.Store.{Item, str, arr, GoCache}
use authzsdk.Cache.InMemory.Base.{
  string_or_empty, in_mem_multi_set, in_mem_multi_get, in_mem_multi_delete, in_mem_multi_expire,
  refresh,
}
use authzsdk.Cache.InMemory.Locks.{keys_to_clear}

-- The string that the item is, if it is not empty.
abbrev pub is_str : Option Item → Text → Bool
is_str (some (str v)) t = text_eq v t
is_str (some (arr l)) t = false
is_str none t = false

module _ (g : GoCache) where
  open g use {State, get, get-set, get-delete}

  pub get-multi_set :
      (ks : List Text) (v : Text) (ttl : ℕ) (s : State) (j : Text)
      → 0 < ttl
      → get (in_mem_multi_set g ks v false ttl s).0 j
        ≡ (if contains ks j then some (str v) else get s j)
  unfolding in_mem_multi_set contains
  get-multi_set [] v ttl s j h = refl
  get-multi_set (k ∷ ks) v ttl s j h =
      ground
        (arith, get-multi_set ks v ttl (g.set s k (str v) ttl) j h, get-set s k j (str v) ttl h)

  pub get-multi_delete :
      (ks : List Text) (s : State) (j : Text)
      → get (in_mem_multi_delete g ks s) j ≡ (if contains ks j then none else get s j)
  unfolding in_mem_multi_delete contains
  get-multi_delete [] s j = refl
  get-multi_delete (k ∷ ks) s j =
      ground (arith, get-multi_delete ks (g.delete s k) j, get-delete s k j)

  -- Setting a key again to what it holds changes no key.
  pub get-refresh :
      (k : Text) (ttl : ℕ) (s : State) (j : Text)
      → 0 < ttl
      → get (refresh g k ttl (get s k) s) j ≡ get s j
  unfolding refresh
  get-refresh k ttl s j h = elim (Option-cases (get s k)) [
    | inl e ↦ rw e
    | inr (v, e) ↦
        rw (e, refresh) (ground (arith, get-set s k j v ttl h, eq_of_text_eq k j, ap (get s)))
  ]

  pub get-multi_expire :
      (ks : List Text) (ttl : ℕ) (s : State) (j : Text)
      → 0 < ttl
      → get (in_mem_multi_expire g ks ttl s).0 j ≡ get s j
  unfolding in_mem_multi_expire
  get-multi_expire [] ttl s j h = refl
  get-multi_expire (k ∷ ks) ttl s j h =
      get-multi_expire ks ttl (refresh g k ttl (get s k) s) j h ∙ get-refresh k ttl s j h

  -- `ReleaseSentinel` picks the keys that hold exactly the sentinel.
  pub contains-keys_to_clear :
      (sentinel : Sentinel) (ks : List Text) (s : State) (j : Text)
      → contains (keys_to_clear sentinel ks (in_mem_multi_get g ks s)) j
        ≡ (contains ks j && (not (text_eq sentinel []) && is_str (get s j) sentinel))
  unfolding keys_to_clear in_mem_multi_get contains
  contains-keys_to_clear sentinel [] s j = refl
  contains-keys_to_clear sentinel (k ∷ ks) s j = ground (
    arith,
    contains-keys_to_clear sentinel ks s j,
    eq_of_text_eq k j,
    eq_of_text_eq (string_or_empty (get s k)) sentinel,
    text_eq_refl sentinel,
  )
