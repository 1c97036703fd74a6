-- ===== src/Cache/Store.antt =====
-- The expiring map of package github.com/patrickmn/go-cache, which infra/cache rests on, as a
-- parameter: the type of its states, its operations, and their documented behaviour.
use authzsdk.Prelude.{
  ℕ, ◌<◌, ◌≡◌, ◌⊎◌, Option, none, some, List, true, Text, text_eq, contains, if◌then◌else◌,
}

-- What infra/cache puts in the map: a string, or the string array of a dependency list.
pub data Item : Type 0 where
  str : Text → Item
  arr : List Text → Item

pub record GoCache : Type 1 where
  -- cache.Cache at one instant
  pub State : Type 0
  -- New
  pub empty : State
  -- Get, which finds no expired item
  pub get : State → Text → Option Item
  -- Set, with a duration in seconds
  pub set : State → Text → Item → ℕ → State
  -- Delete
  pub delete : State → Text → State
  -- The keys of Items, in some order
  pub keys : State → List Text
  pub contains-keys :
      (s : State) (k : Text) (v : Item) → get s k ≡ some v → contains (keys s) k ≡ true
  pub get-empty : (k : Text) → get empty k ≡ none
  -- What has just been set with a positive duration is found.
  pub get-set :
      (s : State) (k j : Text) (v : Item) (ttl : ℕ)
      → 0 < ttl
      → get (set s k v ttl) j ≡ (if text_eq k j then some v else get s j)
  pub get-delete :
      (s : State) (k j : Text) → get (delete s k) j ≡ (if text_eq k j then none else get s j)

-- Time passes: items may expire, and nothing else changes.
pub record Expires (g : GoCache) (s t : g.State) : Type 0 where
  pub kept : (k : Text) → (g.get t k ≡ none) ⊎ (g.get t k ≡ g.get s k)
