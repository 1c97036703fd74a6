-- ===== src/Cache/Manager.antt =====
-- infra/cache/api.go: what a manager needs of a type of items, and what it replies.
pub mod Locks
pub mod Loads
pub mod Saves
pub mod Methods
use authzsdk.Prelude.{ℕ, List, [], ◌∷◌, Text, Option, Bool}
use authzsdk.Cache.Sentinel.{Key}

-- The keys of an item, under one provider of names: `K` is what a name is.
pub record ItemKeys (K : Type 0) : Type 0 where
  pub primary_key : K
  pub secondary_keys : List K
  pub global_collection_key : K
  pub global_collection_pages_key : K
  pub per_item_collection_key : K
  pub dependencies_key : K
  pub is_modified_key : K
  pub is_modified_collection_key : K
  pub dependency_keys : List K

-- A type that implements SingleItem, with its keys under the manager's names, its time to live under
-- the manager's provider of these, and package encoding/json on its values and on slices of them.
pub record ItemType : Type 1 where
  pub Value : Type 0
  pub keys : Value → ItemKeys Key
  pub ttl : ℕ
  pub is_valid : Value → Bool
  pub marshal : Value → Option Text
  pub unmarshal : Text → Option Value
  pub marshal_all : List Value → Option Text
  pub unmarshal_all : Text → Option (List Value)

pub data CacheError : Type 0 where
  provider_failed lock_conflict unexpected_lock_type unmarshal_failed : CacheError
  nil_input invalid_item action_failed : CacheError

pub data Reply {ℓ} (A : Type ℓ) : Type ℓ where
  reply : A → Reply A
  failed : CacheError → Reply A

-- A key that is in use.
abbrev pub given : Key → List Key
given [] = []
given (c ∷ k) = (c ∷ k) ∷ []
