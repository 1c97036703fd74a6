-- ===== src/Checks/Methods.antt =====
-- The theorems on CreateItem and GetItem at a type of texts, over the cache of the tests.
use authzsdk.Prelude.{
  ◌≡◌, ◌≢◌, ◌⊎◌, ◌&&◌, not, refl, none, some, [], ◌∷◌, Option, true, false, Text, lit, text_eq,
  ne_of_text_eq, has_prefix, contains, arith,
}
use authzsdk.Cache.Sentinel.{
  Key, Sentinel, create, update, write_through, generate_sentinel, is_sentinel_value,
  is_tombstone_sentinel, can_always_set_sentinel,
}
use authzsdk.Cache.Store.{str}
use authzsdk.Cache.InMemory.Base.{in_mem_multi_set, get_string_keys_from_cache_keys}
use authzsdk.Cache.InMemory.Values.{get_value}
use authzsdk.Cache.InMemory.Locks.{write_sentinel, primary_refuses}
use authzsdk.Cache.Provider.{in_memory}
use authzsdk.Cache.Manager.{ItemKeys, ItemType, reply}
use authzsdk.Cache.Manager.Locks.{take_item_lock}
use authzsdk.Cache.Manager.Methods.{MethodIds, create_item, existing, get_item, get_item_client}
use authzsdk.Cache.Manager.Loads.{get_item_from_cache}
use authzsdk.Cache.Getting.{answer_of, get_item_conflict, get_item_twice}
use authzsdk.Cache.Creating.{create_releases_lock}
use authzsdk.Checks.Table.{Table, table, get, set}

-- An item whose name is its key.
abbrev item : Text → ItemKeys Key
item name = record {
  primary_key = name;
  secondary_keys = lit "n" ∷ [];
  global_collection_key = lit "c";
  global_collection_pages_key = [];
  per_item_collection_key = [];
  dependencies_key = [];
  is_modified_key = [];
  is_modified_collection_key = [];
  dependency_keys = [];
}

abbrev texts : ItemType
texts = record {
  Value = Text;
  keys = item;
  ttl = 60;
  is_valid = λ v. true;
  marshal = λ v. some v;
  unmarshal = λ b. some b;
  marshal_all = λ vs. none;
  unmarshal_all = λ b. none;
}

abbrev pub ids : MethodIds
ids = record {
  load_ids = λ n. lit "1";
  lock_ids = record { sentinel_id = lit "2"; pages_id = lit "3"; tombstone_id = lit "4" };
  save_ids = record {
    collections_id = lit "5";
    dependencies_id = lit "6";
    pages_id = lit "7";
    undo_id = lit "8";
  };
}

-- The server has every item.
abbrev fetch : Sentinel → Table → Table × Option Text
fetch conflict s = (s, some (lit "p"))

-- A server that would lose the cache.
abbrev lose : Sentinel → Table → Table × Option Text
lose conflict s = ([], none)

abbrev locked : Table
locked = (lit "p", str (generate_sentinel update (lit "9"))) ∷ []

named : lit "p" ≢ []
unfolding text_eq
named = ne_of_text_eq (lit "p") [] refl

get_item_conflict_example :
    get_item_client (in_memory table 5) texts (lit "p") false fetch (lit "0") ids locked
    ≡ answer_of (locked, some (lit "p"))
unfolding get text_eq generate_sentinel is_sentinel_value has_prefix is_tombstone_sentinel
get_item_conflict_example =
    get_item_conflict table 5 (omega arith) texts (lit "p") (generate_sentinel update (lit "9"))
      false fetch (lit "0") ids locked (omega arith) named refl refl

get_item_twice_example :
    (let first = get_item (in_memory table 5) texts (lit "p") [] false fetch (lit "0") ids [] in
      (first.1 ≡ reply (lit "p"))
      × (get_item (in_memory table 5) texts (lit "p") [] false lose (lit "0") ids first.0
          ≡ (first.0, reply (lit "p"))))
unfolding get set get_value text_eq generate_sentinel is_sentinel_value has_prefix
    is_tombstone_sentinel in_mem_multi_set
get_item_twice_example =
    get_item_twice table 5 (omega arith) texts (lit "p") (lit "p") (lit "p") fetch lose (lit "0")
      (lit "0") ids ids [] (get_value table write_through 5 (lit "p") true (lit "1") []).0
      (omega arith) named refl refl refl refl refl refl refl refl refl refl

create_releases_lock_example :
    (let p = in_memory table 5 in
      let found = get_item_from_cache p texts (lit "p") false ids.load_ids [] in
      let r =
        create_item p texts
          (some (lit "p"))
          (lit "p")
          true
          false
          []
          (λ v s. (s, some v))
          (λ v w. true)
          ids
          [] in
      ((true && not false ≡ true)
        × ((w : Text) × (existing p texts (λ v w. true) (lit "p") found.1 ≡ some w)
            × (r ≡ (found.0, reply w))))
      ⊎ (get r.0 (lit "p") ≢ some (str (generate_sentinel create (lit "2")))))
unfolding get take_item_lock write_sentinel text_eq generate_sentinel contains
    get_string_keys_from_cache_keys can_always_set_sentinel primary_refuses get_item_from_cache
    get_value
create_releases_lock_example =
    create_releases_lock table 5 texts (lit "p") (lit "p") true false [] (λ v s. (s, some v))
      (λ v w. true) ids [] (generate_sentinel create (lit "2")) (lit "p") refl refl
      (ne_of_text_eq (generate_sentinel create (lit "2")) [] refl) refl named
