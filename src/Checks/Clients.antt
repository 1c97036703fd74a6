-- ===== src/Checks/Clients.antt =====
-- The theorems on the authz client at a concrete setup, over the cache of the tests.
use authzsdk.Prelude.{
  ◌≡◌, ◌≢◌, refl, none, some, [], List, Bool, true, false, Text, lit, text_eq, ne_of_text_eq, arith,
}
use authzsdk.Cache.Sentinel.{read, generate_sentinel}
use authzsdk.Cache.Store.{str}
use authzsdk.Pagination.Types.{ResponseFields}
use authzsdk.Cache.Provider.{in_memory}
use authzsdk.Authz.KeyNames.{get_key_name}
use authzsdk.Authz.Models.{Object}
use authzsdk.Authz.Client.{Sent, answer, broken, Api, Options}
use authzsdk.Authz.Client.Types.{Setup, Codec, ttl_of, new_ttl_provider, object_with_id}
use authzsdk.Authz.Client.Creates.{create_object}
use authzsdk.Authz.Client.Paths.{CheckAttributeResponse, path_key, check_attribute}
use authzsdk.Authz.Identity.{create_object_id}
use authzsdk.Authz.PathChecks.{check_attribute_releases, check_attribute_negative}
use authzsdk.Cache.Manager.Methods.{create_item}
use authzsdk.Authz.Models.{validate_object}
use authzsdk.Cache.Manager.Loads.{get_item_from_cache}
use authzsdk.Cache.InMemory.Values.{get_value}
use authzsdk.Cache.Manager.Locks.{take_item_lock}
use authzsdk.Cache.InMemory.Locks.{write_sentinel, primary_refuses}
use authzsdk.Cache.InMemory.Base.{get_string_keys_from_cache_keys}
use authzsdk.Authz.Items.{object_keys}
use authzsdk.Cache.Sentinel.{can_always_set_sentinel}
use authzsdk.Checks.Table.{Table, table, get, set}
use authzsdk.Checks.Methods.{ids}

abbrev pub setup : Setup
setup = record {
  is_nil = text_eq (lit "0");
  base = lit "authz";
  ttls = new_ttl_provider 600 600 300 30 0;
}

abbrev pub options : Options
options = record { if_not_exists = true; bypass_cache = false; organization_id = lit "0" }

-- A codec of values that are not kept.
abbrev pub forgetful : {A : Type 0} → Codec A
forgetful = record {
  marshal = λ v. none;
  unmarshal = λ b. none;
  marshal_all = λ vs. some (lit "l");
  unmarshal_all = λ b. none;
}

abbrev pub one_page : Bool → ResponseFields
one_page more = record { has_next = more; next = []; has_prev = false; prev = [] }

-- A server that makes what it is asked for, and has one page of what it has.
abbrev pub serving : {A : Type 0} → A → List A → Bool → Api Table A
serving a as1 more = record {
  get = λ path s. (s, answer a);
  get_page = λ path query s. (s, answer (record { data_ = as1; response = one_page more }));
  post = λ path input s. (s, answer input);
  delete = λ path s. (s, answer tt);
}

kept : {a b : Object} → answer a ≡ answer b → b.id ≡ a.id
kept h = cc

create_object_id_example : lit "7" ≡ lit "7"
unfolding create_object text_eq create_item validate_object get_item_from_cache ttl_of get_value
    get_key_name get take_item_lock write_sentinel get_string_keys_from_cache_keys object_keys
    can_always_set_sentinel primary_refuses
create_object_id_example =
    create_object_id (in_memory table 5) setup options forgetful
      (serving (object_with_id (lit "0") (lit "7")) [] false) (lit "9") (lit "7") (lit "2") [] ids
      [] _ refl (λ path input b s h. kept h) refl

abbrev negative : CheckAttributeResponse
negative = record { has_attribute = false; path = [] }

check_attribute_releases_example :
    get
      (check_attribute
        (in_memory table 5)
        setup
        options
        forgetful
        forgetful
        (λ path query s. (s, broken))
        (lit "0")
        (lit "a")
        (lit "b")
        (lit "view")
        (λ n. lit "1")
        []).0
      (path_key setup (lit "a") (lit "b") (lit "view"))
    ≢ some (str (generate_sentinel read (lit "1")))
unfolding get get_key_name ttl_of text_eq
check_attribute_releases_example =
    check_attribute_releases table 5 setup options forgetful forgetful (λ path query s. (s, broken))
      (lit "0") (lit "a") (lit "b") (lit "view") (λ n. lit "1") [] refl (omega arith)
      (ne_of_text_eq (path_key setup (lit "a") (lit "b") (lit "view")) [] refl) refl

-- A server that says no while another client writes a value into another key.
abbrev busy : Text → List (Text × Text) → Table → Table × Sent CheckAttributeResponse
busy path pairs s = (set s (lit "x") (str (lit "v")) 5, answer negative)

check_attribute_negative_example :
    get
      (check_attribute
        (in_memory table 5)
        setup
        options
        forgetful
        forgetful
        busy
        (lit "0")
        (lit "a")
        (lit "b")
        (lit "view")
        (λ n. lit "1")
        []).0
      (path_key setup (lit "a") (lit "b") (lit "view"))
    ≡ none
unfolding get set get_key_name ttl_of text_eq
check_attribute_negative_example =
    check_attribute_negative table 5 setup options forgetful forgetful busy (lit "0") (lit "a")
      (lit "b") (lit "view") (λ n. lit "1") [] negative refl (omega arith)
      (ne_of_text_eq (path_key setup (lit "a") (lit "b") (lit "view")) [] refl) refl refl
      (λ path query u. (set u (lit "x") (str (lit "v")) 5, refl, λ h. h))
