-- ===== src/Cache/Sentinel.antt =====
-- infra/cache/constants.go, types.go and writethrough_sentinel_manager.go: the markers that an
-- operation in progress leaves in the cache, and the rules by which they win over one another.
pub mod Prefixes
use authzsdk.Prelude.{
  ◌≡◌, refl, Bool, true, false, not, ◌&&◌, ◌||◌, ◌++◌, [], Text, lit, has_prefix, text_eq,
  if◌then◌else◌,
}

abbrev pub Key : Type 0
Key = Text

abbrev pub Sentinel : Type 0
Sentinel = Text

pub data SentinelType : Type 0 where
  create update delete read : SentinelType

unfoldable pub is_read_type : SentinelType → Bool
is_read_type read = true
is_read_type _ = false

abbrev pub no_lock_sentinel : Sentinel
no_lock_sentinel = []

abbrev pub tombstone_sentinel_prefix : Sentinel
tombstone_sentinel_prefix = lit "Tombstone"

unfoldable pub is_tombstone_sentinel : Text → Bool
is_tombstone_sentinel v = has_prefix v tombstone_sentinel_prefix

-- The text of a fresh UUID is an argument.
unfoldable pub generate_tombstone_sentinel : Text → Sentinel
generate_tombstone_sentinel id = tombstone_sentinel_prefix ++ id

abbrev pub sentinel_prefix : Text
sentinel_prefix = lit "sentinel_"

abbrev pub read_sentinel_prefix : Text
read_sentinel_prefix = sentinel_prefix ++ lit "read_"

abbrev pub write_sentinel_prefix : Text
write_sentinel_prefix = sentinel_prefix ++ lit "write_"

abbrev pub delete_sentinel_prefix : Text
delete_sentinel_prefix = sentinel_prefix ++ lit "delete_"

unfoldable pub is_read_sentinel_prefix : Sentinel → Bool
is_read_sentinel_prefix v = has_prefix v read_sentinel_prefix

unfoldable pub is_write_sentinel_prefix : Sentinel → Bool
is_write_sentinel_prefix v = has_prefix v write_sentinel_prefix

unfoldable pub is_delete_sentinel_prefix : Sentinel → Bool
is_delete_sentinel_prefix v = has_prefix v delete_sentinel_prefix

unfoldable pub is_sentinel_value : Text → Bool
is_sentinel_value v = has_prefix v sentinel_prefix || is_tombstone_sentinel v

unfoldable pub is_invalidating_sentinel_value : Sentinel → Bool
is_invalidating_sentinel_value v = is_write_sentinel_prefix v || is_delete_sentinel_prefix v

unfoldable pub generate_sentinel : SentinelType → Text → Sentinel
generate_sentinel read id = read_sentinel_prefix ++ id
generate_sentinel create id = write_sentinel_prefix ++ id
generate_sentinel update id = write_sentinel_prefix ++ id
generate_sentinel delete id = delete_sentinel_prefix ++ id

unfoldable pub can_always_set_sentinel : Sentinel → Bool
can_always_set_sentinel new_val = false

unfoldable pub can_set_sentinel_given_curr_val : Sentinel → Sentinel → Bool
can_set_sentinel_given_curr_val curr_val new_val =
    if is_read_sentinel_prefix new_val
    then false
    else if is_delete_sentinel_prefix curr_val
    then false
    else true

-- The four results of `CanSetValue`.
pub record Verdict : Type 0 where
  pub set : Bool
  pub clear : Bool
  pub conflict : Bool
  pub refresh : Bool

abbrev pub nothing : Verdict
nothing = record { set = false; clear = false; conflict = false; refresh = false }

unfoldable pub can_set_value : Text → Text → Sentinel → Verdict
can_set_value curr_val val sentinel =
    if text_eq curr_val sentinel
    then record nothing { set = true }
    else if is_write_sentinel_prefix sentinel
    then (if not (is_sentinel_value curr_val) && not (text_eq val curr_val)
        then (if not (is_tombstone_sentinel curr_val)
            then record nothing { clear = true }
            else nothing)
        else if has_prefix curr_val sentinel
        then record nothing { clear = true }
        else if is_write_sentinel_prefix curr_val
        then record nothing { conflict = true }
        else nothing)
    else nothing

-- The `SentinelManager` interface, that a provider takes.
pub record SentinelManager : Type 0 where
  pub generate : SentinelType → Text → Sentinel
  pub can_always_set : Sentinel → Bool
  pub can_set_given : Sentinel → Sentinel → Bool
  pub can_set : Text → Text → Sentinel → Verdict
  pub is_sentinel : Text → Bool

abbrev pub write_through : SentinelManager
write_through = record {
  generate = generate_sentinel;
  can_always_set = can_always_set_sentinel;
  can_set_given = can_set_sentinel_given_curr_val;
  can_set = can_set_value;
  is_sentinel = is_sentinel_value;
}
