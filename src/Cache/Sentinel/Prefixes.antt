-- ===== src/Cache/Sentinel/Prefixes.antt =====
-- The classes of sentinels: what `GenerateSentinel` makes, and that no text is in two classes.
use authzsdk.Prelude.{
  ◌≡◌, ◌≢◌, true, false, not, ◌||◌, [], Text, has_prefix, has_prefix_split, text_eq, arith,
}
use authzsdk.Cache.Sentinel.{
  Sentinel, SentinelType, create, delete, is_read_type, is_tombstone_sentinel,
  generate_tombstone_sentinel, tombstone_sentinel_prefix, read_sentinel_prefix,
  write_sentinel_prefix, delete_sentinel_prefix, is_read_sentinel_prefix, is_write_sentinel_prefix,
  is_delete_sentinel_prefix, is_sentinel_value, generate_sentinel,
}

-- What is asked of a sentinel of a type.
pub record IsOfType (stype : SentinelType) (v : Sentinel) : Type 0 where
  pub marked : is_sentinel_value v ≡ true
  pub live : is_tombstone_sentinel v ≡ false
  pub reads : is_read_sentinel_prefix v ≡ is_read_type stype
  pub writes_or_deletes :
      (is_write_sentinel_prefix v || is_delete_sentinel_prefix v) ≡ not (is_read_type stype)
  pub deletes : stype ≡ delete → is_delete_sentinel_prefix v ≡ true
  pub writes : stype ≢ delete → is_delete_sentinel_prefix v ≡ false
  pub nonempty : text_eq v [] ≡ false

-- A generated sentinel, whatever the UUID, is a sentinel value and no tombstone; it has the read
-- prefix exactly if its type is read, the write or the delete prefix exactly if it is not, and the
-- delete prefix exactly if its type is delete.
pub generate_sentinel-IsOfType :
    (stype : SentinelType) (id : Text) → IsOfType stype (generate_sentinel stype id)
unfolding generate_sentinel is_sentinel_value is_tombstone_sentinel is_read_sentinel_prefix
    is_write_sentinel_prefix is_delete_sentinel_prefix is_read_type has_prefix text_eq
generate_sentinel-IsOfType create id = ground arith
generate_sentinel-IsOfType _ id = ground arith

-- A write sentinel is no read sentinel, no delete sentinel and no tombstone.
pub write_class :
    (v : Sentinel)
    → is_write_sentinel_prefix v ≡ true
    → (is_read_sentinel_prefix v ≡ false)
      × (is_delete_sentinel_prefix v ≡ false)
      × (is_tombstone_sentinel v ≡ false)
      × (is_sentinel_value v ≡ true)
unfolding is_read_sentinel_prefix is_write_sentinel_prefix is_delete_sentinel_prefix
    is_tombstone_sentinel is_sentinel_value has_prefix
write_class v h =
    let (t, e) = has_prefix_split v write_sentinel_prefix h in (rw e, rw e, rw e, rw e)

-- A delete sentinel is no read sentinel and no tombstone.
pub delete_class :
    (v : Sentinel)
    → is_delete_sentinel_prefix v ≡ true
    → (is_read_sentinel_prefix v ≡ false)
      × (is_write_sentinel_prefix v ≡ false)
      × (is_tombstone_sentinel v ≡ false)
      × (is_sentinel_value v ≡ true)
unfolding is_read_sentinel_prefix is_write_sentinel_prefix is_delete_sentinel_prefix
    is_tombstone_sentinel is_sentinel_value has_prefix
delete_class v h =
    let (t, e) = has_prefix_split v delete_sentinel_prefix h in (rw e, rw e, rw e, rw e)

-- A read sentinel is a sentinel value and no tombstone.
pub read_class :
    (v : Sentinel)
    → is_read_sentinel_prefix v ≡ true
    → (is_write_sentinel_prefix v ≡ false)
      × (is_delete_sentinel_prefix v ≡ false)
      × (is_tombstone_sentinel v ≡ false)
      × (is_sentinel_value v ≡ true)
      × (v ≢ [])
unfolding is_read_sentinel_prefix is_write_sentinel_prefix is_delete_sentinel_prefix
    is_tombstone_sentinel is_sentinel_value has_prefix
read_class v h =
    let (t, e) = has_prefix_split v read_sentinel_prefix h in (rw e, rw e, rw e, rw e, rw e (cc))

-- A tombstone is a sentinel value of no operation.
pub tombstone_class :
    (v : Sentinel)
    → is_tombstone_sentinel v ≡ true
    → (is_read_sentinel_prefix v ≡ false)
      × (is_write_sentinel_prefix v ≡ false)
      × (is_delete_sentinel_prefix v ≡ false)
      × (is_sentinel_value v ≡ true)
unfolding is_read_sentinel_prefix is_write_sentinel_prefix is_delete_sentinel_prefix
    is_tombstone_sentinel is_sentinel_value has_prefix
tombstone_class v h =
    let (t, e) = has_prefix_split v tombstone_sentinel_prefix h in (rw e, rw e, rw e, rw e)

pub generate_tombstone_lem :
    (id : Text) → is_tombstone_sentinel (generate_tombstone_sentinel id) ≡ true
unfolding is_tombstone_sentinel generate_tombstone_sentinel has_prefix
generate_tombstone_lem id = ground arith
