-- ===== src/Cache/Overlap.antt =====
-- The verdicts that two overlapping writes of one item meet in `CanSetValue`.
use authzsdk.Prelude.{
  ◌≡◌, ◌≢◌, refl, [], ◌∷◌, ◌++◌, Bool, true, false, Text, text_eq, eq_of_text_eq, has_prefix,
  has_prefix-append, has_prefix_trans, has_prefix_refl, text_eq-append, eq_of_has_prefix,
  if◌then◌else◌, arith, length,
}
use authzsdk.Cache.Sentinel.{
  Sentinel, nothing, SentinelType, create, update, delete, read, is_tombstone_sentinel,
  can_set_value, is_sentinel_value, is_write_sentinel_prefix, generate_sentinel,
  write_sentinel_prefix,
}
use authzsdk.Cache.Sentinel.Prefixes.{write_class, tombstone_class}
use authzsdk.Cache.Storing.{write_append}

-- A sentinel type of a write.
abbrev pub writes : SentinelType → Bool
writes create = true
writes update = true
writes delete = false
writes read = false

pub writes-write :
    (t : SentinelType) (id : Text)
    → writes t ≡ true
    → is_write_sentinel_prefix (generate_sentinel t id) ≡ true
unfolding generate_sentinel is_write_sentinel_prefix has_prefix
writes-write create id h = ground arith
writes-write update id h = ground arith
writes-write delete id h = cc
writes-write read id h = cc

pub write-nonempty : (x : Sentinel) → is_write_sentinel_prefix x ≡ true → text_eq x [] ≡ false
unfolding is_write_sentinel_prefix has_prefix text_eq
write-nonempty [] h = cc
write-nonempty (a ∷ x) h = refl

-- Two writes' sentinels with different UUIDs: neither is a prefix of the other.
pub not_prefix :
    (t u : SentinelType) (i j : Text)
    → writes t ≡ true
    → writes u ≡ true
    → length i ≡ length j
    → i ≢ j
    → has_prefix (generate_sentinel t i) (generate_sentinel u j) ≡ false
unfolding generate_sentinel has_prefix
not_prefix create create i j w v e ne = ground (arith, eq_of_has_prefix i j)
not_prefix create update i j w v e ne = ground (arith, eq_of_has_prefix i j)
not_prefix update create i j w v e ne = ground (arith, eq_of_has_prefix i j)
not_prefix update update i j w v e ne = ground (arith, eq_of_has_prefix i j)
not_prefix delete u i j w v e ne = cc
not_prefix read u i j w v e ne = cc
not_prefix t delete i j w v e ne = cc
not_prefix t read i j w v e ne = cc

write_prefix_trans :
    (v x : Text)
    → is_write_sentinel_prefix x ≡ true
    → has_prefix v x ≡ true
    → is_write_sentinel_prefix v ≡ true
unfolding is_write_sentinel_prefix
write_prefix_trans v x w h = has_prefix_trans v x write_sentinel_prefix h w

-- A plain value is no tombstone and no write sentinel, and extends none.
plain_value :
    (v : Text)
    → is_sentinel_value v ≡ false
    → (is_tombstone_sentinel v ≡ false) × (is_write_sentinel_prefix v ≡ false)
plain_value v h = (ground (arith, tombstone_class v), ground (arith, write_class v))

plain_below :
    (v x : Text)
    → is_sentinel_value v ≡ false
    → is_write_sentinel_prefix x ≡ true
    → has_prefix v x ≡ false
plain_below v x h w = ground (arith, plain_value v h, write_prefix_trans v x w)

-- Each verdict that two overlapping writes meet.
module _ (x y : Sentinel) (wx : is_write_sentinel_prefix x ≡ true) (v : Text) where
  pub verdict_conflict :
      is_write_sentinel_prefix y ≡ true
      → has_prefix y x ≡ false
      → can_set_value y v x ≡ record nothing { conflict = true }
  unfolding can_set_value
  verdict_conflict wy apart = ground (arith, write_class y wy, eq_of_text_eq y x, has_prefix_refl x)

  pub verdict_marked :
      text_eq y [] ≡ false → can_set_value (x ++ y) v x ≡ record nothing { clear = true }
  unfolding can_set_value
  verdict_marked full =
      ground (arith, text_eq-append x y full, write_append x y wx, has_prefix-append x y)

  pub verdict_other_value :
      is_sentinel_value y ≡ false
      → can_set_value y v x ≡ (if text_eq v y then nothing else record nothing { clear = true })
  unfolding can_set_value
  verdict_other_value plain =
      ground
        (arith, write_class x wx, eq_of_text_eq y x, plain_value y plain, plain_below y x plain wx)
