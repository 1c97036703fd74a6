-- ===== src/Cache/Interleaving.antt =====
-- Two writes of one item that overlap: `WriteSentinel` twice, then `SetValue` twice, in either order.
use authzsdk.Prelude.{
  ℕ, ◌<◌, ◌≡◌, ◌≢◌, refl, sym, none, some, List, [], ◌∷◌, ◌++◌, true, false, Text, text_eq,
  eq_of_text_eq, has_prefix, contains, if◌then◌else◌, arith, length, Bool-cases, inl, inr,
}
use authzsdk.Cache.Sentinel.{
  Key, Sentinel, nothing, SentinelType, create, update, delete, read, is_read_type, write_through,
  can_set_value, is_sentinel_value, is_write_sentinel_prefix, generate_sentinel,
}
use authzsdk.Cache.Sentinel.Prefixes.{write_class}
use authzsdk.Cache.Store.{str, GoCache}
use authzsdk.Cache.InMemory.Base.{get_string_keys_from_cache_keys}
use authzsdk.Cache.InMemory.Locks.{write_sentinel}
use authzsdk.Cache.InMemory.Values.{set_value_at, set_value}
use authzsdk.Cache.Loops.{get-multi_set, get-multi_delete}
use authzsdk.Cache.Locking.{some_string_key, contains-get_string_keys}
use authzsdk.Cache.Granting.{is_blocked, get-write_sentinel}
use authzsdk.Cache.Overlap.{
  writes, write-nonempty, writes-write, not_prefix, verdict_conflict, verdict_marked,
  verdict_other_value,
}
use authzsdk.Cache.Storing.{set_value-set_value_at, set_value_held}

module _ (g : GoCache) (tombstone_ttl : ℕ) (k : Key) (named : k ≢ []) where
  open g use {State, get}

  -- What `SetValue` leaves in its lock key, for each verdict but the first.
  module _ (keys : List Key) (inside : contains keys k ≡ true) (val curr : Text)
      (sentinel : Sentinel) (ttl : ℕ) (s : State) (found : get s k ≡ some (str curr)) where
    some_key : get_string_keys_from_cache_keys keys ≢ []
    some_key = some_string_key keys k inside named

    get-set_value_conflict :
        can_set_value curr val sentinel ≡ record nothing { conflict = true }
        → get (set_value g write_through tombstone_ttl k keys val sentinel ttl s).0 k
          ≡ some (str (curr ++ sentinel))
    unfolding set_value_at
    get-set_value_conflict v =
        rw (set_value-set_value_at g tombstone_ttl k keys val sentinel ttl s named some_key) (
          ground (
            arith,
            get-multi_set g (get_string_keys_from_cache_keys keys) (curr ++ sentinel) 70 s k,
            contains-get_string_keys keys k,
            eq_of_text_eq k [],
          ))

    get-set_value_clear :
        can_set_value curr val sentinel ≡ record nothing { clear = true }
        → get (set_value g write_through tombstone_ttl k keys val sentinel ttl s).0 k ≡ none
    unfolding set_value_at
    get-set_value_clear v =
        rw (set_value-set_value_at g tombstone_ttl k keys val sentinel ttl s named some_key) (
          ground (
            arith,
            get-multi_delete g (get_string_keys_from_cache_keys keys) s k,
            contains-get_string_keys keys k,
            eq_of_text_eq k [],
          ))

    get-set_value-nothing :
        can_set_value curr val sentinel ≡ nothing
        → get (set_value g write_through tombstone_ttl k keys val sentinel ttl s).0 k
          ≡ some (str curr)
    unfolding set_value_at
    get-set_value-nothing v =
        rw (set_value-set_value_at g tombstone_ttl k keys val sentinel ttl s named some_key)
          (ground arith)

    get-set_value_stored :
        curr ≡ sentinel
        → 0 < ttl
        → get (set_value g write_through tombstone_ttl k keys val sentinel ttl s).0 k
          ≡ some (str val)
    get-set_value_stored e p = ground (
      arith,
      (set_value_held g tombstone_ttl k keys val sentinel ttl s p named some_key (cc)).1 k,
      eq_of_text_eq k [],
    )

  -- The writer that took the key first, and the one that took it over, each with what it stores.
  module _ (first second : List Key) (v w : Text) (x y : Sentinel) (d e : ℕ)
      (in_first : contains first k ≡ true) (in_second : contains second k ≡ true)
      (wx : is_write_sentinel_prefix x ≡ true) (wy : is_write_sentinel_prefix y ≡ true)
      (apart : has_prefix y x ≡ false) (plain : is_sentinel_value w ≡ false) (positive : 0 < e)
      (s : State) (held : get s k ≡ some (str y)) where
    first_ends : State
    first_ends = (set_value g write_through tombstone_ttl k first v x d s).0

    second_ends : State
    second_ends = (set_value g write_through tombstone_ttl k second w y e s).0

    -- The first writer ends before the second: the key is cleared.
    race_first : get (set_value g write_through tombstone_ttl k second w y e first_ends).0 k ≡ none
    unfolding first_ends
    race_first =
        get-set_value_clear second in_second w (y ++ x) y e first_ends
          (get-set_value_conflict first in_first v y x d s held
            (verdict_conflict x y wx v wy apart))
          (verdict_marked y x wy w (write-nonempty x wx))

    -- The second writer ends first: its value stays if the first stores the same.
    race_second :
        get (set_value g write_through tombstone_ttl k first v x d second_ends).0 k
        ≡ (if text_eq v w then some (str w) else none)
    unfolding second_ends
    race_second = elim (Bool-cases (text_eq v w)) [
      | inl same ↦ rw same (
          get-set_value-nothing first in_first v w x d second_ends
            (get-set_value_stored second in_second w y y e s held refl positive)
            (ground (arith, verdict_other_value x w wx v plain)))
      | inr other ↦ rw other (
          get-set_value_clear first in_first v w x d second_ends
            (get-set_value_stored second in_second w y y e s held refl positive)
            (ground (arith, verdict_other_value x w wx v plain)))
    ]

module _ (g : GoCache) (tombstone_ttl : ℕ) (positive : 0 < tombstone_ttl) where
  open g use {State, get}

  -- A write's sentinel does not block another write.
  write-not_blocked :
      (t : SentinelType) (x : Sentinel)
      → writes t ≡ true
      → is_write_sentinel_prefix x ≡ true
      → is_blocked t (some (str x)) ≡ false
  unfolding is_read_type
  write-not_blocked create x w h = ground (arith, write_class x h)
  write-not_blocked update x w h = ground (arith, write_class x h)
  write-not_blocked delete x w h = cc
  write-not_blocked read x w h = cc

  -- Two creates or updates take the lock of a primary key on which no delete holds a
  -- lock, one after the other, with different UUIDs of one length; then both store a plain value
  -- under keys that include it. If the first one ends first the key is empty; if the second one
  -- ends first the key holds its value where both values are equal, and is empty else.
  pub interleaved_writes_agree :
      (t u : SentinelType) (k : Key) (locks locks' first second : List Key) (i j v w : Text)
      (d e : ℕ) (s : State)
      → writes t ≡ true
      → writes u ≡ true
      → k ≢ []
      → length i ≡ length j
      → i ≢ j
      → is_blocked t (get s k) ≡ false
      → contains first k ≡ true
      → contains second k ≡ true
      → is_sentinel_value w ≡ false
      → 0 < e
      → (let x = generate_sentinel t i in
          let y = generate_sentinel u j in
          let one = (write_sentinel g write_through tombstone_ttl t (k ∷ locks) i s).0 in
          let both = (write_sentinel g write_through tombstone_ttl u (k ∷ locks') j one).0 in
          let store_first =
            λ (r : State). (set_value g write_through tombstone_ttl k first v x d r).0 in
          let store_second =
            λ (r : State). (set_value g write_through tombstone_ttl k second w y e r).0 in
          (get (store_second (store_first both)) k ≡ none)
          × (get (store_first (store_second both)) k
              ≡ (if text_eq v w then some (str w) else none)))
  unfolding first_ends second_ends
  interleaved_writes_agree t u k locks locks' first second i j v w d e s wt wu named same ne free c
        c' plain p =
      let x = generate_sentinel t i in
      let y = generate_sentinel u j in
      let wx = writes-write t i wt in
      let wy = writes-write u j wu in
      let one = (write_sentinel g write_through tombstone_ttl t (k ∷ locks) i s).0 in
      let both = (write_sentinel g write_through tombstone_ttl u (k ∷ locks') j one).0 in
      let taken : get one k ≡ some (str x) =
        get-write_sentinel g tombstone_ttl positive t k locks i s named free in
      let held : get both k ≡ some (str y) =
        get-write_sentinel g tombstone_ttl positive u k locks' j one named
          (rw taken (write-not_blocked u x wu wx)) in
      let apart = not_prefix u t j i wu wt (sym same) (λ q. ne (sym q)) in
      (
        race_first g tombstone_ttl k named first second v w x y d e c c' wx wy apart plain p both
            held,
        race_second g tombstone_ttl k named first second v w x y d e c c' wx wy apart plain p both
            held,
      )
