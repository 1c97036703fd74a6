-- ===== src/Cache/Storing.antt =====
-- `SetValue` of the in-memory provider with the write-through rules: when it stores, and what it
-- does to a cache that another operation has changed.
use authzsdk.Prelude.{
  ℕ, ◌<◌, ◌≡◌, ◌≢◌, ◌⊎◌, inl, inr, refl, ap, Option, none, some, List, [], ◌++◌, Bool, true, false,
  not, ◌&&◌, Text, text_eq, eq_of_text_eq, text_eq_refl, has_prefix-append_right, contains,
  if◌then◌else◌, arith, Bool-cases, length, ◌==◌,
}
use authzsdk.Cache.Sentinel.{
  Key, Sentinel, nothing, write_through, can_set_value, is_sentinel_value, write_sentinel_prefix,
  is_read_sentinel_prefix, is_write_sentinel_prefix,
}
use authzsdk.Cache.Sentinel.Prefixes.{read_class, write_class}
use authzsdk.Cache.Store.{Item, str, arr, GoCache}
use authzsdk.Cache.InMemory.Base.{
  Result, ok, err, mem_sentinel_ttl, as_string, get_string_keys_from_cache_keys, in_mem_multi_set,
  in_mem_multi_delete,
}
use authzsdk.Cache.InMemory.Values.{Stored, set_value_at, set_value}
use authzsdk.Cache.Loops.{get-multi_set, get-multi_delete}
use authzsdk.Cache.Locking.{contains-get_string_keys}

-- The verdict names at most one action, never the refresh, and for a sentinel that is not a
-- write's it names none but to store under its own lock.
pub can_set_value_verdicts :
    (curr val : Text) (sentinel : Sentinel)
    → (can_set_value curr val sentinel ≡ record nothing { set = true }) × (curr ≡ sentinel)
      ⊎ (curr ≢ sentinel) × (can_set_value curr val sentinel ≡ nothing)
      ⊎ (curr ≢ sentinel)
        × (is_write_sentinel_prefix sentinel ≡ true)
        × (can_set_value curr val sentinel ≡ record nothing { clear = true })
      ⊎ (curr ≢ sentinel)
        × (is_write_sentinel_prefix sentinel ≡ true)
        × (is_write_sentinel_prefix curr ≡ true)
        × (can_set_value curr val sentinel ≡ record nothing { conflict = true })
unfolding can_set_value
can_set_value_verdicts curr val sentinel =
    ground (arith, eq_of_text_eq curr sentinel, text_eq_refl sentinel)

-- A conflict mark is a write sentinel.
pub write_append :
    (curr sentinel : Text)
    → is_write_sentinel_prefix curr ≡ true
    → (is_write_sentinel_prefix (curr ++ sentinel) ≡ true)
      × (is_sentinel_value (curr ++ sentinel) ≡ true)
unfolding is_write_sentinel_prefix
write_append curr sentinel h =
    let w = has_prefix-append_right curr write_sentinel_prefix sentinel h in
    (w, (write_class (curr ++ sentinel) w).3)

-- Whether `SetValue` reported that it stored the value.
abbrev pub is_stored : Result Stored → Bool
is_stored (ok r) = r.stored
is_stored (err e) = false

module _ (g : GoCache) (tombstone_ttl : ℕ) where
  open g use {State, get}

  -- Past its guards `SetValue` acts on the string in the lock key.
  pub set_value-set_value_at :
      (lkey : Key) (keys : List Key) (val : Text) (sentinel : Sentinel) (ttl : ℕ) (s : State)
      → lkey ≢ []
      → get_string_keys_from_cache_keys keys ≢ []
      → set_value g write_through tombstone_ttl lkey keys val sentinel ttl s ≡ (
          let r =
            set_value_at g write_through tombstone_ttl
              (as_string (get s lkey))
              (get_string_keys_from_cache_keys keys)
              val
              sentinel
              ttl
              s in
          (r.0, ok r.1))
  unfolding set_value
  set_value-set_value_at lkey keys val sentinel ttl s l ne = ground (arith, eq_of_text_eq lkey [])

  -- While the lock key holds the caller's sentinel, `SetValue` under at least one key reports
  -- success, puts the value in every named key, and changes no other.
  pub set_value_held :
      (lkey : Key) (keys : List Key) (val : Text) (sentinel : Sentinel) (ttl : ℕ) (s : State)
      → 0 < ttl
      → lkey ≢ []
      → get_string_keys_from_cache_keys keys ≢ []
      → get s lkey ≡ some (str sentinel)
      → ((set_value g write_through tombstone_ttl lkey keys val sentinel ttl s).1
          ≡ ok (record { stored = true; conflict = false }))
        × ((j : Key)
            → get (set_value g write_through tombstone_ttl lkey keys val sentinel ttl s).0 j
              ≡ (if contains keys j && not (text_eq j []) then some (str val) else get s j))
  unfolding set_value_at can_set_value
  set_value_held lkey keys val sentinel ttl s p l ne h =
      rw (set_value-set_value_at lkey keys val sentinel ttl s l ne) (
        ground (arith, text_eq_refl sentinel),
        λ j. ground (
          arith,
          text_eq_refl sentinel,
          get-multi_set g (get_string_keys_from_cache_keys keys) val ttl s j p,
          contains-get_string_keys keys j,
        ),
      )

  -- What can happen without the lock: nothing, or, for a write, its keys are deleted or take a
  -- conflict mark that begins with the write sentinel found in the lock key.
  abbrev Outcome : Option Item → List Text → Sentinel → State → State → Bool → Type 0
  Outcome x ks sentinel s t stored =
      (stored ≡ false)
      × ((t ≡ s)
          ⊎ ((is_write_sentinel_prefix sentinel ≡ true) × (t ≡ in_mem_multi_delete g ks s))
          ⊎ ((curr : Text) × (is_write_sentinel_prefix sentinel ≡ true)
              × (x ≡ some (str curr))
              × (is_write_sentinel_prefix curr ≡ true)
              × (t ≡ (in_mem_multi_set g ks (curr ++ sentinel) false mem_sentinel_ttl s).0)))

  set_value_at_lost :
      (x : Option Item) (ks : List Text) (val : Text) (sentinel : Sentinel) (ttl : ℕ) (s : State)
      → x ≢ some (str sentinel)
      → (let r = set_value_at g write_through tombstone_ttl (as_string x) ks val sentinel ttl s in
          Outcome x ks sentinel s r.0 r.1.stored)
  unfolding set_value_at
  set_value_at_lost none ks val sentinel ttl s h = (refl, inl refl)
  set_value_at_lost (some (arr l)) ks val sentinel ttl s h = (refl, inl refl)
  set_value_at_lost (some (str curr)) ks val sentinel ttl s h =
      elim (can_set_value_verdicts curr val sentinel) [
        | inl (e, same) ↦ absurd (h (ap (λ c. some (str c)) same))
        | inr (inl (ne, e)) ↦ rw e (refl, inl refl)
        | inr (inr (inl (ne, w, e))) ↦ rw e (refl, inr (inl (w, refl)))
        | inr (inr (inr (ne, w, c, e))) ↦ rw e (refl, inr (inr (curr, w, refl, c, refl)))
      ]

  pub set_value-Outcome :
      (lkey : Key) (keys : List Key) (val : Text) (sentinel : Sentinel) (ttl : ℕ) (s : State)
      → get s lkey ≢ some (str sentinel)
      → (let r = set_value g write_through tombstone_ttl lkey keys val sentinel ttl s in
          Outcome
            (get s lkey)
            (get_string_keys_from_cache_keys keys)
            sentinel
            s
            r.0
            (is_stored r.1))
  unfolding set_value
  set_value-Outcome lkey keys val sentinel ttl s h =
      elim (Bool-cases (length (get_string_keys_from_cache_keys keys) == 0)) [
        | inl e ↦ rw e (refl, inl refl)
        | inr e ↦ elim (Bool-cases (text_eq lkey [])) [
          | inl f ↦ rw (e, f) (refl, inl refl)
          | inr f ↦
              rw (e, f)
                (set_value_at_lost (get s lkey) (get_string_keys_from_cache_keys keys) val sentinel
                  ttl s h)
        ]
      ]

  -- A read whose lock was taken stores nothing and changes nothing.
  pub set_value_read_lost :
      (lkey : Key) (keys : List Key) (val : Text) (sentinel : Sentinel) (ttl : ℕ) (s : State)
      → is_read_sentinel_prefix sentinel ≡ true
      → get s lkey ≢ some (str sentinel)
      → ((set_value g write_through tombstone_ttl lkey keys val sentinel ttl s).0 ≡ s)
        × (is_stored (set_value g write_through tombstone_ttl lkey keys val sentinel ttl s).1
            ≡ false)
  set_value_read_lost lkey keys val sentinel ttl s r h =
      let (missed, o) = set_value-Outcome lkey keys val sentinel ttl s h in
      let (not_write, _, _, _, _) = read_class sentinel r in
      elim o [
        | inl same ↦ (same, missed)
        | inr (inl (w, _)) ↦ absurd (cc)
        | inr (inr (_, w, _, _, _)) ↦ absurd (cc)
      ]

  -- Without its lock `SetValue` of a value that is no sentinel value reports no success, and puts its
  -- value in no key that did not hold it before.
  pub set_value_lost :
      (lkey : Key) (keys : List Key) (val : Text) (sentinel : Sentinel) (ttl : ℕ) (s : State)
      → is_sentinel_value val ≡ false
      → get s lkey ≢ some (str sentinel)
      → (is_stored (set_value g write_through tombstone_ttl lkey keys val sentinel ttl s).1 ≡ false)
        × ((j : Key)
            → get (set_value g write_through tombstone_ttl lkey keys val sentinel ttl s).0 j
              ≡ some (str val)
            → get s j ≡ some (str val))
  set_value_lost lkey keys val sentinel ttl s v h =
      let (missed, o) = set_value-Outcome lkey keys val sentinel ttl s h in
      let ks = get_string_keys_from_cache_keys keys in
      elim o [
        | inl same ↦ (missed, λ j e. rw same at e)
        | inr (inl (w, gone)) ↦
            (missed, λ j e. ground (arith, gone, get-multi_delete g ks s j, ap (λ t. get t j) gone))
        | inr (inr (curr, w, x, c, mark)) ↦ (
          missed,
          λ j e. ground (
            arith,
            write_append curr sentinel c,
            get-multi_set g ks (curr ++ sentinel) mem_sentinel_ttl s j (omega arith),
            ap (λ t. get t j) mark,
          ),
        )
      ]
