-- ===== src/Checks/Protocol.antt =====
-- The theorems on the cache's protocol at concrete inputs.
use authzsdk.Prelude.{
  ◌≡◌, ◌≢◌, refl, none, some, [], ◌∷◌, true, false, Text, lit, text_eq, ne_of_text_eq, has_prefix,
  contains, if◌then◌else◌, arith,
}
use authzsdk.Cache.Sentinel.{
  read, update, create, write_through, generate_sentinel, is_read_sentinel_prefix,
  is_sentinel_value, is_tombstone_sentinel, is_read_type,
}
use authzsdk.Cache.Store.{str}
use authzsdk.Cache.InMemory.Locks.{write_sentinel}
use authzsdk.Cache.InMemory.Values.{set_value, get_value}
use authzsdk.Cache.Storing.{is_stored}
use authzsdk.Cache.Interleaving.{interleaved_writes_agree}
use authzsdk.Cache.Protocol.{here, next, fetch, stale_read_refused}
use authzsdk.Checks.Table.{Table, table, get}

abbrev key : Text
key = lit "k"

abbrev reader : Text
reader = generate_sentinel read (lit "a")

abbrev locked : Table
locked = (write_sentinel table write_through 5 update (key ∷ []) (lit "b") []).0

abbrev asked : Table
asked = (get_value table write_through 5 key true (lit "c") locked).0

another : generate_sentinel read (lit "c") ≢ reader
unfolding generate_sentinel text_eq
another = ne_of_text_eq (generate_sentinel read (lit "c")) reader refl

stale_read_refused_example :
    ((set_value table write_through 5 key (key ∷ []) (lit "old") reader 60 asked).0 ≡ asked)
    × (is_stored (set_value table write_through 5 key (key ∷ []) (lit "old") reader 60 asked).1
        ≡ false)
unfolding generate_sentinel is_read_sentinel_prefix has_prefix is_read_type text_eq
stale_read_refused_example =
    stale_read_refused table 5 (omega arith) reader refl update key [] (key ∷ []) (lit "b")
      (lit "old") 60 [] asked refl (ne_of_text_eq key [] refl)
      (next here (fetch key true (lit "c") locked another))

abbrev overlapped : Table
overlapped =
    (write_sentinel table write_through 5 update (key ∷ []) (lit "b")
      (write_sentinel table write_through 5 create (key ∷ []) (lit "a") []).0).0

abbrev store_first : Table → Table
store_first s =
    (set_value table write_through 5 key (key ∷ []) (lit "v") (generate_sentinel create (lit "a"))
      60 s).0

abbrev store_second : Table → Table
store_second s =
    (set_value table write_through 5 key (key ∷ []) (lit "w") (generate_sentinel update (lit "b"))
      60 s).0

interleaved_writes_agree_example :
    (get (store_second (store_first overlapped)) key ≡ none)
    × (get (store_first (store_second overlapped)) key
        ≡ (if text_eq (lit "v") (lit "w") then some (str (lit "w")) else none))
unfolding get is_sentinel_value is_tombstone_sentinel has_prefix contains text_eq
interleaved_writes_agree_example =
    interleaved_writes_agree table 5 (omega arith) create update key [] [] (key ∷ []) (key ∷ [])
      (lit "a") (lit "b") (lit "v") (lit "w") 60 60 [] refl refl (ne_of_text_eq key [] refl) refl
      (ne_of_text_eq (lit "a") (lit "b") refl) refl refl refl refl (omega arith)
