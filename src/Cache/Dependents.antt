-- ===== src/Cache/Dependents.antt =====
-- `AddDependency` of the in-memory provider, and the invalidation that it sets up.
use authzsdk.Prelude.{
  ℕ, suc, ◌<◌, ◌≤◌, ◌≡◌, ◌≢◌, refl, ap, ◌∙◌, Option, none, some, List, [], ◌∷◌, ◌++◌, Bool, true,
  false, not, ◌&&◌, ◌||◌, Text, text_eq, eq_of_text_eq, contains, if◌then◌else◌, arith, Bool-cases,
  Option-cases, inl, inr, is_some,
}
use authzsdk.Cache.Sentinel.{Key, is_tombstone_sentinel}
use authzsdk.Cache.Store.{Item, str, arr, GoCache}
use authzsdk.Cache.InMemory.Base.{ok, err, key_tombstoned, get_string_keys_from_cache_keys}
use authzsdk.Cache.InMemory.Dependencies.{
  unique_keys, live_keys, key_to_set, save_key_array, add_dependency, clear_dependencies,
}
use authzsdk.Cache.Locking.{contains-get_string_keys}
use authzsdk.Cache.Removing.{get-clear_dependencies}

pub contains-append :
    (xs ys : List Text) (k : Text) → contains (xs ++ ys) k ≡ (contains xs k || contains ys k)
unfolding contains
contains-append [] ys k = refl
contains-append (x ∷ xs) ys k = ground (arith, contains-append xs ys k)

not_contains-nil : (k : Text) → contains [] k ≡ false
unfolding contains
not_contains-nil k = refl

-- Dropping duplicates keeps every key that was not met before.
pub contains-unique_keys :
    (met ks : List Text) (k : Text)
    → contains (unique_keys met ks) k ≡ (contains ks k && not (contains met k))
unfolding unique_keys contains
contains-unique_keys met [] k = refl
contains-unique_keys met (j ∷ ks) k =
    ground
      (arith, contains-unique_keys met ks k, contains-unique_keys (j ∷ met) ks k, eq_of_text_eq j k)

-- How often a key stands in a list.
abbrev pub count : List Text → Text → ℕ
count [] k = 0
count (j ∷ ks) k = if text_eq j k then suc (count ks k) else count ks k

-- No key is left twice.
pub count-unique_keys-le :
    (met ks : List Text) (k : Text)
    → (count (unique_keys met ks) k ≤ 1)
      × (contains met k ≡ true → count (unique_keys met ks) k ≡ 0)
unfolding unique_keys contains
count-unique_keys-le met [] k = (omega arith, λ h. refl)
count-unique_keys-le met (j ∷ ks) k =
    let (a, b) = count-unique_keys-le met ks k in
    let (c, e) = count-unique_keys-le (j ∷ met) ks k in
    (ground (arith, a, b, c, e), ground (arith, a, b, c, e, eq_of_text_eq j k))

-- `AddDependency` adds to every named list, and a list holds what it is told.
pub record Depends (g : GoCache) (values : List Key) (d : Text) (t : g.State) : Type 0 where
  pub keys : List Text
  pub listed : g.get t d ≡ some (arr keys)
  pub added : (v : Key) → v ≢ [] → contains values v ≡ true → contains keys v ≡ true
  pub once : (v : Key) → count keys v ≤ 1

module _ (g : GoCache) where
  open g use {State, get, set, get-set}

  contains-live_keys :
      (ks : List Text) (s : State) (k : Text)
      → contains (live_keys g ks s) k ≡ (contains ks k && is_some (get s k))
  unfolding live_keys contains
  contains-live_keys [] s k = refl
  contains-live_keys (j ∷ ks) s k =
      ground (arith, contains-live_keys ks s k, eq_of_text_eq j k, ap (get s) {x = j} {y = k})

  -- Every new key is in the list to set.
  key_to_set-contains :
      (x : Option Item) (news : List Text) (s : State) (l : List Text) (v : Text)
      → key_to_set g x news s ≡ some l
      → contains news v ≡ true
      → contains l v ≡ true
  unfolding key_to_set
  key_to_set-contains none news s l v e h = ground arith
  key_to_set-contains (some (arr names)) news s l v e h =
      ground (arith, contains-append news (live_keys g names s) v)
  key_to_set-contains (some (str t)) news s l v e h = ground arith

  key_to_set-tombstone :
      (news : List Text) (s : State) (v : Text)
      → is_tombstone_sentinel v ≡ true
      → key_to_set g (some (str v)) news s ≡ none
  unfolding key_to_set
  key_to_set-tombstone news s v t = rw t

  module _ (ttl : ℕ) (positive : 0 < ttl) (news : List Text) where
    abbrev listed_at : Text → List Text → State → State
    listed_at k l s = set s k (arr (unique_keys [] l)) ttl

    save_key_array-none :
        (k : Text) (ks : List Text) (s : State)
        → key_to_set g (get s k) news s ≡ none
        → save_key_array g (k ∷ ks) news ttl s ≡ (s, err key_tombstoned)
    unfolding save_key_array
    save_key_array-none k ks s e = rw (save_key_array, e)

    save_key_array-some :
        (k : Text) (ks : List Text) (s : State) (l : List Text)
        → key_to_set g (get s k) news s ≡ some l
        → save_key_array g (k ∷ ks) news ttl s ≡ save_key_array g ks news ttl (listed_at k l s)
    unfolding save_key_array
    save_key_array-some k ks s l e = rw (save_key_array, e)

    get-save_key_array_other :
        (ks : List Text) (s : State) (j : Text)
        → contains ks j ≡ false
        → get (save_key_array g ks news ttl s).0 j ≡ get s j
    unfolding contains save_key_array
    get-save_key_array_other [] s j h = refl
    get-save_key_array_other (k ∷ ks) s j h = elim (Option-cases (key_to_set g (get s k) news s)) [
      | inl e ↦ rw (save_key_array-none k ks s e)
      | inr (l, e) ↦ rw (save_key_array-some k ks s l e) (
          get-save_key_array_other ks (listed_at k l s) j (ground arith)
          ∙ ground (arith, get-set s k j (arr (unique_keys [] l)) ttl positive))
    ]

    save_key_array-Depends :
        (ks : List Text) (s : State) (d : Text)
        → (save_key_array g ks news ttl s).1 ≡ ok tt
        → contains ks d ≡ true
        → (l : List Text) × (get (save_key_array g ks news ttl s).0 d
            ≡ some (arr (unique_keys [] l)))
          × ((v : Text) → contains news v ≡ true → contains l v ≡ true)
    unfolding contains
    save_key_array-Depends [] s d e h = absurd (cc)
    save_key_array-Depends (k ∷ ks) s d e h = elim (Option-cases (key_to_set g (get s k) news s)) [
      | inl f ↦ absurd (cc (e, save_key_array-none k ks s f))
      | inr (l, f) ↦
          let done : (save_key_array g ks news ttl (listed_at k l s)).1 ≡ ok tt =
            ground (arith, e, save_key_array-some k ks s l f) in
          rw (save_key_array-some k ks s l f) (elim (Bool-cases (contains ks d)) [
            | inl later ↦ save_key_array-Depends ks (listed_at k l s) d done later
            | inr last ↦ (
              l,
              get-save_key_array_other ks (listed_at k l s) d last
                  ∙ ground (arith, get-set s k d (arr (unique_keys [] l)) ttl positive),
              λ v. key_to_set-contains (get s k) news s l v f,
            )
          ])
    ]

    save_key_array_tombstoned :
        (ks : List Text) (s : State) (d v : Text)
        → contains ks d ≡ true
        → get s d ≡ some (str v)
        → is_tombstone_sentinel v ≡ true
        → (save_key_array g ks news ttl s).1 ≡ err key_tombstoned
    unfolding contains
    save_key_array_tombstoned [] s d v h e t = absurd (cc)
    save_key_array_tombstoned (k ∷ ks) s d v h e t =
        elim (Option-cases (key_to_set g (get s k) news s)) [
          | inl f ↦ rw (save_key_array-none k ks s f)
          | inr (l, f) ↦
              let apart : text_eq k d ≡ false = ground (
                arith,
                eq_of_text_eq k d,
                ap (get s) {x = k} {y = d},
                key_to_set-tombstone news s v t,
              ) in
              rw (save_key_array-some k ks s l f) (
                save_key_array_tombstoned ks (listed_at k l s) d v (ground arith)
                  (ground (arith, get-set s k d (arr (unique_keys [] l)) ttl positive)) t)
        ]

  -- After `AddDependency` succeeds, every named dependency list holds each new key, and no key
  -- twice.
  pub add_dependency-Depends :
      (keys values : List Key) (ttl : ℕ) (s : State) (d : Key)
      → 0 < ttl
      → (add_dependency g keys values ttl s).1 ≡ ok tt
      → d ≢ []
      → contains keys d ≡ true
      → Depends g values d (add_dependency g keys values ttl s).0
  unfolding add_dependency
  add_dependency-Depends keys values ttl s d p e named inside =
      let news = get_string_keys_from_cache_keys values in
      let (l, at, has) =
        save_key_array-Depends ttl p news (get_string_keys_from_cache_keys keys) s d e
          (ground (arith, contains-get_string_keys keys d, eq_of_text_eq d [])) in
      record {
        keys = unique_keys [] l;
        listed = at;
        added = λ v n m. ground (
          arith,
          contains-unique_keys [] l v,
          not_contains-nil v,
          has v,
          contains-get_string_keys values v,
          eq_of_text_eq v [],
        );
        once = λ v. (count-unique_keys-le [] l v).0;
      }

  -- A tombstone in a named list makes `AddDependency` fail.
  pub add_dependency_tombstoned :
      (keys values : List Key) (ttl : ℕ) (s : State) (d : Key) (v : Text)
      → 0 < ttl
      → d ≢ []
      → contains keys d ≡ true
      → get s d ≡ some (str v)
      → is_tombstone_sentinel v ≡ true
      → (add_dependency g keys values ttl s).1 ≡ err key_tombstoned
  unfolding add_dependency
  add_dependency_tombstoned keys values ttl s d v p named inside e t =
      save_key_array_tombstoned ttl p (get_string_keys_from_cache_keys values)
        (get_string_keys_from_cache_keys keys) s d v
        (ground (arith, contains-get_string_keys keys d, eq_of_text_eq d [])) e t

  -- A key that a successful `AddDependency` put on a dependency list, other than the list's own key,
  -- is not in the cache after `ClearDependencies` of that list, whether or not a tombstone is set.
  pub dependents_cleared :
      (keys values : List Key) (ttl tombstone_ttl : ℕ) (s : State) (d v : Key)
      (set_tombstone : Bool) (id : Text)
      → 0 < ttl
      → 0 < tombstone_ttl
      → (add_dependency g keys values ttl s).1 ≡ ok tt
      → d ≢ []
      → contains keys d ≡ true
      → v ≢ []
      → contains values v ≡ true
      → v ≢ d
      → get
          (clear_dependencies g tombstone_ttl d set_tombstone id
            (add_dependency g keys values ttl s).0).0
          v
        ≡ none
  dependents_cleared keys values ttl tombstone_ttl s d v set_tombstone id p q e named inside n m
        ne =
      let t = (add_dependency g keys values ttl s).0 in
      let x = add_dependency-Depends keys values ttl s d p e named inside in
      ground (
        arith,
        get-clear_dependencies g tombstone_ttl q d set_tombstone id t v named,
        x.listed,
        x.added v n m,
        eq_of_text_eq d v,
      )
