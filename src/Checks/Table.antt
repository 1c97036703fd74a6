-- ===== src/Checks/Table.antt =====
-- A map without expiry that has the laws asked of go-cache: an association list.
use authzsdk.Prelude.{
  ℕ, ◌<◌, ◌≡◌, refl, Option, none, some, List, [], ◌∷◌, true, Text, text_eq, eq_of_text_eq,
  text_eq_refl, contains, if◌then◌else◌, arith,
}
use authzsdk.Cache.Store.{Item, GoCache}

abbrev pub Table : Type 0
Table = List (Text × Item)

unfoldable pub get : Table → Text → Option Item
get [] k = none
get ((j, v) ∷ t) k = if text_eq j k then some v else get t k

unfoldable pub set : Table → Text → Item → ℕ → Table
set t k v ttl = (k, v) ∷ t

unfoldable pub delete : Table → Text → Table
delete [] k = []
delete ((j, v) ∷ t) k = let rest = delete t k in if text_eq k j then rest else (j, v) ∷ rest

unfoldable pub keys : Table → List Text
keys [] = []
keys ((j, v) ∷ t) = j ∷ keys t

pub contains-keys :
    (t : Table) (k : Text) (v : Item) → get t k ≡ some v → contains (keys t) k ≡ true
unfolding get keys contains
contains-keys [] k v h = cc
contains-keys ((j, w) ∷ t) k v h = ground (arith, contains-keys t k v)

pub get-empty : (k : Text) → get [] k ≡ none
unfolding get
get-empty k = refl

pub get-set :
    (t : Table) (k j : Text) (v : Item) (ttl : ℕ)
    → 0 < ttl
    → get (set t k v ttl) j ≡ (if text_eq k j then some v else get t j)
unfolding get set
get-set t k j v ttl h = refl

pub get-delete :
    (t : Table) (k j : Text) → get (delete t k) j ≡ (if text_eq k j then none else get t j)
unfolding get delete
get-delete [] k j = ground arith
get-delete ((i, v) ∷ t) k j = ground (
  arith,
  get-delete t k j,
  eq_of_text_eq i j,
  eq_of_text_eq k j,
  eq_of_text_eq k i,
  text_eq_refl i,
  text_eq_refl j,
)

abbrev pub table : GoCache
table = record {
  State = Table;
  empty = [];
  get = get;
  set = set;
  delete = delete;
  keys = keys;
  contains-keys = contains-keys;
  get-empty = get-empty;
  get-set = get-set;
  get-delete = get-delete;
}
