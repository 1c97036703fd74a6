-- ===== src/Cache/Adds.antt =====
-- Which items an operation of infra/cache/inmemory_provider.go can add to the map: after it every
-- key holds what it held, or nothing, or an item with the property `P`.
use authzsdk.Prelude.{
  ℕ, ◌<◌, ◌≡◌, ◌⊎◌, inl, inr, refl, ◌∙◌, none, some, List, [], ◌∷◌, Bool, true, false, ◌&&◌, Text,
  text_eq, if◌then◌else◌, arith, is_some, Bool-cases,
}
use authzsdk.Cache.Store.{Item, str, GoCache, Expires}
use authzsdk.Cache.InMemory.Base.{in_mem_multi_set, in_mem_multi_delete}

pub record Adds (g : GoCache) (P : Item → Type 0) (s t : g.State) : Type 0 where
  pub at :
      (j : Text)
      → (g.get t j ≡ g.get s j) ⊎ (g.get t j ≡ none) ⊎ ((v : Item) × (g.get t j ≡ some v) × P v)

module _ (g : GoCache) (P : Item → Type 0) where
  open g use {State, get, get-set, get-delete}

  pub Adds-refl : (s : State) → Adds g P s s
  Adds-refl s = record { at = λ j. inl refl }

  pub Adds-trans : {s t u : State} → Adds g P s t → Adds g P t u → Adds g P s u
  Adds-trans {s} {t} {u} a b = record {
    at = λ j. elim (b.at j) [
      | inl e ↦ elim (a.at j) [
        | inl f ↦ inl (e ∙ f)
        | inr (inl f) ↦ inr (inl (e ∙ f))
        | inr (inr (v, f, p)) ↦ inr (inr (v, e ∙ f, p))
      ]
      | inr c ↦ inr c
    ];
  }

  pub Adds-if :
      (b : Bool) {s t u : State} → Adds g P s t → Adds g P s u → Adds g P s (if b then t else u)
  Adds-if true x y = x
  Adds-if false x y = y

  pub Adds-expire : {s t : State} → Expires g s t → Adds g P s t
  Adds-expire e = record {
    at = λ j. elim (e.kept j) [ inl gone ↦ inr (inl gone) | inr same ↦ inl same ];
  }

  pub Adds-set :
      (s : State) (k : Text) (v : Item) (ttl : ℕ) → 0 < ttl → P v → Adds g P s (g.set s k v ttl)
  Adds-set s k v ttl h p = record {
    at = λ j. elim (Bool-cases (text_eq k j)) [
      | inl e ↦ inr (inr (v, ground (arith, get-set s k j v ttl h), p))
      | inr e ↦ inl (ground (arith, get-set s k j v ttl h))
    ];
  }

  pub Adds-delete : (s : State) (k : Text) → Adds g P s (g.delete s k)
  Adds-delete s k = record {
    at = λ j. elim (Bool-cases (text_eq k j)) [
      | inl e ↦ inr (inl (ground (arith, get-delete s k j)))
      | inr e ↦ inl (ground (arith, get-delete s k j))
    ];
  }

  pub Adds-multi_set :
      (ks : List Text) (v : Text) (nx : Bool) (ttl : ℕ) (s : State)
      → 0 < ttl
      → P (str v)
      → Adds g P s (in_mem_multi_set g ks v nx ttl s).0
  unfolding in_mem_multi_set
  Adds-multi_set [] v nx ttl s h p = Adds-refl s
  Adds-multi_set (k ∷ ks) v nx ttl s h p =
      Adds-trans (Adds-if (nx && is_some (get s k)) (Adds-refl s) (Adds-set s k (str v) ttl h p))
        (Adds-multi_set ks v nx ttl _ h p)

  pub Adds-multi_delete : (ks : List Text) (s : State) → Adds g P s (in_mem_multi_delete g ks s)
  unfolding in_mem_multi_delete
  Adds-multi_delete [] s = Adds-refl s
  Adds-multi_delete (k ∷ ks) s = Adds-trans (Adds-delete s k) (Adds-multi_delete ks (g.delete s k))
