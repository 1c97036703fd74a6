-- ===== src/Cache/Replying.antt =====
-- What CreateItem of infra/cache/methods.go replies, over any provider.
use authzsdk.Prelude.{
  ◌≡◌, refl, ap, sym, ◌∙◌, ◌⊎◌, inl, inr, Option, some, List, Bool, true, false, not, ◌&&◌,
  Bool-cases, Option-cases, arith,
}
use authzsdk.Cache.Sentinel.{Key, Sentinel, create}
use authzsdk.Cache.Provider.{Provider}
use authzsdk.Cache.Manager.{ItemType, Reply, reply, failed, CacheError, action_failed, invalid_item}
use authzsdk.Cache.Manager.Locks.{take_item_lock}
use authzsdk.Cache.Manager.Loads.{Loaded, get_item_from_cache}
use authzsdk.Cache.Manager.Saves.{SaveIds}
use authzsdk.Cache.Manager.Methods.{MethodIds, act_and_save, create_locked, create_item, existing}

Reply-cases :
    {A : Type 0} (r : Reply A) → ((e : CacheError) × (r ≡ failed e)) ⊎ ((a : A) × (r ≡ reply a))
Reply-cases (reply a) = inr (a, refl)
Reply-cases (failed e) = inl (e, refl)

reply_inj : {A : Type 0} (a b : A) → reply a ≡ reply b → a ≡ b
reply_inj a b h = cc

module _ (p : Provider) (t : ItemType) where
  open p use {State}
  open t use {Value}

  module _ (v : Value) (bypass : Bool) (additional : List Key)
      (action : Value → State → State × Option Value) where
    act_and_save_reply :
        (x : Sentinel) (ids : SaveIds) (s : State) (w : Value)
        → (act_and_save p t v x bypass additional action ids s).1 ≡ reply w
        → (action v s).1 ≡ some w
    unfolding act_and_save
    act_and_save_reply x ids s w h = elim (Option-cases (action v s).1) [
      | inl k ↦
          let e : (act_and_save p t v x bypass additional action ids s).1 ≡ failed action_failed =
            rw (k, act_and_save) refl in
          absurd (cc (e, h))
      | inr (a, k) ↦
          let e : (act_and_save p t v x bypass additional action ids s).1 ≡ reply a =
            rw (k, act_and_save) refl in
          k ∙ ap some (reply_inj a w (sym e ∙ h))
    ]

    create_locked_reply :
        (ids : MethodIds) (s : State) (w : Value)
        → (create_locked p t v bypass additional action ids s).1 ≡ reply w
        → (u : State) × ((action v u).1 ≡ some w)
    unfolding create_locked
    create_locked_reply ids s w h =
        let locked = take_item_lock p create (t.keys v) ids.lock_ids s in
        elim (Reply-cases locked.1) [
          | inl (e, k) ↦
              let f : (create_locked p t v bypass additional action ids s).1 ≡ failed e =
                rw (k, create_locked) refl in
              absurd (cc (f, h))
          | inr (x, k) ↦
              let f : (create_locked p t v bypass additional action ids s).1
                  ≡ (act_and_save p t v x bypass additional action ids.save_ids locked.0).1 =
                rw (k, create_locked) refl in
              (locked.0, act_and_save_reply x ids.save_ids locked.0 w (sym f ∙ h))
        ]

  existing_lem :
      (equals : Value → Value → Bool) (v w : Value) (r : Reply (Loaded Value))
      → existing p t equals v r ≡ some w
      → equals v w ≡ true
  existing_lem equals v w (failed e) h = absurd (cc)
  existing_lem equals v w (reply l) h = elim (Option-cases l.item) [
    | inl k ↦ absurd (ground (arith, h, k))
    | inr (a, k) ↦ ground (arith, h, k)
  ]

  -- An item that CreateItem replies is one of the cache that equals the input, or what the server
  -- replied to it.
  pub create_item_reply :
      (v : Value) (key : Key) (if_not_exists bypass : Bool) (additional : List Key)
      (action : Value → State → State × Option Value) (equals : Value → Value → Bool)
      (ids : MethodIds) (s : State) (w : Value)
      → (create_item p t (some v) key if_not_exists bypass additional action equals ids s).1
        ≡ reply w
      → (equals v w ≡ true) ⊎ ((u : State) × ((action v u).1 ≡ some w))
  unfolding create_item
  create_item_reply v key if_not_exists bypass additional action equals ids s w h =
      let found = get_item_from_cache p t key false ids.load_ids s in
      let locked = create_locked_reply v bypass additional action ids in
      let replied =
        create_item p t (some v) key if_not_exists bypass additional action equals ids s in
      elim (Bool-cases (t.is_valid v)) [
        | inr i ↦
            let e : replied.1 ≡ failed invalid_item = rw (i, create_item) refl in absurd (cc (e, h))
        | inl i ↦ elim (Bool-cases (if_not_exists && not bypass)) [
          | inr b ↦
              let e : replied.1 ≡ (create_locked p t v bypass additional action ids s).1 =
                rw (i, create_item) (rw b refl) in
              inr (locked s w (sym e ∙ h))
          | inl b ↦ elim (Option-cases (existing p t equals v found.1)) [
            | inl k ↦
                let e : replied.1 ≡ (create_locked p t v bypass additional action ids found.0).1 =
                  rw (i, create_item) (rw b (rw k refl)) in
                inr (locked found.0 w (sym e ∙ h))
            | inr (a, k) ↦
                let e : replied.1 ≡ reply a = rw (i, create_item) (rw b (rw k refl)) in
                inl (existing_lem equals v w found.1 (k ∙ ap some (reply_inj a w (sym e ∙ h))))
          ]
        ]
      ]
