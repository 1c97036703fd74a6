-- ===== src/Authz/Identity.antt =====
-- The IDs of what the creates of authz/client.go return.
use authzsdk.Prelude.{
  ◌≡◌, refl, inl, inr, none, some, Bool, true, false, ◌&&◌, Text, text_eq, eq_of_text_eq,
  Bool-cases, arith, if◌then◌else◌, ◌==◌,
}
use authzsdk.Cache.Provider.{Provider}
use authzsdk.Cache.Manager.{reply}
use authzsdk.Cache.Manager.Methods.{MethodIds}
use authzsdk.Cache.Replying.{create_item_reply}
use authzsdk.Authz.Models.{Object}
use authzsdk.Authz.Client.{Sent, answer, refused, broken, or_none, Api, Options}
use authzsdk.Authz.Client.Types.{Setup, Codec, object_items}
use authzsdk.Authz.Client.Creates.{
  create_if_not_exists, create_action, existing_or_new, base_with_id, same_id, create_object,
}

module _ (is_nil : Text → Bool) {A : Type 0} (with_id : A → Text → A) (id_of : A → Text)
    (sets : (a : A) (i : Text) → id_of (with_id a i) ≡ i) where
  -- What a create gets of the server has the ID that was asked for, if the server gives a new item the
  -- ID of its request.
  create_action_id :
      {S : Type 0} (api : Api S A) (path : Text) (if_not_exists : Bool) (id : Text) (input a : A)
      (s : S)
      → is_nil id ≡ false
      → id_of input ≡ id
      → ((b : A) → (api.post path input s).1 ≡ answer b → id_of b ≡ id_of input)
      → (create_action is_nil with_id api path if_not_exists id input s).1 ≡ some a
      → id_of a ≡ id
  unfolding create_action create_if_not_exists
  create_action_id api path if_not_exists id input a s not_nil own server h =
      answered (api.post path input s).1 server h
    where
      answered :
          (r : Sent A)
          → ((b : A) → r ≡ answer b → id_of b ≡ id_of input)
          → (if if_not_exists
              then existing_or_new is_nil with_id id input (create_if_not_exists r)
              else or_none r)
            ≡ some a
          → id_of a ≡ id
      answered (answer b) k e = ground (arith, e, k b refl, own)
      answered (refused status none) k e = absurd (ground (arith, e))
      answered (refused status (some (identical, other))) k e = elim (Bool-cases if_not_exists) [
        | inr f ↦ absurd (ground (arith, e, f))
        | inl f ↦ elim (Bool-cases (status == 409 && identical)) [
          | inr g ↦ absurd (ground (arith, e, f, g))
          | inl g ↦ elim (Bool-cases (text_eq other id)) [
            | inr n ↦ absurd (ground (arith, e, f, g, n, not_nil))
            | inl n ↦
                ground (arith, e, f, g, n, not_nil, sets input other, eq_of_text_eq other id n)
          ]
        ]
      ]
      answered broken k e = absurd (ground (arith, e))

-- A server that gives a new item the ID of the request.
abbrev pub KeepsId : {S A : Type 0} → (A → Text) → Api S A → Type 0
KeepsId {S} {A} id_of api =
    (path : Text) (input b : A) (s : S)
    → (api.post path input s).1 ≡ answer b
    → id_of b ≡ id_of input

same_id_lem :
    (is_nil : Text → Bool) (id current : Text)
    → is_nil id ≡ false
    → same_id is_nil id current ≡ true
    → current ≡ id
same_id_lem is_nil id current n h = ground (arith, eq_of_text_eq current id)

module _ (p : Provider) (c : Setup) (o : Options) where
  open p use {State}

  -- A create with an ID, of an object, by any options, returns no object with another ID: neither one
  -- of the cache that is otherwise the same, nor one that the server has already, if the server gives
  -- a new object the ID of its request.
  pub create_object_id :
      (j : Codec Object) (api : Api State Object) (drawn id type_id alias : Text) (ids : MethodIds)
      (s : State) (w : Object)
      → c.is_nil id ≡ false
      → KeepsId (λ v. v.id) api
      → (create_object p c o j api drawn id type_id alias ids s).1 ≡ reply w
      → w.id ≡ id
  unfolding create_object
  create_object_id j api drawn id type_id alias ids s w n keeps h =
      elim (create_item_reply p (object_items c j) _ _ _ _ _ _ _ ids s w h) [
        | inl e ↦ same_id_lem c.is_nil id w.id n (ground (arith, e))
        | inr (u, e) ↦
            create_action_id c.is_nil (λ v i. record v { base = base_with_id v.base i }) (λ v. v.id)
              (λ v i. refl) api _ o.if_not_exists id _ w u n (rw n refl) (λ b k. keeps _ _ b u k) e
      ]
