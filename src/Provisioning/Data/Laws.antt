-- ===== src/Provisioning/Data/Laws.antt =====
-- What `ProvisioningData` stores, and what `getCbor` hands to the encoder.
use backend_client.Base.{
  ℕ, ◌≤◌, ◌<◌, ◌≡◌, ◌≢◌, ◌↔◌, refl, ◌∙◌, Option, none, some, [], ◌∷◌, arith, inl, inr, Bool-cases,
  Option-cases, ◌==◌, ==_ne, All,
}
use backend_client.Base.Dict.{Dict, lookup, insert, IsDict, lookup-insert_self, lookup-insert_ne}
use backend_client.Base.Int.{ℤ, pos, ◌≤ℤ◌}
use backend_client.Base.Exceptions.{key_error, ok, err}
use backend_client.Provisioning.Data.{
  Value, value_eq, int_eq, Entry, ProvisioningData, update, append, put_if, update_if, cbor_dict,
  copied, eqb_ℤ_iff,
}

lookup-update_out :
    (k : ℤ) (t d : Dict ℤ Value) → lookup k d ≡ none → lookup k (update t d) ≡ lookup k t
lookup-update_out k t [] h = refl
lookup-update_out k t ((j, v) ∷ d) h = elim (Bool-cases (k == j)) [
  | inl same ↦ cc (rw same at h)
  | inr other ↦
      lookup-update_out k (insert j v t) d (rw other at h) ∙ lookup-insert_ne k j v t other
]

lookup-update_in :
    (k : ℤ) (v : Value) (t d : Dict ℤ Value)
    → IsDict d
    → lookup k d ≡ some v
    → lookup k (update t d) ≡ some v
lookup-update_in k v t [] u h = cc
lookup-update_in k v t ((j, w) ∷ d) u h = elim (Bool-cases (k == j)) [
  | inl same ↦
      rw ((eqb_ℤ_iff k j).0 same)
        (lookup-update_out j (insert j w t) d u.0 ∙ lookup-insert_self j w t ∙ (rw same at h))
  | inr other ↦ lookup-update_in k v (insert j w t) d u.1 (rw other at h)
]

-- `append` succeeds exactly when both the network address and the channel are given, and raises
-- `KeyError` otherwise. In either case the node is stored under its UID, and no other node changes.
pub append_lem :
    (uid : Value) (e : Entry) (d : ProvisioningData)
    → ((append uid e d).1 ≡ ok tt ↔ (e.network_address ≢ none) × (e.network_channel ≢ none))
      × ((append uid e d).1 ≢ ok tt → (append uid e d).1 ≡ err key_error)
      × (lookup uid (append uid e d).0 ≡ some (record e { user_specific = copied e.user_specific }))
      × ((j : Value) → j ≢ uid → lookup j (append uid e d).0 ≡ lookup j d)
unfolding append
append_lem uid e d = (
  ground arith,
  ground arith,
  lookup-insert_self uid (record e { user_specific = copied e.user_specific }) d,
  λ j h. lookup-insert_ne j uid _ d (==_ne j uid h),
)

-- The indexes of user specific data lie in the range that the configuration allows.
abbrev pub InUserRange : Dict ℤ Value → Type 0
InUserRange = All (λ p. (pos 128 ≤ℤ p.0) × (p.0 ≤ℤ pos 255))

lookup-out_of_range : (n : ℕ) (d : Dict ℤ Value) → n < 128 → InUserRange d → lookup (pos n) d ≡ none
lookup-out_of_range n [] h r = refl
lookup-out_of_range n ((k, v) ∷ d) h r = ground (arith, lookup-out_of_range n d h r.1)

abbrev pub given : Option (Dict ℤ Value) → Dict ℤ Value
given none = []
given (some d) = d

abbrev pub specific_of : Entry → Dict ℤ Value
specific_of e = given e.user_specific

abbrev standard : Entry → Dict ℤ Value
standard e =
    (put_if 5 e.node_role (
      put_if 4 e.node_id (
        put_if 3 e.network_channel (
          put_if 2 e.network_address
            (insert (pos 1) e.authentication_key (insert (pos 0) e.encryption_key []))))))

module _ (e : Entry) where
  standard_fields :
      (lookup (pos 0) (standard e) ≡ some e.encryption_key)
      × (lookup (pos 1) (standard e) ≡ some e.authentication_key)
      × (lookup (pos 2) (standard e) ≡ e.network_address)
      × (lookup (pos 3) (standard e) ≡ e.network_channel)
      × (lookup (pos 4) (standard e) ≡ e.node_id)
      × (lookup (pos 5) (standard e) ≡ e.node_role)
  standard_fields = ground arith

  standard_user : (n : ℕ) → 128 ≤ n → lookup (pos n) (standard e) ≡ none
  standard_user n h = ground arith

  cbor_dict-update : cbor_dict e ≡ update (standard e) (specific_of e)
  unfolding cbor_dict
  cbor_dict-update = go e.user_specific
    where
      go : (u : Option (Dict ℤ Value)) → update_if u (standard e) ≡ update (standard e) (given u)
      go none = refl
      go (some d) = refl

  module _ (unique : IsDict (specific_of e)) (range : InUserRange (specific_of e)) where
    lookup-cbor_dict-standard :
        (n : ℕ) → n < 128 → lookup (pos n) (cbor_dict e) ≡ lookup (pos n) (standard e)
    lookup-cbor_dict-standard n h = rw cbor_dict-update (
        lookup-update_out (pos n) (standard e) (specific_of e)
          (lookup-out_of_range n (specific_of e) h range))

    lookup-cbor_dict_user :
        (n : ℕ) → 128 ≤ n → lookup (pos n) (cbor_dict e) ≡ lookup (pos n) (specific_of e)
    lookup-cbor_dict_user n h =
        rw cbor_dict-update (elim (Option-cases (lookup (pos n) (specific_of e))) [
          | inl missing ↦
              rw missing
                (lookup-update_out (pos n) (standard e) (specific_of e) missing ∙ standard_user n h)
          | inr (v, found) ↦
              rw found (lookup-update_in (pos n) v (standard e) (specific_of e) unique found)
        ])

-- Where the user specific indexes are distinct and in the range 128 to 255, `getCbor` encodes every
-- standard field of the node under its own index, leaves out exactly those that are missing, and
-- encodes under every index from 128 on exactly what the user specific data has there.
pub lookup-cbor_dict :
    (e : Entry)
    → IsDict (specific_of e)
    → InUserRange (specific_of e)
    → (lookup (pos 0) (cbor_dict e) ≡ some e.encryption_key)
      × (lookup (pos 1) (cbor_dict e) ≡ some e.authentication_key)
      × (lookup (pos 2) (cbor_dict e) ≡ e.network_address)
      × (lookup (pos 3) (cbor_dict e) ≡ e.network_channel)
      × (lookup (pos 4) (cbor_dict e) ≡ e.node_id)
      × (lookup (pos 5) (cbor_dict e) ≡ e.node_role)
      × ((n : ℕ) → 128 ≤ n → lookup (pos n) (cbor_dict e) ≡ lookup (pos n) (specific_of e))
lookup-cbor_dict e u r =
    let (f0, f1, f2, f3, f4, f5) = standard_fields e in
    (
      lookup-cbor_dict-standard e u r 0 (omega arith) ∙ f0,
      lookup-cbor_dict-standard e u r 1 (omega arith) ∙ f1,
      lookup-cbor_dict-standard e u r 2 (omega arith) ∙ f2,
      lookup-cbor_dict-standard e u r 3 (omega arith) ∙ f3,
      lookup-cbor_dict-standard e u r 4 (omega arith) ∙ f4,
      lookup-cbor_dict-standard e u r 5 (omega arith) ∙ f5,
      lookup-cbor_dict_user e u r,
    )
