-- ===== src/Provisioning/Data.antt =====
-- wirepas_backend_client/provisioning/data.py: the authorised nodes and their provisioning data.
pub mod Convert
pub mod Config
pub mod Laws
pub mod Loaded
pub mod Hex
mod Tests
use backend_client.Base.{
  ℕ, ◌≡◌, refl, sym, ap, Bool, true, false, ◌&&◌, Option, none, some, List, [], ◌∷◌, ◌++◌, arith,
  Bytes, Eq, ◌==◌, beq_bytes, beq_bytes_sound, ==_refl, ◌↔◌, bytes_eq,
}
use backend_client.Base.Dict.{Dict, lookup, contains, insert}
use backend_client.Base.Int.{ℤ, pos, eqb_ℤ, eqb_ℤ_sound}
use backend_client.Base.Exceptions.{key_error, Result, ok, err, ◌>>=◌, or_raise}

-- The values of the configuration: byte strings, texts (as code points) and integers.
pub data Value : Type 0 where
  bytes : Bytes → Value
  text : List ℕ → Value
  int : ℤ → Value

abbrev pub beq_value : Value → Value → Bool
beq_value (bytes a) (bytes b) = beq_bytes a b
beq_value (text a) (text b) = beq_bytes a b
beq_value (int a) (int b) = eqb_ℤ a b
beq_value _ _ = false

beq_value_sound : (a b : Value) → beq_value a b ≡ true → a ≡ b
beq_value_sound (bytes a) (bytes b) h = ap bytes (beq_bytes_sound a b h)
beq_value_sound (text a) (text b) h = ap text (beq_bytes_sound a b h)
beq_value_sound (int a) (int b) h = ap int (eqb_ℤ_sound a b h)
beq_value_sound (bytes a) _ h = cc
beq_value_sound (text a) _ h = cc
beq_value_sound (int a) _ h = cc

beq_value_refl : (a : Value) → beq_value a a ≡ true
beq_value_refl (bytes a) = ==_refl a
beq_value_refl (text a) = ==_refl a
beq_value_refl (int a) = ground arith

pub beq_value_iff : (a b : Value) → (beq_value a b ≡ true) ↔ (a ≡ b)
beq_value_iff a b = (beq_value_sound a b, λ p. rw p (beq_value_refl b))

instance abbrev pub value_eq : Eq Value
value_eq = record { beq = beq_value; beq_iff = beq_value_iff }

pub eqb_ℤ_iff : (a b : ℤ) → (eqb_ℤ a b ≡ true) ↔ (a ≡ b)
eqb_ℤ_iff a b = (eqb_ℤ_sound a b, λ p. rw p (ground arith))

instance abbrev pub int_eq : Eq ℤ
int_eq = record { beq = eqb_ℤ; beq_iff = eqb_ℤ_iff }

-- The dictionary of one node. A key that may be missing is an `Option`.
pub record Entry : Type 0 where
  pub method : Value
  pub encryption_key : Value
  pub authentication_key : Value
  pub network_address : Option Value
  pub network_channel : Option Value
  pub node_id : Option Value
  pub node_role : Option Value
  pub user_specific : Option (Dict ℤ Value)
  pub factory_key : Option Value

-- `ProvisioningData` is a dict from the node's UID.
abbrev pub ProvisioningData : Type 0
ProvisioningData = Dict Value Entry

-- `for k in d: target[k] = d[k]`
abbrev pub update : Dict ℤ Value → Dict ℤ Value → Dict ℤ Value
update target [] = target
update target ((k, v) ∷ d) = update (insert k v target) d

abbrev pub copied : Option (Dict ℤ Value) → Option (Dict ℤ Value)
copied none = none
copied (some d) = some (update [] d)

-- `ProvisioningData.append`. The entry is stored first; the log lines that follow it read
-- `network_address` and `network_channel` whether or not they were given.
unfoldable pub append : Value → Entry → ProvisioningData → ProvisioningData × Result (Unit {0})
append uid e d = (
  insert uid (record e { user_specific = copied e.user_specific }) d,
  (do
    address ← or_raise e.network_address key_error
    channel ← or_raise e.network_channel key_error
    ok tt),
)

-- `if name in self[uid].keys(): self_dic[k] = self[uid][name]`
abbrev pub put_if : ℕ → Option Value → Dict ℤ Value → Dict ℤ Value
put_if k none d = d
put_if k (some v) d = insert (pos k) v d

abbrev pub update_if : Option (Dict ℤ Value) → Dict ℤ Value → Dict ℤ Value
update_if none d = d
update_if (some u) d = update d u

-- The dictionary that `getCbor` builds
unfoldable pub cbor_dict : Entry → Dict ℤ Value
cbor_dict e = update_if e.user_specific (
    put_if 5 e.node_role (
      put_if 4 e.node_id (
        put_if 3 e.network_channel (
          put_if 2 e.network_address
            (insert (pos 1) e.authentication_key (insert (pos 0) e.encryption_key []))))))

-- `getCbor`, for the encoder `cbor2.dumps`.
unfoldable pub get_cbor : (Dict ℤ Value → Bytes) → Value → ProvisioningData → Result Bytes
unfolding cbor_dict
get_cbor dumps uid d = do e ← or_raise (lookup uid d) key_error; ok (dumps (cbor_dict e))
