-- ===== src/Provisioning/Data/Config.antt =====
-- `ProvisioningData.__init__`: from the parsed YAML file to the dictionary of the nodes.
use backend_client.Base.{if◌then◌else◌, ◌||◌, Option, none, some, [], ◌∷◌}
use backend_client.Base.Dict.{Dict, insert}
use backend_client.Base.Int.{ℤ, pos, ltb_ℤ}
use backend_client.Base.Exceptions.{key_error, Result, ok, err, ◌>>=◌, ◌>>◌, or_raise}
use backend_client.Provisioning.Data.{Value, int_eq, Entry, ProvisioningData, append}
use backend_client.Provisioning.Data.Convert.{convert_to_bytes, convert_to_int}

-- `cfg[uid]`: a key that may be missing is an `Option`. The indexes of `user_specific` are integers.
pub record ConfigEntry : Type 0 where
  pub method : Option Value
  pub encryption_key : Option Value
  pub authentication_key : Option Value
  pub network_address : Option Value
  pub network_channel : Option Value
  pub node_id : Option Value
  pub node_role : Option Value
  pub user_specific : Option (Dict ℤ Value)
  pub factory_key : Option Value

-- `if name in cfg[uid].keys(): convert(cfg[uid][name]) else: None`
abbrev pub optional : (Value → Result Value) → Option Value → Result (Option Value)
optional convert none = ok none
optional convert (some v) = do w ← convert v; ok (some w)

-- The loop over `cfg[uid]["user_specific"]`
unfoldable pub check_user_specific : Dict ℤ Value → Dict ℤ Value → Result (Dict ℤ Value)
check_user_specific copy [] = ok copy
check_user_specific copy ((k, v) ∷ d) =
    let rest = check_user_specific (insert k v copy) d in
    if ltb_ℤ k (pos 128) || ltb_ℤ (pos 255) k then err key_error else rest

abbrev pub user_specific_of : Option (Dict ℤ Value) → Result (Option (Dict ℤ Value))
user_specific_of none = ok none
user_specific_of (some d) = do u ← check_user_specific [] d; ok (some u)

-- The arguments that one node's configuration gives to `append`, in the order of evaluation.
unfoldable pub read_entry : Value → ConfigEntry → Result (Value × Entry)
read_entry uid c = do
  network_address ← optional convert_to_int c.network_address
  network_channel ← optional convert_to_int c.network_channel
  node_id ← optional convert_to_int c.node_id
  node_role ← optional convert_to_bytes c.node_role
  user_specific ← user_specific_of c.user_specific
  factory_key ← optional convert_to_bytes c.factory_key
  key ← convert_to_bytes uid
  method ← or_raise c.method key_error
  encryption_key ← or_raise c.encryption_key key_error >>= convert_to_bytes
  authentication_key ← or_raise c.authentication_key key_error >>= convert_to_bytes
  ok (
    key,
    record {
      method = method;
      encryption_key = encryption_key;
      authentication_key = authentication_key;
      network_address = network_address;
      network_channel = network_channel;
      node_id = node_id;
      node_role = node_role;
      user_specific = user_specific;
      factory_key = factory_key;
    },
  )

-- `for uid in cfg`: the first exception ends the construction.
unfoldable pub load : ProvisioningData → Dict Value ConfigEntry → Result ProvisioningData
load d [] = ok d
load d ((uid, c) ∷ cfg) = do
  (key, e) ← read_entry uid c
  let (d', result) = append key e d
  result
  load d' cfg
