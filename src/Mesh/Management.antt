-- ===== src/Mesh/Management.antt =====
-- network.py and state.py: the networks, and `MeshManagement` with its gateways. A gateway is shared by
-- reference between `MeshManagement` and the networks: the objects are in a store.
use Prim.Native.String.{String}
use backend_client.Base.{
  ℕ, ◌+◌, Bool, false, not, Option, none, some, List, [], ◌∷◌, if◌then◌else◌, ◌==◌, string_eq,
  nat_eq,
}
use backend_client.Base.Dict.{Dict, lookup, contains, insert, erase}
use backend_client.Base.Exceptions.{ok, err, key_error}
use backend_client.Base.State.{State, ◌>>=◌, ◌>>◌, done, gets, lift, modify}
use backend_client.Mesh.Device.{
  str, Gateway, new_gateway, set_sinks, set_nodes, Configuration, gateway_update, DeviceId, named,
  addressed, gateway_remove,
}

-- A network, with references to its gateways
pub record Network : Type 0 where
  pub network_id : String
  pub gateways : Dict String ℕ

-- `MeshManagement`, and the store of the gateways that were created
pub record Mesh : Type 0 where
  pub objects : Dict ℕ Gateway
  pub created : ℕ
  pub gateways : Dict String ℕ
  pub networks : Dict String Network

abbrev pub new_mesh : Mesh
new_mesh = record { objects = []; created = 0; gateways = []; networks = [] }

abbrev pub M : Type 0 → Type 0
M = State Mesh

-- A method of the gateway behind a reference. A reference is always resolved.
abbrev pub with_object : ℕ → State Gateway (Unit {0}) → Option Gateway → M (Unit {0})
with_object r method none m = (ok tt, m)
with_object r method (some g) m =
    ((method g).0, record m { objects = insert r (method g).1 m.objects })

unfoldable pub at_gateway : ℕ → State Gateway (Unit {0}) → M (Unit {0})
at_gateway r method m = with_object r method (lookup r m.objects) m

-- `Gateway(device_id)`
unfoldable pub create_gateway : String → M ℕ
create_gateway device_id m = (
  ok m.created,
  record m {
    objects = insert m.created (new_gateway device_id) m.objects;
    created = m.created + 1;
  },
)

-- The gateway under a name, which is created and stored if there is none
unfoldable pub gateway_of : String → Option ℕ → M ℕ
unfolding create_gateway
gateway_of gw_id (some r) = done r
gateway_of gw_id none = do
  r ← create_gateway gw_id
  modify (λ m. record m { gateways = insert gw_id r m.gateways })
  done r

-- `if network_id`: neither None nor empty
abbrev pub truthy : Option String → Bool
truthy none = false
truthy (some s) = not (s == "")

unfoldable pub set_network_id : Option String → ℕ → M (Unit {0})
unfolding at_gateway
set_network_id network_id r =
    if truthy network_id
    then at_gateway r (modify (λ g. record g { network_id = network_id }))
    else done tt

-- The network under an identifier
abbrev pub network_of : String → Option Network → Network
network_of network_id none = record { network_id = network_id; gateways = [] }
network_of network_id (some network) = network

-- `self._gateways[gateway_id] = gateway` of a network, which is created if there is none
abbrev pub joined_network : String → String → ℕ → Mesh → Mesh
joined_network network_id gateway_id r m =
    let network = network_of network_id (lookup network_id m.networks) in
    record m {
      networks =
          insert network_id (record network { gateways = insert gateway_id r network.gateways })
            m.networks;
    }

-- `Network.add`, for a gateway under its name, a sink and a node
unfoldable pub network_add : String → String → ℕ → Option String → Option ℕ → M (Unit {0})
unfolding at_gateway set_sinks set_nodes
network_add network_id gateway_id r sink_id node_id = do
  modify (joined_network network_id gateway_id r)
  at_gateway r (modify (set_sinks sink_id))
  at_gateway r (modify (set_nodes node_id))

-- `MeshManagement.add`. The network is created if there is none.
unfoldable pub add_network : String → ℕ → Option String → Option String → Option ℕ → M (Unit {0})
unfolding network_add
add_network gw_id r none sink_id node_id = done tt
add_network gw_id r (some network_id) sink_id node_id =
    network_add network_id gw_id r sink_id node_id

unfoldable pub add : String → Option String → Option String → Option ℕ → M ℕ
unfolding gateway_of set_network_id add_network
add gw_id network_id sink_id node_id = do
  gateways ← gets (λ m. m.gateways)
  r ← gateway_of gw_id (lookup gw_id gateways)
  set_network_id network_id r
  add_network gw_id r network_id sink_id node_id
  done r

-- `MeshManagement.add_from_mqtt_topic`, for a topic from its third part on
unfoldable pub add_from_mqtt_topic : String → List String → Option ℕ → M (Unit {0})
unfolding add
add_from_mqtt_topic gateway_id [] node_id = add gateway_id none none node_id >>= λ _. done tt
add_from_mqtt_topic gateway_id (sink_id ∷ []) node_id =
    add gateway_id none (some sink_id) node_id >>= λ _. done tt
add_from_mqtt_topic gateway_id (sink_id ∷ network_id ∷ _) node_id =
    add gateway_id (some network_id) (some sink_id) node_id >>= λ _. done tt

-- The gateway of a network under a name. It is created if there is none, and it is another object than
-- the one that `MeshManagement` has under the name.
unfoldable pub network_gateway : String → String → Option ℕ → M ℕ
unfolding create_gateway
network_gateway network_id gateway_id (some r) = done r
network_gateway network_id gateway_id none = do
  r ← create_gateway gateway_id
  modify (joined_network network_id gateway_id r)
  done r

-- `Network.update`
unfoldable pub network_update : String → Network → String → Configuration → M (Unit {0})
unfolding network_gateway at_gateway gateway_update
network_update network_id network gateway_id c = do
  r ← network_gateway network_id gateway_id (lookup gateway_id network.gateways)
  at_gateway r (gateway_update (c ∷ []))

-- A round of the loop of `MeshManagement.update`: a network that is new gets the gateway itself.
unfoldable pub update_found : String → ℕ → Configuration → String → Option Network → M (Unit {0})
unfolding network_update
update_found gateway_id r c network_id none = modify (λ m. record m {
  networks =
      insert network_id (record { network_id = network_id; gateways = (gateway_id, r) ∷ [] })
        m.networks;
})
update_found gateway_id r c network_id (some network) =
    network_update network_id network gateway_id c

unfoldable pub update_network : String → ℕ → Configuration → Option ℕ → M (Unit {0})
unfolding update_found
update_network gateway_id r c none = done tt
update_network gateway_id r c (some network_address) = do
  networks ← gets (λ m. m.networks)
  update_found gateway_id r c (str network_address) (lookup (str network_address) networks)

unfoldable pub update_networks : String → ℕ → List Configuration → M (Unit {0})
unfolding update_network
update_networks gateway_id r [] = done tt
update_networks gateway_id r (c ∷ configurations) = do
  update_network gateway_id r c c.network_address
  update_networks gateway_id r configurations

unfoldable pub update_gateway : String → List Configuration → Option ℕ → M (Unit {0})
unfolding at_gateway gateway_update update_networks
update_gateway gateway_id configurations none = lift (err key_error)
update_gateway gateway_id configurations (some r) = do
  at_gateway r (gateway_update configurations)
  update_networks gateway_id r configurations

-- `MeshManagement.update`
unfoldable pub update : String → List Configuration → M (Unit {0})
unfolding update_gateway
update gateway_id configurations = do
  gateways ← gets (λ m. m.gateways)
  update_gateway gateway_id configurations (lookup gateway_id gateways)

-- `Network.remove`
unfoldable pub remove_from_all : DeviceId → Dict String ℕ → M (Unit {0})
unfolding at_gateway gateway_remove
remove_from_all device_id [] = done tt
remove_from_all device_id ((_, r) ∷ gateways) = do
  at_gateway r (modify (gateway_remove device_id))
  remove_from_all device_id gateways

abbrev pub erase_named : DeviceId → Dict String ℕ → Dict String ℕ
erase_named (named device) gateways =
    if contains device gateways then erase device gateways else gateways
erase_named (addressed node) gateways = gateways

unfoldable pub network_remove : DeviceId → String → Network → M (Unit {0})
unfolding remove_from_all
network_remove device_id network_id network = do
  remove_from_all device_id network.gateways
  modify (λ m. record m {
    networks =
        insert network_id (record network { gateways = erase_named device_id network.gateways })
          m.networks;
  })

unfoldable pub remove_in : DeviceId → Dict String Network → M (Unit {0})
unfolding network_remove
remove_in device_id [] = done tt
remove_in device_id ((network_id, network) ∷ networks) = do
  network_remove device_id network_id network
  remove_in device_id networks

-- `MeshManagement.remove`
unfoldable pub remove : DeviceId → M (Unit {0})
unfolding remove_in
remove device_id = do
  modify (λ m. record m { gateways = erase_named device_id m.gateways })
  networks ← gets (λ m. m.networks)
  remove_in device_id networks
