-- ===== src/Mesh/Device.antt =====
-- device.py, sink.py and gateway.py: a device, a sink, and a gateway with its sinks and nodes.
use Prim.Native.Char.{code}
use Prim.Native.String
use Prim.Native.String.{String}
use backend_client.Base.{
  ℕ, zero, suc, ◌/◌, ◌%◌, Bool, true, false, ◌&&◌, ◌||◌, not, Option, none, some, List, [], ◌∷◌,
  ltb, eqb, if◌then◌else◌, ◌==◌, string_eq, nat_eq,
}
use backend_client.Base.Dict.{Dict, lookup, contains, insert, erase}
use backend_client.Base.Exceptions.{err, key_error}
use backend_client.Base.State.{State, ◌>>=◌, ◌>>◌, done, gets, lift, modify}

-- A value of an attribute or of a configuration
pub data Value : Type 0 where
  nothing : Value
  text : String → Value
  number : ℕ → Value

-- `str(n)`: every round takes a digit, so n + 1 rounds are enough.
abbrev pub digit : ℕ → String
digit n = letter n ("0" ∷ "1" ∷ "2" ∷ "3" ∷ "4" ∷ "5" ∷ "6" ∷ "7" ∷ "8" ∷ "9" ∷ [])
  where
    letter : ℕ → List String → String
    letter i [] = ""
    letter zero (d ∷ more) = d
    letter (suc i) (d ∷ more) = letter i more

unfoldable pub decimal : ℕ → ℕ → String → String
decimal zero n after = after
decimal (suc fuel) n after =
    let shown = String.◌++◌ (digit (n % 10)) after in
    let rest = decimal fuel (n / 10) shown in if ltb n 10 then shown else rest

unfoldable pub str : ℕ → String
unfolding decimal
str n = decimal (suc n) n ""

-- `part in s`
unfoldable pub starts_with : String → String → Bool
starts_with String.[] s = true
starts_with (String.◌∷◌ c part) String.[] = false
starts_with (String.◌∷◌ c part) (String.◌∷◌ d s) = eqb (code c) (code d) && starts_with part s

unfoldable pub has_part : String → String → Bool
unfolding starts_with
has_part part String.[] = starts_with part ""
has_part part (String.◌∷◌ c s) = starts_with part (String.◌∷◌ c s) || has_part part s

-- A node, `MeshDevice`, and a sink. The attributes are the object's `__dict__` without the identifier.
pub record Node : Type 0 where
  pub device_id : String
  pub attributes : Dict String Value

pub record Sink : Type 0 where
  pub device_id : String
  pub attributes : Dict String Value

abbrev pub optional : Option String → Value
optional none = nothing
optional (some s) = text s

-- `MeshDevice.__init__`. `self.__name` is the name of `MeshDevice`, also in the classes that inherit it.
abbrev pub device_attributes : Option String → String → Dict String Value
device_attributes network_id gateway_id =
    ("device_type", text "node")
    ∷ ("state", nothing)
    ∷ ("role", nothing)
    ∷ ("gateway_id", text gateway_id)
    ∷ ("network_id", optional network_id)
    ∷ []

abbrev pub new_node : ℕ → Option String → String → Node
new_node node network_id gateway_id = record {
  device_id = str node;
  attributes = device_attributes network_id gateway_id;
}

-- `Sink.__init__`
abbrev pub new_sink : String → Option String → String → Sink
new_sink sink network_id gateway_id = record {
  device_id = sink;
  attributes = insert "firmware_version" nothing (
      insert "role" nothing (
        insert "app_config_diag" nothing (
          insert "app_config_data" nothing
            (insert "node_address" nothing (device_attributes network_id gateway_id)))));
}

-- `MeshDevice.update`
unfoldable pub put_attribute : String → Value → Dict String Value → Dict String Value
unfolding has_part
put_attribute k nothing attributes = attributes
put_attribute k v attributes =
    if has_part "network_address" k
    then insert "network_id" v (insert k v attributes)
    else insert k v attributes

unfoldable pub update_attributes : Dict String Value → Dict String Value → Dict String Value
unfolding put_attribute
update_attributes [] attributes = attributes
update_attributes ((k, v) ∷ configuration) attributes =
    update_attributes configuration (put_attribute k v attributes)

-- A gateway, with the attributes that are read or written
pub record Gateway : Type 0 where
  pub device_id : String
  pub network_id : Option String
  pub state : Value
  pub sinks : Dict String Sink
  pub nodes : Dict ℕ Node

-- `Gateway.__init__`
abbrev pub new_gateway : String → Gateway
new_gateway device_id = record {
  device_id = device_id;
  network_id = none;
  state = nothing;
  sinks = [];
  nodes = [];
}

-- The setters `sinks` and `nodes`, for a list of one: an empty name and the address 0 count as false.
unfoldable pub set_sinks : Option String → Gateway → Gateway
set_sinks none g = g
set_sinks (some sink) g =
    if not (sink == "") && not (contains sink g.sinks)
    then record g { sinks = insert sink (new_sink sink g.network_id g.device_id) g.sinks }
    else g

unfoldable pub set_nodes : Option ℕ → Gateway → Gateway
set_nodes none g = g
set_nodes (some node) g =
    if not (eqb node 0) && not (contains node g.nodes)
    then record g { nodes = insert node (new_node node g.network_id g.device_id) g.nodes }
    else g

-- A configuration of a sink, as a response to get_configs has it: the sink, the address of its network,
-- and the other entries
pub record Configuration : Type 0 where
  pub sink_id : String
  pub network_address : Option ℕ
  pub others : Dict String Value

abbrev pub address_value : Option ℕ → Value
address_value none = nothing
address_value (some n) = number n

abbrev pub items : Configuration → Dict String Value
items c =
    ("sink_id", text c.sink_id) ∷ ("network_address", address_value c.network_address) ∷ c.others

-- `self._sinks[sink_id].update(configuration)`
unfoldable pub write_sink : Configuration → Option Sink → State Gateway (Unit {0})
unfolding update_attributes
write_sink c none = lift (err key_error)
write_sink c (some sink) = modify (λ g. record g {
  sinks =
      insert c.sink_id (record sink { attributes = update_attributes (items c) sink.attributes })
        g.sinks;
})

-- A round of the loop of `Gateway.update`
unfoldable pub configure : Configuration → State Gateway (Unit {0})
unfolding set_sinks write_sink
configure c = do
  modify (set_sinks (some c.sink_id))
  sinks ← gets (λ g. g.sinks)
  write_sink c (lookup c.sink_id sinks)

unfoldable pub gateway_update : List Configuration → State Gateway (Unit {0})
unfolding configure
gateway_update [] = done tt
gateway_update (c ∷ configurations) = do configure c; gateway_update configurations

-- What is removed: the name of a gateway or a sink, or the address of a node
pub data DeviceId : Type 0 where
  named : String → DeviceId
  addressed : ℕ → DeviceId

-- `Gateway.remove`
unfoldable pub gateway_remove : DeviceId → Gateway → Gateway
gateway_remove (named sink) g =
    if contains sink g.sinks then record g { sinks = erase sink g.sinks } else g
gateway_remove (addressed node) g =
    if contains node g.nodes then record g { nodes = erase node g.nodes } else g
