-- ===== src/Mesh/Discovery.antt =====
-- `NetworkDiscovery` of mesh/interfaces/mqtt.py: the callbacks of the subscribed topics, and the queues
-- that the messages go to.
use Prim.Native.String.{String}
use backend_client.Base.{ℕ, Option, none, some, List, [], ◌∷◌, ◌++◌}
use backend_client.Base.State.{State, ◌>>=◌, ◌>>◌, modify}
use backend_client.Mesh.Device.{Value, Configuration, DeviceId}
use backend_client.Mesh.Management.{
  Mesh, new_mesh, M, at_gateway, add, add_from_mqtt_topic, update, remove,
}

-- The parts of a topic from the third on: the gateway, and what follows it
pub record Topic : Type 0 where
  pub gateway_id : String
  pub rest : List String

-- A message that arrives, by its topic: a status event of a gateway, a data event with the address of the
-- node, a response with configurations, the response to a message that was sent, and the responses that
-- are passed on: of otap_status, set_config and the two scratchpad requests.
pub data Notice : Type 0 where
  status_event : (gw_id : String) → (state : Value) → Notice
  data_event : Topic → (source_address : ℕ) → Notice
  get_configs : Topic → (gw_id : String) → List Configuration → Notice
  send_data : Topic → Notice
  otap_status set_config load_scratchpad process_scratchpad : Notice

-- The mesh and the queues; the ones for data and events may be missing.
pub record Discovery : Type 0 where
  pub device_manager : Mesh
  pub response_queue : List Notice
  pub data_queue : Option (List Notice)
  pub event_queue : Option (List Notice)

pub data Route : Type 0 where
  to_response to_data to_event : Route

abbrev pub put : Notice → Option (List Notice) → Option (List Notice)
put message none = none
put message (some queue) = some (queue ++ message ∷ [])

-- `notify`
unfoldable pub notify : Notice → Route → Discovery → Discovery
notify message to_response d = record d { response_queue = d.response_queue ++ message ∷ [] }
notify message to_data d = record d { data_queue = put message d.data_queue }
notify message to_event d = record d { event_queue = put message d.event_queue }

-- A call of the mesh
abbrev pub managed : {A : Type 0} → M A → State Discovery A
managed call d =
    ((call d.device_manager).0, record d { device_manager = (call d.device_manager).1 })

-- The callbacks
unfoldable pub on_notice : Notice → State Discovery (Unit {0})
unfolding add at_gateway add_from_mqtt_topic update notify
on_notice (status_event gw_id state) = do
  r ← managed (add gw_id none none none)
  managed (at_gateway r (modify (λ g. record g { state = state })))
  modify (notify (status_event gw_id state) to_event)
on_notice (data_event topic source_address) = do
  managed (add_from_mqtt_topic topic.gateway_id topic.rest (some source_address))
  modify (notify (data_event topic source_address) to_data)
on_notice (get_configs topic gw_id configurations) = do
  managed (add_from_mqtt_topic topic.gateway_id topic.rest none)
  managed (update gw_id configurations)
  modify (notify (get_configs topic gw_id configurations) to_response)
on_notice (send_data topic) = do
  managed (add_from_mqtt_topic topic.gateway_id topic.rest none)
  modify (notify (send_data topic) to_response)
on_notice message = modify (notify message to_response)

-- What happens to a discovery: a message arrives, or a client removes a device.
pub data Action : Type 0 where
  arrive : Notice → Action
  take_out : DeviceId → Action

unfoldable pub act : Action → Discovery → Discovery
unfolding on_notice remove
act (arrive message) d = (on_notice message d).1
act (take_out device_id) d = record d { device_manager = (remove device_id d.device_manager).1 }

unfoldable pub acts : List Action → Discovery → Discovery
unfolding act
acts [] d = d
acts (action ∷ actions) d = acts actions (act action d)

abbrev pub new_discovery : Option (List Notice) → Option (List Notice) → Discovery
new_discovery data_queue event_queue = record {
  device_manager = new_mesh;
  response_queue = [];
  data_queue = data_queue;
  event_queue = event_queue;
}
