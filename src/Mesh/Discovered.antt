-- ===== src/Mesh/Discovered.antt =====
-- What holds of the mesh after any messages.
use backend_client.Base.{refl, none, some, List, [], ◌∷◌}
use backend_client.Base.State.{State, ◌>>=◌, ◌>>◌, >>=-holds, modify}
use backend_client.Mesh.Management.{M, at_gateway, add, add_from_mqtt_topic, update}
use backend_client.Mesh.Preserved.{IsMesh, at_gateway-Next}
use backend_client.Mesh.Added.{add-Next, add_from_mqtt_topic-Next}
use backend_client.Mesh.Updated.{update-Next}
use backend_client.Mesh.Removed.{remove-Next}
use backend_client.Mesh.Discovery.{
  Notice, status_event, data_event, get_configs, send_data, otap_status, set_config,
  load_scratchpad, process_scratchpad, Discovery, Route, to_response, to_data, to_event, notify,
  managed, on_notice, Action, arrive, take_out, act, acts,
}

abbrev Holds : Discovery → Type 0
Holds d = IsMesh d.device_manager

notify-Holds :
    (message : Notice) (route : Route) (d : Discovery) → Holds d → Holds (notify message route d)
unfolding notify
notify-Holds message to_response d h = h
notify-Holds message to_data d h = h
notify-Holds message to_event d h = h

-- A call of the mesh, and what follows it
managed-Holds :
    {A : Type 0} (call : M A) (k : A → State Discovery (Unit {0})) (d : Discovery)
    → IsMesh (call d.device_manager).1
    → ((a : A) (e : Discovery) → Holds e → Holds (k a e).1)
    → Holds ((managed call >>= k) d).1
managed-Holds call k d first rest =
    >>=-holds (managed call) k Holds first
      (λ a _. rest a (record d { device_manager = (call d.device_manager).1 }) first)

on_notice-Holds : (message : Notice) (d : Discovery) → Holds d → Holds (on_notice message d).1
unfolding on_notice
on_notice-Holds (status_event gw_id state) d h =
    managed-Holds (add gw_id none none none)
      (λ r.
        managed (at_gateway r (modify (λ g. record g { state = state })))
        >> modify (notify (status_event gw_id state) to_event))
      d (add-Next gw_id none none none d.device_manager h).0
      (λ r e k.
        managed-Holds (at_gateway r (modify (λ g. record g { state = state })))
          (λ _. modify (notify (status_event gw_id state) to_event)) e
          (at_gateway-Next r (modify (λ g. record g { state = state })) e.device_manager
            (λ g kept. (kept, refl)) k).0
          (λ _ f held. notify-Holds (status_event gw_id state) to_event f held))
on_notice-Holds (data_event topic source_address) d h =
    managed-Holds (add_from_mqtt_topic topic.gateway_id topic.rest (some source_address))
      (λ _. modify (notify (data_event topic source_address) to_data)) d
      (add_from_mqtt_topic-Next topic.gateway_id topic.rest (some source_address) d.device_manager
        h).0
      (λ _ f held. notify-Holds (data_event topic source_address) to_data f held)
on_notice-Holds (get_configs topic gw_id configurations) d h =
    managed-Holds (add_from_mqtt_topic topic.gateway_id topic.rest none)
      (λ _.
        managed (update gw_id configurations)
        >> modify (notify (get_configs topic gw_id configurations) to_response))
      d (add_from_mqtt_topic-Next topic.gateway_id topic.rest none d.device_manager h).0
      (λ _ e k.
        managed-Holds (update gw_id configurations)
          (λ _. modify (notify (get_configs topic gw_id configurations) to_response)) e
          (update-Next gw_id configurations e.device_manager k).0
          (λ _ f held. notify-Holds (get_configs topic gw_id configurations) to_response f held))
on_notice-Holds (send_data topic) d h =
    managed-Holds (add_from_mqtt_topic topic.gateway_id topic.rest none)
      (λ _. modify (notify (send_data topic) to_response)) d
      (add_from_mqtt_topic-Next topic.gateway_id topic.rest none d.device_manager h).0
      (λ _ f held. notify-Holds (send_data topic) to_response f held)
on_notice-Holds otap_status d h = notify-Holds otap_status to_response d h
on_notice-Holds set_config d h = notify-Holds set_config to_response d h
on_notice-Holds load_scratchpad d h = notify-Holds load_scratchpad to_response d h
on_notice-Holds process_scratchpad d h = notify-Holds process_scratchpad to_response d h

act-Holds : (action : Action) (d : Discovery) → Holds d → Holds (act action d)
unfolding act
act-Holds (arrive message) d h = on_notice-Holds message d h
act-Holds (take_out device_id) d h = (remove-Next device_id d.device_manager h).0

-- After any messages and removals, in any order and whether or not one raised an exception, every network
-- is stored under its identifier, every reference to a gateway is resolved by a gateway of the name that
-- it is stored under, and every gateway has its sinks under their names and its nodes under their
-- addresses; no name, address or reference is stored twice in one place.
pub acts-IsMesh :
    (actions : List Action) (d : Discovery)
    → IsMesh d.device_manager
    → IsMesh (acts actions d).device_manager
unfolding acts
acts-IsMesh [] d h = h
acts-IsMesh (action ∷ actions) d h = acts-IsMesh actions (act action d) (act-Holds action d h)
