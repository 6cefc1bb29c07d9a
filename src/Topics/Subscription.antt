-- ===== src/Topics/Subscription.antt =====
-- `build_subscription` of wirepas_backend_client/mesh/interfaces/mqtt.py: the topics that a discovery
-- subscribes to, with the callback of each.
use Prim.Native.String.{String}
use backend_client.Base.{
  ◌≡◌, ◌↔◌, refl, ap, Bool, true, false, Option, none, some, some-eq, List, [], ◌∷◌, ◌++◌, Eq, ◌==◌,
  bytes_eq,
}
use backend_client.Base.Exceptions.{Result, ok, ◌>>=◌}
use backend_client.Base.Dict.{Dict, insert}
use backend_client.Topics.{Text, chars, arguments, event_topic, response_topic, path}

-- The callbacks
pub data Callback : Type 0 where
  gateway_status_event gateway_data_event : Callback
  response_get_configs response_set_config response_send_data : Callback
  response_otap_status response_load_scratchpad response_process_scratchpad : Callback

-- A key of the dictionary is a topic or None.
abbrev same_topic : Option Text → Option Text → Bool
same_topic none none = true
same_topic (some s) (some t) = s == t
same_topic _ _ = false

same_topic_iff : (s t : Option Text) → (same_topic s t ≡ true) ↔ (s ≡ t)
same_topic_iff none none = (λ _. refl, λ _. refl)
same_topic_iff none (some t) = (λ h. absurd (cc), λ h. absurd (cc))
same_topic_iff (some s) none = (λ h. absurd (cc), λ h. absurd (cc))
same_topic_iff (some s) (some t) =
    (λ h. ap some ((bytes_eq.beq_iff s t).0 h), λ h. (bytes_eq.beq_iff s t).1 (some-eq h))

instance abbrev topic_eq : Eq (Option Text)
topic_eq = record { beq = same_topic; beq_iff = same_topic_iff }

-- A dictionary literal: its items are written one after the other.
abbrev pub of_items :
    Dict (Option Text) Callback → Dict (Option Text) Callback → Dict (Option Text) Callback
of_items [] d = d
of_items ((k, v) ∷ items) d = of_items items (insert k v d)

-- `build_subscription`: the topics, and the dictionary literal with the callback of each
unfoldable pub build_subscription : Dict Text Text → Result (Dict (Option Text) Callback)
unfolding event_topic response_topic
build_subscription network_parameters = do
  event_status ← event_topic (chars "status") network_parameters
  event_received_data ← event_topic (chars "received_data") network_parameters
  get_configs ← response_topic (chars "get_configs") network_parameters
  set_config ← response_topic (chars "set_config") network_parameters
  send_data ← response_topic (chars "send_data") network_parameters
  otap_status ← response_topic (chars "otap_status") network_parameters
  otap_load_scratchpad ← response_topic (chars "otap_load_scratchpad") network_parameters
  otap_process_scratchpad ← response_topic (chars "otap_process_scratchpad") network_parameters
  ok (
      of_items
        ((event_status, gateway_status_event)
          ∷ (event_received_data, gateway_data_event)
          ∷ (get_configs, response_get_configs)
          ∷ (set_config, response_set_config)
          ∷ (send_data, response_send_data)
          ∷ (otap_status, response_otap_status)
          ∷ (otap_load_scratchpad, response_load_scratchpad)
          ∷ (otap_process_scratchpad, response_process_scratchpad)
          ∷ [])
        [])

-- The parts of a topic, each after a slash
abbrev pub slashed : List Text → Text
slashed [] = []
slashed (part ∷ parts) = b'/' ∷ (part ++ slashed parts)

abbrev pub topic_text : String → List Text → Option Text
topic_text start parts = some (chars start ++ slashed parts)

-- Whatever texts the five network parameters are, wildcards included, the subscription has these eight
-- topics, none of which replaces another, each with its own callback: a gateway's status events and
-- responses to get_configs under the gateway, its received data under all parameters, and the other
-- responses under the gateway and the sink.
pub build_subscription-topic_text :
    (gw sink network source destination : Text)
    → build_subscription (arguments gw sink network source destination)
      ≡ ok (
          (topic_text "gw-event/status" (gw ∷ []), gateway_status_event)
          ∷ (
            topic_text "gw-event/received_data" (gw ∷ sink ∷ network ∷ source ∷ destination ∷ []),
            gateway_data_event,
          )
          ∷ (topic_text "gw-response/get_configs" (gw ∷ []), response_get_configs)
          ∷ (topic_text "gw-response/set_config" (gw ∷ sink ∷ []), response_set_config)
          ∷ (topic_text "gw-response/send_data" (gw ∷ sink ∷ []), response_send_data)
          ∷ (topic_text "gw-response/otap_status" (gw ∷ sink ∷ []), response_otap_status)
          ∷ (
            topic_text "gw-response/otap_load_scratchpad" (gw ∷ sink ∷ []),
            response_load_scratchpad,
          )
          ∷ (
            topic_text "gw-response/otap_process_scratchpad" (gw ∷ sink ∷ []),
            response_process_scratchpad,
          )
          ∷ [])
unfolding build_subscription event_topic response_topic path
build_subscription-topic_text gw sink network source destination = refl
