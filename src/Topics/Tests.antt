-- ===== src/Topics/Tests.antt =====
-- The topics of api/mqtt on concrete names.
use backend_client.Base.{◌≡◌, refl, arith, Option, some, [], ◌∷◌, Bytes, bytes_eq}
use backend_client.Base.Int.{pos}
use backend_client.Base.Exceptions.{Result, ok}
use backend_client.Base.Dict.{Dict}
use backend_client.Provisioning.Data.Convert.{digits}
use backend_client.Decoders.Endpoints
use backend_client.Decoders.Endpoints.{Decoder}
use backend_client.Topics.{Text, chars, path, arguments}
use backend_client.Topics.Decorators.{decoded, decode_topic_message}
use backend_client.Topics.Parts.{IsItem, IsNumeral}
use backend_client.Topics.Delivered.{decode-path, items_of}
use backend_client.Topics.Subscription.{
  Callback, gateway_status_event, gateway_data_event, response_get_configs, response_set_config,
  response_send_data, response_otap_status, response_load_scratchpad, response_process_scratchpad,
  build_subscription, build_subscription-topic_text,
}

-- A bus whose messages are the decoder and the payload
abbrev echo : Decoder → Bytes → Option (Result (Decoder × Bytes))
echo decoder payload = some (ok (decoder, payload))

IsItem-gw : IsItem (chars "gw")
IsItem-gw = (refl, (refl, tt))

IsItem-sink0 : IsItem (chars "sink0")
IsItem-sink0 = (refl, (refl, (refl, (refl, (refl, tt)))))

IsNumeral-12 : IsNumeral 12 (chars "12")
unfolding digits
IsNumeral-12 = (refl, ((omega arith, omega arith), ((omega arith, omega arith), tt)))

IsNumeral-237 : IsNumeral 237 (chars "237")
unfolding digits
IsNumeral-237 = (
  refl,
  ((omega arith, omega arith), ((omega arith, omega arith), ((omega arith, omega arith), tt))),
)

decode-path_example :
    (topic : Text) × (path
        (chars "event")
        (chars "received_data")
        (arguments (chars "gw") (chars "sink0") (chars "12") (chars "237") (chars "12"))
      ≡ ok (some topic))
    × (decode_topic_message echo topic (1 ∷ [])
        ≡ ok (
            decoded
              (Endpoints.map 237 12, 1 ∷ [])
              (pos 12)
              (items_of (chars "gw") (chars "sink0") (chars "12") (chars "237") (chars "12"))))
decode-path_example =
    decode-path echo (chars "gw") (chars "sink0") (chars "12") (chars "237") (chars "12") 12 237 12
      (1 ∷ []) (Endpoints.map 237 12, 1 ∷ []) IsItem-gw IsItem-sink0 IsNumeral-12 IsNumeral-237
      IsNumeral-12 refl

-- Every topic with wildcards
abbrev subscribed : Dict (Option Text) Callback
subscribed =
    (some (chars "gw-event/status/+"), gateway_status_event)
    ∷ (some (chars "gw-event/received_data/+/+/+/+/+"), gateway_data_event)
    ∷ (some (chars "gw-response/get_configs/+"), response_get_configs)
    ∷ (some (chars "gw-response/set_config/+/+"), response_set_config)
    ∷ (some (chars "gw-response/send_data/+/+"), response_send_data)
    ∷ (some (chars "gw-response/otap_status/+/+"), response_otap_status)
    ∷ (some (chars "gw-response/otap_load_scratchpad/+/+"), response_load_scratchpad)
    ∷ (some (chars "gw-response/otap_process_scratchpad/+/+"), response_process_scratchpad)
    ∷ []

build_subscription-topic_text_example :
    build_subscription (arguments (chars "+") (chars "+") (chars "+") (chars "+") (chars "+"))
    ≡ ok subscribed
build_subscription-topic_text_example =
    build_subscription-topic_text (chars "+") (chars "+") (chars "+") (chars "+") (chars "+")
