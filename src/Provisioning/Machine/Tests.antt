-- ===== src/Provisioning/Machine/Tests.antt =====
-- Sessions of provisioning/sm.py at concrete events.
use backend_client.Base.{
  ℕ, ◌≤◌, ◌≡◌, ◌⊎◌, ◌↔◌, refl, none, some, List, [], ◌∷◌, ◌++◌, arith, Bytes, length,
}
use backend_client.Base.Dict.{lookup}
use backend_client.Base.Int.{pos}
use backend_client.Base.Exceptions.{ok}
use backend_client.Provisioning.Message.{
  Method, unsecured, secured, Start, start_message, data_ack_message, Header, not_authorized,
  method_not_supported, NackReason, MessageId,
}
use backend_client.Provisioning.Data.{
  bytes, int, value_eq, Entry, ProvisioningData, get_cbor, cbor_dict,
}
use backend_client.Provisioning.Events.{
  Event, packet_received, packet_sent, gw_res_ok, gw_res_other,
}
use backend_client.Provisioning.Machine.Defs.{
  Machine, Crypto, wait_data_sent, error_sending_data, success,
}
use backend_client.Provisioning.Machine.Actions.{update_origin, timer_start, timer_cancel}
use backend_client.Provisioning.Machine.Packets.{send_content, send_data, protect, data_bytes}
use backend_client.Provisioning.Machine.{
  is_authorized, process_start, process_error_data, state_idle, state_wait_data_sent, on_response,
  state_wait_response, dispatch, step, run, new_machine,
}
use backend_client.Provisioning.Machine.Invariant.{Inv, session-Inv}
use backend_client.Provisioning.Machine.Sessions.{
  session_bounded, timeouts, repetition, run-timeouts,
}
use backend_client.Provisioning.Machine.Advances.{Then, IsAuthorizedStart, IsSentOk, IsAck, Any}
use backend_client.Provisioning.Machine.Success.{session_success}
use backend_client.Provisioning.Machine.Answers.{data_packet, after_data}
use backend_client.Provisioning.Machine.Answers.Secured.{IsCounterMode, process_start-secured}
use backend_client.Provisioning.Machine.Answers.Refused.{after_nack, process_start-refused}

-- A cipher that changes nothing and an encoder with one byte show that the laws can hold.
abbrev plain_crypto : Crypto
plain_crypto = record { dumps = λ d. 0xa0 ∷ []; cmac = λ key t. 1 ∷ 2 ∷ []; ctr = λ key n x. x }

plain_crypto-IsCounterMode : IsCounterMode plain_crypto
plain_crypto-IsCounterMode = record { length_kept = λ key n x. refl; inverse = λ key n x. refl }

abbrev factory : Bytes
factory =
    1 ∷ 2 ∷ 3 ∷ 4 ∷ 5 ∷ 6 ∷ 7 ∷ 8 ∷ 9 ∷ 10 ∷ 11 ∷ 12 ∷ 13 ∷ 14 ∷ 15 ∷ 16 ∷ 17 ∷ 18 ∷ 19 ∷ 20 ∷ 21
    ∷ 22 ∷ 23 ∷ 24 ∷ 25 ∷ 26 ∷ 27 ∷ 28 ∷ 29 ∷ 30 ∷ 31 ∷ 32 ∷ []

abbrev entry : ℕ → Entry
entry method = record {
  method = int (pos method);
  encryption_key = bytes (1 ∷ []);
  authentication_key = bytes (2 ∷ []);
  network_address = some (int (pos 16));
  network_channel = some (int (pos 2));
  node_id = none;
  node_role = none;
  user_specific = none;
  factory_key = some (bytes factory);
}

abbrev whitelist : ℕ → ProvisioningData
whitelist method = (bytes (5 ∷ []), entry method) ∷ []

abbrev header : Header
header = record {
  node_address = 10 ∷ 20 ∷ 30 ∷ 40 ∷ [];
  session_id = 7;
  source_address = some 77;
  gw_id = some "gateway";
  sink_id = some "sink1";
  tx_time = some 1000;
}

abbrev start_of_node : Method → Start
start_of_node k = record { header = header; method = k; iv = 3 ∷ []; uid = 5 ∷ [] }

abbrev id : MessageId
id = (some 77, 10 ∷ 20 ∷ 30 ∷ 40 ∷ [], 7)

abbrev session : ℕ → ℕ → Machine
session method counter = new_machine id (whitelist method) counter

abbrev good_events : List Event
good_events =
    packet_received (start_message (start_of_node unsecured))
    ∷ packet_sent 1 (gw_res_other 3)
    ∷ packet_sent 2 gw_res_ok
    ∷ packet_received (data_ack_message header)
    ∷ []

-- The first transmission fails, and the repetition is acknowledged.
good_session :
    let m = (run plain_crypto good_events (session 0 9)).1 in
    (m.status ≡ success) × (length m.sent ≡ 2) × (m.gw_id ≡ some "gateway")
unfolding run step dispatch state_idle update_origin process_start is_authorized send_data get_cbor
    protect send_content data_bytes state_wait_data_sent process_error_data state_wait_response
    on_response timer_start timer_cancel cbor_dict
good_session = (refl, refl, refl)

session-Inv_example : Inv (run plain_crypto good_events (session 0 9)).1
session-Inv_example = session-Inv plain_crypto good_events id (whitelist 0) 9

session_bounded_example : length (run plain_crypto good_events (session 0 9)).1.sent ≤ 2
session_bounded_example = session_bounded plain_crypto good_events id (whitelist 0) 9

session_success_example :
    Then (IsAuthorizedStart (whitelist 0)) (Then IsSentOk (Then IsAck Any)) good_events
session_success_example = session_success plain_crypto good_events id (whitelist 0) 9 good_session.0

abbrev waiting : Machine
waiting = record (session 0 9) { state = wait_data_sent; data_pkt = some (2 ∷ []) }

run-timeouts_example :
    let (q, m) = run plain_crypto (timeouts 2) waiting in
    (q ≡ ok tt) × (m.status ≡ error_sending_data) × (m.sent ≡ [] ++ repetition waiting ∷ [])
run-timeouts_example = run-timeouts plain_crypto 1 waiting refl refl refl

process_start-secured_example :
    (content : Bytes) × (process_start plain_crypto (start_of_node secured) (session 1 9)
      ≡ (ok tt, after_data (session 1 9) 10 (data_packet (session 1 9) 1 10 content)))
    × (content ≡ (0xa0 ∷ []) ++ 1 ∷ 2 ∷ [])
process_start-secured_example =
    process_start-secured plain_crypto (start_of_node secured) (session 1 9) (entry 1) factory
      plain_crypto-IsCounterMode refl refl refl refl refl (omega arith) (omega arith) (omega arith)

process_start-refused_example :
    (r : NackReason) × (process_start plain_crypto (start_of_node secured) (session 0 9)
      ≡ (ok tt, after_nack (session 0 9) r))
    × (r ≡ not_authorized ↔ lookup (bytes (5 ∷ [])) (whitelist 0) ≡ none)
    × ((r ≡ not_authorized) ⊎ (r ≡ method_not_supported))
unfolding is_authorized
process_start-refused_example =
    process_start-refused plain_crypto (start_of_node secured) (session 0 9) refl (omega arith)
