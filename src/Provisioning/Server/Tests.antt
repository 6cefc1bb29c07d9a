-- ===== src/Provisioning/Server/Tests.antt =====
-- The server of provisioning/provisioning_server.py on concrete packets.
use backend_client.Base.{
  ℕ, ◌+◌, ◌≡◌, refl, true, false, none, some, List, [], ◌∷◌, arith, Bytes, length, nat_eq,
}
use backend_client.Base.Dict.{lookup}
use backend_client.Base.Int.{pos}
use backend_client.Provisioning.Message.{MessageId, nack_payload, Message, start_message, secured}
use backend_client.Provisioning.Message.Factory.{GenericMessage, map_message, received_header}
use backend_client.Provisioning.Data.{bytes, int, ProvisioningData, get_cbor, cbor_dict}
use backend_client.Provisioning.Events.{gw_res_ok}
use backend_client.Provisioning.Machine.Defs.{Crypto}
use backend_client.Provisioning.Machine.Actions.{update_origin, timer_start}
use backend_client.Provisioning.Machine.Packets.{
  send_data, send_nack, protect, data_bytes, encrypt_packet,
}
use backend_client.Provisioning.Machine.{
  is_authorized, refusal, process_start, state_idle, dispatch, step, new_machine,
}
use backend_client.Provisioning.Server.{
  id_eq, Session, Server, new_server, put_event, open_session, route, receive, respond, take_event,
  send_packets, sweep, act, acts, Action, receives, takes_event, ends_session,
}
use backend_client.Provisioning.Server.Routing.{IsServer}
use backend_client.Provisioning.Server.Reached.{acts-new_server-IsServer}
use backend_client.Provisioning.Server.Delivery.{IsDelivered, receive-IsDelivered}
use backend_client.Provisioning.Server.Requests.{IsAnswered, response_delivered}
use backend_client.Provisioning.Server.Endings.{live, sweep-sessions}
use backend_client.Provisioning.Server.Crashes.{receive-ends_thread}
use backend_client.Provisioning.Server.Stuck.{crashed_session}

abbrev crypto : Crypto
crypto = record { dumps = λ d. 0xa0 ∷ []; cmac = λ key t. 1 ∷ 2 ∷ []; ctr = λ key n x. x }

abbrev draw : ℕ → ℕ
draw n = n + 100

abbrev packet : Bytes → GenericMessage
packet b = record {
  data_payload = b;
  payload = [];
  source_address = 77;
  gw_id = "gateway";
  sink_id = "sink1";
  tx_time = 1000;
}

-- A START packet with the secured method, of the node with the UID 5.
abbrev start_packet : GenericMessage
start_packet = packet (
    1 ∷ 10 ∷ 20 ∷ 30 ∷ 40 ∷ 7 ∷ 1 ∷ 0 ∷ 1 ∷ 2 ∷ 3 ∷ 4 ∷ 5 ∷ 6 ∷ 7 ∷ 8 ∷ 9 ∷ 10 ∷ 11 ∷ 12 ∷ 13 ∷ 14
    ∷ 15 ∷ 5 ∷ [])

abbrev start_read : Message
start_read = start_message (record {
  header = received_header start_packet (10 ∷ 20 ∷ 30 ∷ 40 ∷ []) 7;
  method = secured;
  iv = 0 ∷ 1 ∷ 2 ∷ 3 ∷ 4 ∷ 5 ∷ 6 ∷ 7 ∷ 8 ∷ 9 ∷ 10 ∷ 11 ∷ 12 ∷ 13 ∷ 14 ∷ 15 ∷ [];
  uid = 5 ∷ [];
})

abbrev id : MessageId
id = (some 77, 10 ∷ 20 ∷ 30 ∷ 40 ∷ [], 7)

-- The node is not known: the session refuses it and is over.
abbrev refused : List Action
refused = receives start_packet 9 ∷ takes_event 0 ∷ []

abbrev after_refusal : Server
after_refusal = acts crypto draw refused (new_server [])

after_refusal_waits : lookup 100 after_refusal.send_list ≡ some 0
unfolding acts act receive map_message route open_session put_event take_event step dispatch
    state_idle update_origin process_start is_authorized refusal send_nack timer_start send_packets
    nack_payload
after_refusal_waits = refl

after_refusal_sent : length after_refusal.request_queue ≡ 1
unfolding acts act receive map_message route open_session put_event take_event step dispatch
    state_idle update_origin process_start is_authorized refusal send_nack timer_start send_packets
    nack_payload
after_refusal_sent = refl

acts-new_server-IsServer_example : IsServer crypto after_refusal
acts-new_server-IsServer_example = acts-new_server-IsServer crypto draw refused []

receive-IsDelivered_example :
    (r : ℕ) × (o : Session) × IsDelivered start_read 9 after_refusal
      (receive start_packet 9 after_refusal)
      r
      o
unfolding map_message acts act receive route open_session put_event take_event step dispatch
    state_idle update_origin process_start is_authorized refusal send_nack timer_start send_packets
    nack_payload
receive-IsDelivered_example =
    receive-IsDelivered crypto start_packet 9 start_read after_refusal
      (acts-new_server-IsServer crypto draw refused []) refl refl

-- The session is swept before the answer to its NACK packet comes.
abbrev swept : List Action
swept = ends_session id ∷ receives start_packet 9 ∷ []

response_delivered_example :
    IsAnswered crypto draw 100 0 gw_res_ok
      (acts crypto draw swept after_refusal)
      (respond 100 gw_res_ok (acts crypto draw swept after_refusal))
unfolding acts act receive map_message route open_session put_event take_event step dispatch
    state_idle update_origin process_start is_authorized refusal send_nack timer_start send_packets
    nack_payload
response_delivered_example =
    (response_delivered crypto draw 100 0 swept gw_res_ok after_refusal
      (acts-new_server-IsServer crypto draw refused []) after_refusal_waits
      (λ n b p. omega (arith, after_refusal_sent)) refl).0

sweep-sessions_example :
    ((sweep after_refusal).objects ≡ after_refusal.objects)
    × (lookup id (sweep after_refusal).sessions ≡ live after_refusal.objects (some 0))
unfolding acts act receive map_message route open_session put_event take_event step dispatch
    state_idle update_origin process_start is_authorized refusal send_nack timer_start send_packets
    nack_payload
sweep-sessions_example =
    sweep-sessions crypto after_refusal id (acts-new_server-IsServer crypto draw refused [])

receive-ends_thread_example :
    let s' =
      acts crypto draw (receives start_packet 9 ∷ []) (receive (packet []) 0 (new_server [])) in
    (s'.data_thread ≡ false) × (s'.created ≡ 0)
unfolding map_message
receive-ends_thread_example =
    receive-ends_thread crypto draw (packet []) 0 (receives start_packet 9 ∷ []) (new_server [])
      refl refl

abbrev factory : Bytes
factory =
    1 ∷ 2 ∷ 3 ∷ 4 ∷ 5 ∷ 6 ∷ 7 ∷ 8 ∷ 9 ∷ 10 ∷ 11 ∷ 12 ∷ 13 ∷ 14 ∷ 15 ∷ 16 ∷ 17 ∷ 18 ∷ 19 ∷ 20 ∷ 21
    ∷ 22 ∷ 23 ∷ 24 ∷ 25 ∷ 26 ∷ 27 ∷ 28 ∷ 29 ∷ 30 ∷ 31 ∷ 32 ∷ []

abbrev known : ProvisioningData
known =
    (
      bytes (5 ∷ []),
      record {
        method = int (pos 1);
        encryption_key = bytes (1 ∷ []);
        authentication_key = bytes (2 ∷ []);
        network_address = some (int (pos 16));
        network_channel = some (int (pos 2));
        node_id = none;
        node_role = none;
        user_specific = none;
        factory_key = some (bytes factory);
      },
    )
    ∷ []

-- The counter of the session was drawn as 65535.
abbrev overflowing : List Action
overflowing = receives start_packet 65535 ∷ takes_event 0 ∷ []

abbrev after_overflow : Server
after_overflow = acts crypto draw overflowing (new_server known)

abbrev crashed_machine : Session
crashed_machine = elim (lookup 0 after_overflow.objects) [
  | none ↦ record { machine = new_machine id known 0; queue = []; crashed = false }
  | some o ↦ o
]

crashed_session_example :
    let s' = acts crypto draw swept after_overflow in
    (lookup id s'.sessions ≡ some 0)
    × ((o' : Session) × (lookup 0 s'.objects ≡ some o')
        × (o'.machine ≡ crashed_machine.machine)
        × (o'.crashed ≡ true))
unfolding acts act receive map_message route open_session put_event take_event step dispatch
    state_idle update_origin process_start is_authorized send_data get_cbor cbor_dict protect
    encrypt_packet data_bytes send_packets
crashed_session_example =
    crashed_session crypto draw id 0 crashed_machine swept after_overflow
      (acts-new_server-IsServer crypto draw overflowing known) refl refl refl refl
