-- ===== src/Provisioning/Message/RoundTrip.antt =====
-- Reading what was written: `payload`, then `ProvisioningMessageFactory.map`.
use backend_client.Base.{
  ℕ, ◌<◌, ◌≡◌, ◌≢◌, refl, [], ◌∷◌, ◌++◌, arith, Bytes, length, take-append_left, drop-append_left,
}
use mathlib.Core.List.{append_assoc}
use backend_client.Base.Exceptions.{ok, >>=-eq-ok}
use backend_client.Provisioning.Message.{
  MessageType, type_code, start, prov_data, data_ack, nack, method_code, reason_code, Header, Start,
  Nack, Message, start_message, data_message, data_ack_message, nack_message, type_of, payload,
  start_payload, nack_payload, header_payload, byte, NackReason, not_authorized, Method, unsecured,
  secured,
}
use backend_client.Provisioning.Message.Factory.{GenericMessage, received_header, map_message}

-- The message as its receiver sees it: the origin is that of the packet.
abbrev pub received_as : GenericMessage → Message → Message
received_as g (start_message m) =
    start_message
      (record m { header = received_header g m.header.node_address m.header.session_id })
received_as g (data_message m) =
    data_message (record m { header = received_header g m.header.node_address m.header.session_id })
received_as g (data_ack_message h) =
    data_ack_message (received_header g h.node_address h.session_id)
received_as g (nack_message m) =
    nack_message (record m { header = received_header g m.header.node_address m.header.session_id })

-- What holds of every address of four bytes holds of an address of length 4.
of_four_bytes :
    (P : Bytes → Type 0)
    → ((a b c d : ℕ) → P (a ∷ b ∷ c ∷ d ∷ []))
    → (l : Bytes) → length l ≡ 4
    → P l
of_four_bytes P f (a ∷ b ∷ c ∷ d ∷ []) h = f a b c d
of_four_bytes P f [] h = absurd (omega arith)
of_four_bytes P f (a ∷ []) h = absurd (omega arith)
of_four_bytes P f (a ∷ b ∷ []) h = absurd (omega arith)
of_four_bytes P f (a ∷ b ∷ c ∷ []) h = absurd (omega arith)
of_four_bytes P f (a ∷ b ∷ c ∷ d ∷ e ∷ l) h = absurd (omega arith)

-- The fields have the lengths that the protocol gives them.
abbrev pub IsSized : Message → Type 0
IsSized (start_message m) =
    (length m.header.node_address ≡ 4) × (length m.iv ≡ 16) × (0 < length m.uid)
IsSized (data_message m) = length m.header.node_address ≡ 4
IsSized (data_ack_message h) = length h.node_address ≡ 4
IsSized (nack_message m) = length m.header.node_address ≡ 4

module _ (g : GenericMessage) (s : ℕ) where
  -- What `map` makes of the bytes of a START packet, for an address of any length.
  abbrev ReadsStart : Method → Bytes → Bytes → Bytes → Type 0
  ReadsStart k iv uid node =
      g.data_payload ≡ 1 ∷ (node ++ s ∷ method_code k ∷ (iv ++ uid))
      → map_message g
        ≡ ok (
            start_message
              (record { header = received_header g node s; method = k; iv = iv; uid = uid }))

  map-start_bytes :
      (k : Method) (iv uid : Bytes)
      → length iv ≡ 16
      → 0 < length uid
      → (a b c d : ℕ) → ReadsStart k iv uid (a ∷ b ∷ c ∷ d ∷ [])
  unfolding map_message
  map-start_bytes k iv uid hi hu a b c d e =
      rw e (ground (arith, take-append_left 16 iv uid hi, drop-append_left 16 iv uid hi))

  abbrev ReadsAck : Bytes → Type 0
  ReadsAck node =
      g.data_payload ≡ 3 ∷ (node ++ s ∷ [])
      → map_message g ≡ ok (data_ack_message (received_header g node s))

  map-data_ack_bytes : (a b c d : ℕ) → ReadsAck (a ∷ b ∷ c ∷ d ∷ [])
  unfolding map_message
  map-data_ack_bytes a b c d e = rw e (ground arith)

  abbrev ReadsNack : NackReason → Bytes → Type 0
  ReadsNack r node =
      g.data_payload ≡ 4 ∷ (node ++ s ∷ reason_code r ∷ [])
      → map_message g ≡ ok (nack_message (record { header = received_header g node s; reason = r }))

  map-nack_bytes : (r : NackReason) (a b c d : ℕ) → ReadsNack r (a ∷ b ∷ c ∷ d ∷ [])
  unfolding map_message
  map-nack_bytes r a b c d e = rw e (ground arith)

-- The bytes of the common part, where it can be written.
header_bytes :
    (t : MessageType) (h : Header) {p : Bytes}
    → header_payload t h ≡ ok p
    → p ≡ type_code t ∷ (h.node_address ++ h.session_id ∷ [])
unfolding header_payload
header_bytes start h e = ground arith
header_bytes _ h e = ground arith

byte-method_code : (k : Method) → byte (method_code k) ≡ ok (method_code k ∷ [])
unfolding byte
byte-method_code unsecured = refl
byte-method_code secured = refl

pub byte-reason_code : (r : NackReason) → byte (reason_code r) ≡ ok (reason_code r ∷ [])
unfolding byte
byte-reason_code not_authorized = refl
byte-reason_code _ = refl

start_bytes :
    (m : Start) {p : Bytes}
    → start_payload m ≡ ok p
    → p
      ≡ 1 ∷ (m.header.node_address ++ m.header.session_id ∷ method_code m.method ∷ (m.iv ++ m.uid))
unfolding start_payload
start_bytes m e =
    let h = m.header in
    let (head, e', r) = >>=-eq-ok (header_payload start h) _ e in
    cc (
      rw (byte-method_code m.method) at r,
      header_bytes start h e',
      append_assoc (1 ∷ h.node_address) (h.session_id ∷ [])
          (method_code m.method ∷ (m.iv ++ m.uid)),
    )

nack_bytes :
    (m : Nack) {p : Bytes}
    → nack_payload m ≡ ok p
    → p ≡ 4 ∷ (m.header.node_address ++ m.header.session_id ∷ reason_code m.reason ∷ [])
unfolding nack_payload
nack_bytes m e =
    let h = m.header in
    let (head, e', r) = >>=-eq-ok (header_payload nack h) _ e in
    cc (
      rw (byte-reason_code m.reason) at r,
      header_bytes nack h e',
      append_assoc (4 ∷ h.node_address) (h.session_id ∷ []) (reason_code m.reason ∷ []),
    )

-- A START, DATA_ACK or NACK message whose fields have the protocol's lengths, and whose payload
-- could be built, is read back by `map` from that payload: every field is the sent one, and the
-- origin is that of the received packet.
pub map-payload :
    (m : Message) (g : GenericMessage)
    → IsSized m
    → type_of m ≢ prov_data
    → payload m ≡ ok g.data_payload
    → map_message g ≡ ok (received_as g m)
unfolding payload
map-payload (start_message m) g h t e =
    of_four_bytes (ReadsStart g m.header.session_id m.method m.iv m.uid)
      (map-start_bytes g m.header.session_id m.method m.iv m.uid h.1 h.2) m.header.node_address h.0
      (start_bytes m e)
map-payload (data_message m) g h t e = absurd (t refl)
map-payload (data_ack_message h') g h t e =
    of_four_bytes (ReadsAck g h'.session_id) (map-data_ack_bytes g h'.session_id) h'.node_address h
      (header_bytes data_ack h' e)
map-payload (nack_message m) g h t e =
    of_four_bytes (ReadsNack g m.header.session_id m.reason)
      (map-nack_bytes g m.header.session_id m.reason) m.header.node_address h (nack_bytes m e)
