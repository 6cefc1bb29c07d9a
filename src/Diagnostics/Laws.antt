-- ===== src/Diagnostics/Laws.antt =====
-- What a node reads in a diagnostics message.
use Prim.Native.String.{String}
use backend_client.Base.{
  ℕ, ◌+◌, ◌*◌, ◌<◌, ◌/◌, ◌%◌, lt→ltb, ltb→lt, ◌≡◌, ◌↔◌, refl, false, Option, none, some, [], ◌∷◌,
  arith, inl, inr, Bytes, length, eqb, ltb, if◌then◌else◌, Bool-cases,
}
use backend_client.Base.Exceptions.{ok, err, struct_error}
use backend_client.Diagnostics.{
  SendToSinkOnly, ControlMessage, build_set_neighbor_diagnostics, content_code, content_of,
  pack_byte, destination_of,
}

-- A request as the node reads it: its type, and a body of the length that the second byte says.
abbrev pub read_request : Bytes → Option (ℕ × Bytes)
read_request (kind ∷ size ∷ body) = if eqb (length body) size then some (kind, body) else none
read_request _ = none

-- The body of a diagnostics request: the interval, with its low byte first, and the content.
abbrev pub read_control : Bytes → Option (ℕ × ℕ)
read_control (low ∷ high ∷ content ∷ []) = some (low + 256 * high, content)
read_control _ = none

-- What the message says of the network
pub record IsControl (interval : ℕ) (msg : ControlMessage) : Type 0 where
  pub body : Bytes
  pub request : read_request msg.payload ≡ some (0x60, body)
  pub control : read_control body ≡ some (interval, content_code (content_of interval))

message : String → String → ℕ → ℕ → SendToSinkOnly → ControlMessage
message gateway_id sink_id sink_address interval sink_only = record {
  gateway_id = gateway_id;
  sink_id = sink_id;
  node_destination_address = destination_of sink_only sink_address;
  destination_end_point = 240;
  source_end_point = 255;
  payload = 0x60 ∷ 3 ∷ interval % 256 ∷ interval / 256 ∷ content_code (content_of interval) ∷ [];
}

content_packed :
    (interval : ℕ)
    → pack_byte (content_code (content_of interval)) ≡ ok (content_code (content_of interval) ∷ [])
content_packed interval = elim (Bool-cases (eqb 0 interval)) [
  | inl p ↦ rw p refl
  | inr p ↦ rw p refl
]

built :
    (gateway_id sink_id : String) (sink_address interval : ℕ) (sink_only : SendToSinkOnly)
    → interval < 65536
    → build_set_neighbor_diagnostics gateway_id sink_id sink_address interval sink_only
      ≡ ok (message gateway_id sink_id sink_address interval sink_only)
unfolding build_set_neighbor_diagnostics message
built gateway_id sink_id sink_address interval sink_only h =
    rw (lt→ltb interval 65536 h, content_packed interval) refl

-- An interval that fits two bytes is written into a request that a node reads back: the type and the
-- length are right, the interval is the one given, and the content switches all diagnostics off for
-- the interval 0 and asks for the neighbour diagnostics otherwise. The message goes to the sink alone,
-- or to every node.
pub build-IsControl :
    (gateway_id sink_id : String) (sink_address interval : ℕ) (sink_only : SendToSinkOnly)
    → interval < 65536
    → (msg : ControlMessage) × (build_set_neighbor_diagnostics gateway_id sink_id sink_address
          interval sink_only
        ≡ ok msg)
      × IsControl interval msg
      × (msg.node_destination_address ≡ destination_of sink_only sink_address)
unfolding message
build-IsControl gateway_id sink_id sink_address interval sink_only h = (
  message gateway_id sink_id sink_address interval sink_only,
  built gateway_id sink_id sink_address interval sink_only h,
  record {
    body = interval % 256 ∷ interval / 256 ∷ content_code (content_of interval) ∷ [];
    request = refl;
    control = ground arith;
  },
  refl,
)

-- The builder raises `struct.error` exactly on the intervals that do not fit two bytes.
build-err_iff :
    (gateway_id sink_id : String) (sink_address interval : ℕ) (sink_only : SendToSinkOnly)
    → (build_set_neighbor_diagnostics gateway_id sink_id sink_address interval sink_only
        ≡ err struct_error)
      ↔ (ltb interval 65536 ≡ false)
unfolding build_set_neighbor_diagnostics
build-err_iff gateway_id sink_id sink_address interval sink_only =
    elim (Bool-cases (ltb interval 65536)) [
      | inl fits ↦ (
        λ h. absurd (
            let q =
              built gateway_id sink_id sink_address interval sink_only
                (ltb→lt interval 65536 fits) in
            cc (q, h)),
        λ h. absurd (cc (fits, h)),
      )
      | inr too_long ↦ (λ h. too_long, λ h. rw too_long refl)
    ]
