-- ===== src/Topics/Decorators.antt =====
-- wirepas_backend_client/api/mqtt/decorators.py: a topic is taken apart, and its endpoints choose the
-- decoder of the message.
use backend_client.Base.{
  ℕ, ◌-◌, true, Option, none, some, List, [], ◌∷◌, Bytes, length, get_elem?, leb, eqb,
  if◌then◌else◌,
}
use backend_client.Base.Int.{ℤ, pos, ◌-ℤ◌}
use backend_client.Base.Exceptions.{Result, ok, err, ◌>>=◌, or_raise, index_error, value_error}
use backend_client.Provisioning.Data.Convert.{strip, digits}
use backend_client.Decoders.Endpoints
use backend_client.Decoders.Endpoints.{Decoder, generic}
use backend_client.Topics.{Text}

abbrev cons_first : ℕ → List Text → List Text
cons_first c [] = (c ∷ []) ∷ []
cons_first c (item ∷ items) = (c ∷ item) ∷ items

-- `topic.split("/")`
unfoldable pub split : Text → List Text
split [] = [] ∷ []
split (c ∷ s) = let items = split s in if eqb c b'/' then [] ∷ items else cons_first c items

-- `items[-n]`
abbrev pub from_end : ℕ → List Text → Result Text
from_end n items =
    if leb n (length items)
    then or_raise (get_elem? items (length items - n)) index_error
    else err index_error

-- `int` of a text: a sign, digits, underscores between them, and white space around
abbrev pub signed : Text → Result ℤ
signed [] = err value_error
signed (c ∷ s) =
    if eqb c b'-'
    then (do n ← digits 10 0 true s; ok (pos 0 -ℤ pos n))
    else if eqb c b'+'
    then (do n ← digits 10 0 true s; ok (pos n))
    else (do n ← digits 10 0 true (c ∷ s); ok (pos n))

unfoldable pub int : Text → Result ℤ
unfolding strip digits
int s = signed (strip s)

-- `MessageManager.map`, for endpoints of any sign
abbrev pub decoder_of : ℤ → ℤ → Decoder
decoder_of (pos source) (pos destination) = Endpoints.map source destination
decoder_of _ _ = generic

-- The endpoints and the network of a topic
unfoldable pub numbers : List Text → Result (ℤ × ℤ × ℤ)
unfolding int
numbers items = do
  s ← from_end 2 items
  source_endpoint ← int s
  d ← from_end 1 items
  destination_endpoint ← int d
  n ← from_end 3 items
  network_id ← int n
  ok (source_endpoint, destination_endpoint, network_id)

-- What the decorated function is called with: a message with its network, or the payload as it came
pub data Call (Msg : Type 0) : Type 0 where
  decoded : Msg → (network_id : ℤ) → (topic_items : List Text) → Call Msg
  undecoded : (payload : Bytes) → (topic_items : List Text) → Call Msg

module _ {Msg : Type 0} where
  abbrev pub from_payload : Bytes → List Text → Option (Result Msg) → ℤ → Result (Call Msg)
  from_payload payload items none network_id = ok (undecoded payload items)
  from_payload payload items (some (ok data_)) network_id = ok (decoded data_ network_id items)
  from_payload payload items (some (err index_error)) network_id = ok (undecoded payload items)
  from_payload payload items (some (err x)) network_id = err x

module _ {Msg : Type 0} (from_bus : Decoder → Bytes → Option (Result Msg)) where
  abbrev pub by_numbers : Bytes → List Text → Result (ℤ × ℤ × ℤ) → Result (Call Msg)
  by_numbers payload items (ok (source, destination, network_id)) =
      from_payload payload items (from_bus (decoder_of source destination) payload) network_id
  by_numbers payload items (err index_error) = ok (undecoded payload items)
  by_numbers payload items (err x) = err x

  -- `decode_topic_message`, up to the call. `from_bus` parses what the bus carries; none where it raises
  -- GatewayAPIParsingException.
  unfoldable pub decode_topic_message : Text → Bytes → Result (Call Msg)
  unfolding split numbers
  decode_topic_message topic payload = by_numbers payload (split topic) (numbers (split topic))

-- `topic_message`
unfoldable pub topic_message : {Msg : Type 0} → Text → Bytes → Call Msg
unfolding split
topic_message topic payload = undecoded payload (split topic)
