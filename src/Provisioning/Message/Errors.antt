-- ===== src/Provisioning/Message/Errors.antt =====
-- How `ProvisioningMessageFactory.map` fails, and what it makes of DATA packets.
use backend_client.Base.{
  ℕ, zero, suc, ◌-◌, ◌≤◌, ◌<◌, ◌≡◌, ◌≢◌, ◌↔◌, ◌⊎◌, inl, inr, none, some, [], ◌∷◌, arith, Bytes,
  length, drop, get_elem?, ltb, eqb, length-take, length-drop, ◌&&◌, if◌then◌else◌,
}
use backend_client.Base.Exceptions.{
  Exception, index_error, provisioning_message, ok, err, Result-cases,
}
use backend_client.Provisioning.Message.{Message, Payload, data_message}
use backend_client.Provisioning.Message.Factory.{GenericMessage, map_message}

-- How many bytes the parser of a packet with this first byte indexes.
abbrev pub indexed : Bytes → ℕ
indexed [] = 1
indexed (k ∷ p) = if eqb k 3 then 6 else if ltb 0 k && ltb k 5 then 7 else 0

get_elem?-none : (p : Bytes) (i : ℕ) → (get_elem? p i ≡ none) ↔ (length p ≤ i)
get_elem?-none [] i = ground arith
get_elem?-none (x ∷ p) zero = ground arith
get_elem?-none (x ∷ p) (suc i) = ground (arith, get_elem?-none p i)

-- `map` raises `IndexError`, which its callers do not catch, exactly on the payloads that are
-- shorter than what the parser of their type indexes: on the empty payload, on START, DATA and NACK
-- packets of fewer than 7 bytes, and on DATA_ACK packets of fewer than 6.
pub map_message-index_error_iff :
    (g : GenericMessage)
    → (map_message g ≡ err index_error) ↔ (length g.data_payload < indexed g.data_payload)
unfolding map_message
map_message-index_error_iff g = ground (
  arith,
  get_elem?-none g.data_payload 0,
  get_elem?-none g.data_payload 5,
  get_elem?-none g.data_payload 6,
)

-- The only exceptions of `map` are `IndexError` and `ProvisioningMessageException`.
pub map_message-err :
    (g : GenericMessage) {x : Exception}
    → map_message g ≡ err x
    → (x ≡ index_error) ⊎ (x ≡ provisioning_message)
unfolding map_message
map_message-err g e = ground arith

data-not_ok :
    (g : GenericMessage) (m : Message) → get_elem? g.data_payload 0 ≡ some 2 → map_message g ≢ ok m
unfolding map_message
data-not_ok g m e = ground (
  arith,
  length-take (length g.data_payload - 6 - 9) (drop 9 g.data_payload),
  length-drop 9 g.data_payload,
  length-take (length g.data_payload - 5) g.data_payload,
)

-- A DATA packet of seven bytes or more is always refused with `ProvisioningMessageException`,
-- whatever its bytes: no DATA packet is ever read.
pub map_message-data :
    (g : GenericMessage)
    → get_elem? g.data_payload 0 ≡ some 2
    → 7 ≤ length g.data_payload
    → map_message g ≡ err provisioning_message
map_message-data g e n = elim (Result-cases (map_message g)) [
  | inl (m, r) ↦ absurd (data-not_ok g m e r)
  | inr (x, r) ↦ ground (arith, map_message-err g r, map_message-index_error_iff g)
]

pub map_message-ne-data : (g : GenericMessage) (m : Payload) → map_message g ≢ ok (data_message m)
unfolding map_message
map_message-ne-data g m h = ground (arith, data-not_ok g (data_message m))

-- A message that is accepted has at least six bytes.
pub map_message-long :
    (g : GenericMessage) (m : Message) → map_message g ≡ ok m → 6 ≤ length g.data_payload
unfolding map_message
map_message-long g m h = ground (arith, get_elem?-none g.data_payload 5)
