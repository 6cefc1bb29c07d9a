-- ===== src/Provisioning/Message/Kept.antt =====
-- Writing what was read: the messages that `ProvisioningMessageFactory.map` accepts, and `payload`.
use backend_client.Base.{ℕ, ◌<◌, ◌≡◌, [], ◌∷◌, arith, Bytes, take, drop, All, take-append-drop}
use backend_client.Base.Exceptions.{ok}
use backend_client.Provisioning.Message.{
  data_ack, Header, Start, Nack, Message, start_message, data_message, data_ack_message,
  nack_message, payload, start_payload, nack_payload, header_payload,
}
use backend_client.Provisioning.Message.Errors.{map_message-ne-data, map_message-long}
use backend_client.Provisioning.Message.Factory.{
  GenericMessage, map_message, start_from_message, data_ack_from_message, nack_from_message,
}

-- How much of a payload a message of each class keeps.
abbrev pub kept : Message → Bytes → Bytes
kept (start_message m) p = p
kept (data_message m) p = p
kept (data_ack_message h) p = take 6 p
kept (nack_message m) p = take 7 p

module _ (g : GenericMessage) (k a b c d s : ℕ) (p : Bytes) (byte_s : s < 256) where
  abbrev long : GenericMessage
  long = record g { data_payload = k ∷ a ∷ b ∷ c ∷ d ∷ s ∷ p }

  start_kept :
      (m : Start)
      → start_from_message long ≡ ok m
      → start_payload m ≡ ok (k ∷ a ∷ b ∷ c ∷ d ∷ s ∷ p)
  unfolding start_from_message start_payload
  start_kept m h = ground (arith, take-append-drop 16 (drop 1 p))

  data_ack_kept :
      (m : Header)
      → data_ack_from_message long ≡ ok m
      → header_payload data_ack m ≡ ok (k ∷ a ∷ b ∷ c ∷ d ∷ s ∷ [])
  unfolding data_ack_from_message header_payload
  data_ack_kept m h = ground arith

  nack_kept :
      (m : Nack)
      → nack_from_message long ≡ ok m
      → nack_payload m ≡ ok (k ∷ a ∷ b ∷ c ∷ d ∷ s ∷ take 1 p)
  unfolding nack_from_message nack_payload
  nack_kept m h = ground arith

  kept_long : (m : Message) → map_message long ≡ ok m → payload m ≡ ok (kept m long.data_payload)
  unfolding map_message payload
  kept_long (start_message m) h = ground (arith, start_kept m)
  kept_long (data_message m) h = absurd (map_message-ne-data long m h)
  kept_long (data_ack_message m) h = ground (arith, data_ack_kept m)
  kept_long (nack_message m) h = ground (arith, nack_kept m)

-- A START, DATA_ACK or NACK packet of bytes that `map` accepts is written back by `payload`: a
-- START packet whole, a DATA_ACK packet up to its sixth byte, a NACK packet up to its seventh.
pub payload-map :
    (g : GenericMessage) (m : Message)
    → All (λ x. x < 256) g.data_payload
    → map_message g ≡ ok m
    → payload m ≡ ok (kept m g.data_payload)
payload-map g m bytes h = go g.data_payload bytes h
  where
    go :
        (p : Bytes)
        → All (λ x. x < 256) p
        → map_message (record g { data_payload = p }) ≡ ok m
        → payload m ≡ ok (kept m p)
    go (k ∷ a ∷ b ∷ c ∷ d ∷ s ∷ p) bs e = kept_long g k a b c d s p bs.1.1.1.1.1.0 m e
    go [] bs e = absurd (omega (arith, map_message-long _ m e))
    go _ bs e = absurd (omega (arith, map_message-long _ m e))
