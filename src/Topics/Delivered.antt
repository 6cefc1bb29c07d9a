-- ===== src/Topics/Delivered.antt =====
-- What a subscriber of the received data is called with.
use mathlib.Core.List.{append-nil}
use backend_client.Base.{ℕ, ◌≡◌, refl, ap, ◌∙◌, Option, some, List, [], ◌∷◌, ◌++◌, Bytes, bytes_eq}
use backend_client.Base.Int.{pos}
use backend_client.Base.Exceptions.{Result, ok}
use backend_client.Decoders.Endpoints
use backend_client.Decoders.Endpoints.{Decoder}
use backend_client.Topics.{Text, chars, path, arguments}
use backend_client.Topics.Decorators.{
  split, numbers, decoded, from_payload, by_numbers, decode_topic_message,
}
use backend_client.Topics.Parts.{
  IsItem, IsNumeral, IsItem-digits, split-append, split-IsItem, int-IsNumeral,
}

-- The topic of received data
abbrev received_topic : Text → Text → Text → Text → Text → Text
received_topic gw sink network source destination =
    chars "gw-event/received_data/"
    ++ (gw
        ++ (b'/'
            ∷ (sink ++ (b'/' ∷ (network ++ (b'/' ∷ (source ++ (b'/' ∷ (destination ++ [])))))))))

abbrev pub items_of : Text → Text → Text → Text → Text → List Text
items_of gw sink network source destination =
    chars "gw-event" ∷ chars "received_data" ∷ gw ∷ sink ∷ network ∷ source ∷ destination ∷ []

split-received :
    (gw sink network source destination : Text)
    → IsItem gw
    → IsItem sink
    → IsItem network
    → IsItem source
    → IsItem destination
    → split (received_topic gw sink network source destination)
      ≡ items_of gw sink network source destination
unfolding split
split-received gw sink network source destination g s n a b =
    ap (λ items. chars "gw-event" ∷ chars "received_data" ∷ items)
      (split-append gw _ g
        ∙ ap (λ items. gw ∷ items)
            (split-append sink _ s
              ∙ ap (λ items. sink ∷ items)
                  (split-append network _ n
                    ∙ ap (λ items. network ∷ items)
                        (split-append source _ a
                          ∙ ap (λ items. source ∷ items)
                              (ap split (append-nil destination) ∙ split-IsItem destination b)))))

numbers-items :
    (gw sink network source destination : Text) (n s d : ℕ)
    → IsNumeral n network
    → IsNumeral s source
    → IsNumeral d destination
    → numbers (items_of gw sink network source destination) ≡ ok (pos s, pos d, pos n)
unfolding numbers
numbers-items gw sink network source destination n s d nn ns nd =
    rw (int-IsNumeral s source ns, int-IsNumeral d destination nd, int-IsNumeral n network nn) refl

-- Data that is published under the topic that `Topics` builds for it reaches its subscriber decoded: the
-- decoder is the one of its endpoints, and the network and the parts of the topic are those that it was
-- built from. The gateway and the sink have no slash in their names, the network and the endpoints are
-- written in digits, and the bus holds a message of that decoder.
pub decode-path :
    {Msg : Type 0} (from_bus : Decoder → Bytes → Option (Result Msg))
    (gw sink network source destination : Text) (n s d : ℕ) (payload : Bytes) (msg : Msg)
    → IsItem gw
    → IsItem sink
    → IsNumeral n network
    → IsNumeral s source
    → IsNumeral d destination
    → from_bus (Endpoints.map s d) payload ≡ some (ok msg)
    → (topic : Text) × (path
          (chars "event")
          (chars "received_data")
          (arguments gw sink network source destination)
        ≡ ok (some topic))
      × (decode_topic_message from_bus topic payload
          ≡ ok (decoded msg (pos n) (items_of gw sink network source destination)))
unfolding path decode_topic_message
decode-path from_bus gw sink network source destination n s d payload msg g k nn ns nd parsed =
    let items = items_of gw sink network source destination in
    let parts =
      split-received gw sink network source destination g k (IsItem-digits network nn.1)
        (IsItem-digits source ns.1) (IsItem-digits destination nd.1) in
    (
      received_topic gw sink network source destination,
      refl,
      ap (λ items. by_numbers from_bus payload items (numbers items)) parts
          ∙ ap (by_numbers from_bus payload items)
              (numbers-items gw sink network source destination n s d nn ns nd)
          ∙ ap (λ o. from_payload payload items o (pos n)) parsed,
    )
