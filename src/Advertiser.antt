-- ===== src/Advertiser.antt =====
-- wirepas_backend_client/messages/decoders/advertiser.py: the measurements of an advertiser's packet,
-- and the `chunker` of wirepas_backend_client/tools/utils.py that cuts it.
pub mod Blocks
pub mod Wire
mod Tests
use backend_client.Base.{
  ℕ, zero, suc, ◌+◌, ◌-◌, ◌*◌, ◌/◌, ◌%◌, Bool, true, false, Option, none, some, List, [], ◌∷◌, ◌++◌,
  Bytes, length, take, drop, eqb, ltb, if◌then◌else◌, nat_eq,
}
use backend_client.Base.Dict.{Dict, lookup, insert}
use backend_client.Base.Int.{ℤ, pos, sub_ℕ, eqb_ℤ}
use backend_client.Base.Exceptions.{Result, ok, err, struct_error}

-- `chunker`: at most as many chunks as the sequence is long.
abbrev pub chunks : ℕ → ℕ → Bytes → List Bytes
chunks zero size seq = []
chunks (suc fuel) size [] = []
chunks (suc fuel) size (x ∷ seq) = take size (x ∷ seq) ∷ chunks fuel size (drop size (x ∷ seq))

abbrev pub chunker : Bytes → ℕ → List Bytes
chunker seq size = chunks (length seq) size seq

-- `count`: the counter of the class, and the index that the message takes from it
abbrev pub count : ℕ → ℕ × ℕ
count message_counter = (message_counter + 1, message_counter + 1)

-- What was measured: a signal strength in halves of a dBm, or an otap sequence or a bare number.
pub data Measured : Type 0 where
  half_dbm : ℤ → Measured
  number : ℕ → Measured

-- The dictionary of one device in `apdu["adv"]`. Signal strengths are in halves of a dBm.
pub record Advertised : Type 0 where
  pub time : Option ℕ
  pub rss : List ℤ
  pub otap : List ℕ
  pub value : List Measured

abbrev pub new_advertised : Advertised
new_advertised = record { time = none; rss = []; otap = []; value = [] }

-- The attributes that `decode` writes
pub record Apdu : Type 0 where
  pub adv_type : ℕ
  pub adv_reserved_field : ℕ
  pub adv : Dict ℕ Advertised

abbrev pub message_type_rss : ℕ
message_type_rss = 2

abbrev pub message_type_otap : ℕ
message_type_otap = 3

-- A measurement is stored by the message's type. What counts as false in Python, a strength of 0 dBm
-- and an otap sequence of 0, goes to `value`.
abbrev pub measured : ℕ → ℕ → Advertised → Advertised
measured adv_type v a =
    if eqb adv_type message_type_rss
    then (let rss = sub_ℕ v 254 in
        if eqb_ℤ rss (pos 0)
        then record a { value = a.value ++ half_dbm rss ∷ [] }
        else record a { rss = a.rss ++ rss ∷ [] })
    else (if eqb adv_type message_type_otap
        then (if eqb v 0
            then record a { value = a.value ++ number v ∷ [] }
            else record a { otap = a.otap ++ v ∷ [] })
        else record a { value = a.value ++ number v ∷ [] })

-- The entry of an address, which is created if there is none
abbrev pub found : Option Advertised → Advertised
found none = new_advertised
found (some a) = a

unfoldable pub note : ℕ → ℕ → ℕ → ℕ → Dict ℕ Advertised → Dict ℕ Advertised
note adv_type timestamp address v adv =
    insert address
      (measured adv_type v (record (found (lookup address adv)) { time = some timestamp })) adv

-- The length of the addresses
pub data AddressLength : Type 0 where
  three_bytes four_bytes : AddressLength

abbrev pub address_len : AddressLength → ℕ
address_len three_bytes = 3
address_len four_bytes = 4

-- The body of the loop over the chunks: a chunk that is too short is left out. The bytes of the address
-- are joined by `|` and `<<`, which add them up.
unfoldable pub decode_chunk : AddressLength → ℕ → ℕ → Bytes → Dict ℕ Advertised → Dict ℕ Advertised
unfolding note
decode_chunk three_bytes adv_type timestamp (a ∷ b ∷ c ∷ v ∷ []) adv =
    note adv_type timestamp (a + 256 * b + 65536 * c) v adv
decode_chunk four_bytes adv_type timestamp (a ∷ b ∷ c ∷ d ∷ v ∷ []) adv =
    note adv_type timestamp (a + 256 * b + 65536 * c + 16777216 * d) v adv
decode_chunk _ adv_type timestamp chunk adv = adv

unfoldable pub decode_chunks :
    AddressLength → ℕ → ℕ → List Bytes → Dict ℕ Advertised → Dict ℕ Advertised
unfolding decode_chunk
decode_chunks width adv_type timestamp [] adv = adv
decode_chunks width adv_type timestamp (chunk ∷ more) adv =
    decode_chunks width adv_type timestamp more (decode_chunk width adv_type timestamp chunk adv)

-- The length of the addresses, by the highest bit of the header
abbrev pub width_of : ℕ → AddressLength
width_of header = if eqb (header / 128) 1 then four_bytes else three_bytes

-- `decode`
unfoldable pub decode : ℕ → Bytes → Result Apdu
unfolding decode_chunks
decode timestamp (header ∷ reserved ∷ body) =
    let width = width_of header in
    let adv_type = header % 128 in
    ok (record {
      adv_type = adv_type;
      adv_reserved_field = reserved;
      adv = decode_chunks width adv_type timestamp (chunker body (address_len width + 1)) [];
    })
decode timestamp _ = err struct_error
