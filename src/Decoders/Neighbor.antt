-- ===== src/Decoders/Neighbor.antt =====
-- neighbordiagnostics.py: the neighbours that a node reports.
pub mod Parsed
pub mod Equal
use backend_client.Base.{
  ℕ, zero, suc, ◌+◌, Bool, true, false, Option, none, some, List, [], ◌∷◌, ◌++◌, Bytes, length,
  slice, ltb,
}
use backend_client.Base.Exceptions.{Result, ok, err, ◌>>=◌, index}
use backend_client.Decoders.Struct.{uint32, unpack_unsigned}

-- The dictionary of one neighbour. `self.neighbor` is a dictionary from 0, 1, … on: a list.
pub record Neighbor : Type 0 where
  pub address : ℕ
  pub cluster_channel : ℕ
  pub radio_power : ℕ
  pub node_info : ℕ
  pub rssi : ℕ

-- `s_address.unpack(self.data_payload[j : j + 3] + b"\x00")[0]`, none where it raises `struct.error`
abbrev pub first_of : Result (List ℕ) → Option ℕ
first_of (ok (address ∷ _)) = some address
first_of _ = none

abbrev pub address_at : Bytes → ℕ → Option ℕ
address_at data_payload j =
    first_of (unpack_unsigned (uint32 ∷ []) (slice j (j + 3) data_payload ++ 0 ∷ []))

-- The fields behind the address
abbrev pub neighbor_at : Bytes → ℕ → ℕ → Result Neighbor
neighbor_at data_payload j address = do
  cluster_channel ← index data_payload (j + 3)
  radio_power ← index data_payload (j + 4)
  node_info ← index data_payload (j + 5)
  rssi ← index data_payload (j + 6)
  ok (record {
    address = address;
    cluster_channel = cluster_channel;
    radio_power = radio_power;
    node_info = node_info;
    rssi = rssi;
  })

-- `while j < self.data_size`, none if the fuel does not suffice. `struct.error` is caught and ends the
-- loop, as an address of 0 does; `IndexError` is not caught.
unfoldable pub decode_loop : ℕ → Bytes → ℕ → List Neighbor → Option (Result (List Neighbor))
unfolding unpack_unsigned
decode_loop zero data_payload j neighbor = none
decode_loop (suc fuel) data_payload j neighbor = elim (ltb j (length data_payload)) [
  | false ↦ some (ok neighbor)
  | true ↦ elim (address_at data_payload j) [
    | none ↦ some (ok neighbor)
    | some address ↦ elim address [
      | zero ↦ some (ok neighbor)
      | suc a ↦ elim (neighbor_at data_payload j (suc a)) [
        | err raised ↦ some (err raised)
        | ok found ↦ decode_loop fuel data_payload (j + 7) (neighbor ++ found ∷ [])
      ]
    ]
  ]
]

-- `decode`: every round but the last takes seven bytes, so as many rounds as bytes and one are enough.
unfoldable pub decode : Bytes → Option (Result (List Neighbor))
unfolding decode_loop
decode data_payload = decode_loop (suc (length data_payload)) data_payload 0 []
