-- ===== src/Decoders/Endpoints.antt =====
-- wirepas_backend_client/messages/interface.py: the choice of a decoder by the endpoints of a message.
use backend_client.Base.{ℕ, ◌≡◌, ◌≢◌, ◌↔◌, refl, arith, Option, none, some, [], ◌∷◌, nat_eq}
use backend_client.Base.Dict.{Dict, lookup, insert}

-- The classes of the decoders
pub data Decoder : Type 0 where
  generic ruuvi test_nw advertiser positioning diagnostics traffic_diagnostics : Decoder
  neighbor_diagnostics node_diagnostics boot_diagnostics : Decoder

-- Their attributes `source_endpoint` and `destination_endpoint`
abbrev pub source_endpoint : Decoder → ℕ
source_endpoint generic = 0
source_endpoint ruuvi = 11
source_endpoint test_nw = 100
source_endpoint advertiser = 200
source_endpoint positioning = 238
source_endpoint diagnostics = 247
source_endpoint traffic_diagnostics = 251
source_endpoint neighbor_diagnostics = 252
source_endpoint node_diagnostics = 253
source_endpoint boot_diagnostics = 254

abbrev pub destination_endpoint : Decoder → ℕ
destination_endpoint generic = 0
destination_endpoint ruuvi = 11
destination_endpoint test_nw = 100
destination_endpoint advertiser = 200
destination_endpoint positioning = 238
destination_endpoint diagnostics = 255
destination_endpoint traffic_diagnostics = 255
destination_endpoint neighbor_diagnostics = 255
destination_endpoint node_diagnostics = 255
destination_endpoint boot_diagnostics = 255

-- `_endpoint[c.source_endpoint] = {c.destination_endpoint: c}`
abbrev pub registered : Decoder → Dict ℕ (Dict ℕ Decoder) → Dict ℕ (Dict ℕ Decoder)
registered c = insert (source_endpoint c) ((destination_endpoint c, c) ∷ [])

-- `MessageManager._endpoint`
abbrev pub endpoint : Dict ℕ (Dict ℕ Decoder)
endpoint = registered boot_diagnostics (
    registered node_diagnostics (
      registered neighbor_diagnostics (
        registered traffic_diagnostics (
          registered diagnostics (
            registered positioning (
              registered advertiser
                (registered test_nw (registered ruuvi (registered generic [])))))))))

-- `MessageManager.map`, for endpoints that are numbers: a KeyError gives the generic decoder.
abbrev pub found_in : Option (Dict ℕ Decoder) → ℕ → Decoder
found_in none destination = generic
found_in (some destinations) destination = elim (lookup destination destinations) [
  | none ↦ generic
  | some c ↦ c
]

unfoldable pub map : ℕ → ℕ → Decoder
map source destination = found_in (lookup source endpoint) destination

-- A decoder but the generic one is chosen exactly for its own pair of endpoints: no two decoders share
-- one, none hides another, and every other pair is left to the generic decoder.
pub map_iff :
    (c : Decoder) (source destination : ℕ)
    → c ≢ generic
    → (map source destination ≡ c)
      ↔ ((source ≡ source_endpoint c) × (destination ≡ destination_endpoint c))
unfolding map
map_iff generic source destination h = absurd (h refl)
map_iff ruuvi source destination h = ground arith
map_iff test_nw source destination h = ground arith
map_iff advertiser source destination h = ground arith
map_iff positioning source destination h = ground arith
map_iff diagnostics source destination h = ground arith
map_iff traffic_diagnostics source destination h = ground arith
map_iff neighbor_diagnostics source destination h = ground arith
map_iff node_diagnostics source destination h = ground arith
map_iff boot_diagnostics source destination h = ground arith
