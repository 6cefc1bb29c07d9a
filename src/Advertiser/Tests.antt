-- ===== src/Advertiser/Tests.antt =====
-- An advertiser's packet with signal strengths.
use backend_client.Base.{◌≡◌, [], ◌∷◌, arith, nat_eq}
use backend_client.Base.Exceptions.{ok}
use backend_client.Advertiser.{three_bytes, decode}
use backend_client.Advertiser.Wire.{noted, decode-wire}

-- Two measurements of one device, one of another, and a byte too many.
decode-wire_example :
    decode 1000 (2 ∷ 9 ∷ 1 ∷ 1 ∷ 0 ∷ 100 ∷ 2 ∷ 0 ∷ 0 ∷ 254 ∷ 1 ∷ 1 ∷ 0 ∷ 110 ∷ 77 ∷ [])
    ≡ ok (record {
      adv_type = 2;
      adv_reserved_field = 9;
      adv = noted 2 1000 ((257, 100) ∷ (2, 254) ∷ (257, 110) ∷ []) [];
    })
decode-wire_example =
    decode-wire three_bytes 1000 2 9 ((257, 100) ∷ (2, 254) ∷ (257, 110) ∷ []) (77 ∷ [])
      (omega arith) (omega arith, (omega arith, (omega arith, tt))) (omega arith)
