-- ===== src/Decoders/Tlv/Sequence.antt =====
-- A payload of known items is decoded item by item.
use mathlib.Core.Path.{ap₂}
use backend_client.Base.{
  ℕ, suc, ◌+◌, ◌-◌, ◌*◌, ◌≤◌, ◌<◌, ◌≡◌, refl, ap, ◌∙◌, arith, none, some, List, [], ◌∷◌, ◌++◌,
  Bytes, length, drop, joined, inl, inr, length-append, false, true, le→leb, leb, nat_eq,
}
use backend_client.Base.Dict.{Dict}
use backend_client.Base.Exceptions.{Result-cases}
use backend_client.Decoders.Struct.{calcsize, raw_fields, unpack_unsigned}
use backend_client.Base.Little.{unsigned_little}
use backend_client.Decoders.Tlv.{Field, codes, OnValue, next_header, tlv_loop, tlv_decoder}
use backend_client.Decoders.Tlv.Rounds.{tlv_loop-ended, tlv_loop-raised, tlv_loop-next}
use backend_client.Decoders.Tlv.Items.{
  Item, AreItems, items_bytes, slice-block, size-positive, joined-positive, stored, stored_all,
  item-blocks,
}

module _ {ℓ} {S : Type ℓ} (fields : Dict ℕ Field) (on_value : OnValue S) where
  next_header-item :
      (payload rest : Bytes) (data_size start tlv_id tlv_len : ℕ)
      → drop start payload ≡ tlv_id ∷ tlv_len ∷ rest
      → start + 2 < data_size
      → next_header fields on_value payload data_size start ≡ some (tlv_id, tlv_len)
  unfolding next_header unpack_unsigned raw_fields unsigned_little
  next_header-item payload rest data_size start tlv_id tlv_len at inside =
      let cut = slice-block start payload (tlv_id ∷ tlv_len ∷ []) rest at in
      let on : leb data_size (start + 2) ≡ false = ground arith in
      rw (next_header, on, cut.0)
        (ap (λ h. some h) (ap₂ (λ a b. (a, b)) (omega arith) (omega arith)))

  next_header-end :
      (payload : Bytes) (data_size start : ℕ)
      → data_size ≤ start + 2
      → next_header fields on_value payload data_size start ≡ none
  unfolding next_header
  next_header-end payload data_size start h =
      let past : leb data_size (start + 2) ≡ true = le→leb data_size (start + 2) h in
      rw (next_header, past) refl

  header_and_values :
      (payload : Bytes) (it : Item) (more : List Item) (start : ℕ)
      → drop start payload ≡ items_bytes (it ∷ more)
      → (drop (start + 2) payload ≡ joined it.blocks ++ items_bytes more)
        × (drop (start + 2 + length (joined it.blocks)) payload ≡ items_bytes more)
  header_and_values payload it more start at =
      let head = it.tlv_id ∷ length it.blocks * calcsize (codes it.format) ∷ [] in
      let first = slice-block start payload head (joined it.blocks ++ items_bytes more) at in
      (first.1, (slice-block (start + 2) payload (joined it.blocks) (items_bytes more) first.1).1)

  -- From the start of an item on, the loop stores what the items hold.
  tlv_loop-items :
      (payload : Bytes) (items : List Item) (data_size fuel start : ℕ) (apdu : S)
      → AreItems fields items
      → drop start payload ≡ items_bytes items
      → start + length (items_bytes items) ≤ data_size
      → data_size ≤ start + length (items_bytes items) + 2
      → 1 ≤ fuel
      → data_size < fuel + start
      → tlv_loop fields on_value payload fuel data_size start apdu
        ≡ some (stored_all fields on_value items apdu)
  tlv_loop-items payload [] data_size fuel start apdu h at least most some_fuel enough =
      tlv_loop-ended fields on_value payload fuel data_size start apdu some_fuel
        (next_header-end payload data_size start (omega arith))
  tlv_loop-items payload (it ∷ more) data_size fuel start apdu h at least most some_fuel enough =
      let (head, behind) = header_and_values payload it more start at in
      let here =
        joined-positive (calcsize (codes it.format)) it.blocks h.0.2 h.0.3
          (size-positive it.format) in
      let sum = length-append (joined it.blocks) (items_bytes more) in
      let header : ℕ × ℕ = (it.tlv_id, length it.blocks * calcsize (codes it.format)) in
      let found =
        next_header-item payload (joined it.blocks ++ items_bytes more) data_size start header.0
          header.1 at (omega arith) in
      let read =
        item-blocks fields on_value payload (items_bytes more) it (start + 2) apdu h.0 head in
      elim (Result-cases (stored fields on_value it it.blocks apdu)) [
        | inr (x, raised) ↦
            tlv_loop-raised fields on_value payload fuel data_size start header apdu some_fuel found
              (rw raised at read)
            ∙ rw raised refl
        | inl (next, done) ↦
            let last = start + 2 + length (joined it.blocks) in
            tlv_loop-next fields on_value payload fuel data_size start header apdu
              {next = (last, next)} some_fuel found (rw done at read)
            ∙ tlv_loop-items payload more data_size (fuel - 1) last next h.1 behind (omega arith)
                (omega arith) (omega arith) (omega arith)
            ∙ rw done refl
      ]

  -- A payload of known items, each with values, is decoded to what its values give one by one, also
  -- where the decoder is told of up to two bytes more.
  pub tlv_decoder-items :
      (items : List Item) (data_size : ℕ) (apdu : S)
      → AreItems fields items
      → length (items_bytes items) ≤ data_size
      → data_size ≤ length (items_bytes items) + 2
      → tlv_decoder fields on_value (items_bytes items) data_size apdu
        ≡ some (stored_all fields on_value items apdu)
  unfolding tlv_decoder
  tlv_decoder-items items data_size apdu h at_least at_most =
      tlv_loop-items (items_bytes items) items data_size (suc data_size) 0 apdu h refl (omega arith)
        (omega arith) (omega arith) (omega arith)
