-- ===== src/Decoders/Tlv/Items.antt =====
-- What `tlv_decoder` makes of a sequence of known items.
use mathlib.Core.List.{append_assoc}
use native.Mathlib.Nat.{mul-div_cancel}
use backend_client.Base.{
  ℕ, ◌+◌, ◌-◌, ◌*◌, ◌/◌, ◌≤◌, ◌<◌, ◌≡◌, refl, sym, ap, ◌∙◌, arith, some, List, [], ◌∷◌, ◌++◌, Bytes,
  length, take, drop, slice, joined, drop-drop, take-append_left, drop-append_left, length-append,
  eqb_iff, nat_eq,
}
use backend_client.Base.Dict.{Dict, lookup}
use backend_client.Base.Exceptions.{Result, ok, ◌>>=◌, >>=-assoc}
use backend_client.Decoders.Struct.{
  Code, uint8, uint16, uint32, int32, calcsize, raw_fields, values_of, unpack,
}
use backend_client.Decoders.Tlv.{Field, codes, OnValue, values, item}

-- An item as a device writes it: a type of the table, and the bytes of its values
pub record Item : Type 0 where
  pub tlv_id : ℕ
  pub field : Field
  pub format : Code × List Code
  pub blocks : List Bytes

-- All blocks have the length n.
abbrev pub HaveLength : ℕ → List Bytes → Type 0
HaveLength n [] = Unit
HaveLength n (b ∷ more) = (length b ≡ n) × HaveLength n more

abbrev pub IsItem : Dict ℕ Field → Item → Type 0
IsItem fields it =
    (lookup it.tlv_id fields ≡ some it.field)
    × (it.field.format ≡ some it.format)
    × (1 ≤ length it.blocks)
    × HaveLength (calcsize (codes it.format)) it.blocks

abbrev pub AreItems : Dict ℕ Field → List Item → Type 0
AreItems fields [] = Unit
AreItems fields (it ∷ more) = IsItem fields it × AreItems fields more

abbrev pub item_bytes : Item → Bytes
item_bytes it = it.tlv_id ∷ length it.blocks * calcsize (codes it.format) ∷ joined it.blocks

abbrev pub items_bytes : List Item → Bytes
items_bytes [] = []
items_bytes (it ∷ more) = item_bytes it ++ items_bytes more

-- The part of the payload that starts with a block of known length
pub slice-block :
    (start : ℕ) (payload block rest : Bytes)
    → drop start payload ≡ block ++ rest
    → (slice start (start + length block) payload ≡ block)
      × (drop (start + length block) payload ≡ rest)
slice-block start payload block rest at =
    let eq : (start + length block) - start ≡ length block = omega arith in
    (
      ap (λ n. take n (drop start payload)) eq
          ∙ ap (take (length block)) at
          ∙ take-append_left (length block) block rest refl,
      sym (drop-drop start (length block) payload)
          ∙ ap (drop (length block)) at
          ∙ drop-append_left (length block) block rest refl,
    )

unpack-block :
    (format : List Code) (block : Bytes)
    → length block ≡ calcsize format
    → unpack format block ≡ ok (values_of format (raw_fields format block))
unfolding unpack
unpack-block format block l = rw ((eqb_iff (length block) (calcsize format)).1 l) refl

pub size-positive : (format : Code × List Code) → 0 < calcsize (codes format)
size-positive (uint8, more) = omega arith
size-positive (uint16, more) = omega arith
size-positive (uint32, more) = omega arith
size-positive (int32, more) = omega arith

pub joined-positive :
    (n : ℕ) (blocks : List Bytes)
    → 1 ≤ length blocks
    → HaveLength n blocks
    → 1 ≤ n
    → 1 ≤ length (joined blocks)
joined-positive n [] some_blocks h l = absurd (omega arith)
joined-positive n (b ∷ more) some_blocks h l = omega (arith, length-append b (joined more), h.0)

module _ {ℓ} {S : Type ℓ} (fields : Dict ℕ Field) (on_value : OnValue S) where
  -- What is done with the values of an item, and of all items, one by one
  abbrev pub stored : Item → List Bytes → S → Result S
  stored it [] apdu = ok apdu
  stored it (b ∷ more) apdu =
      on_value it.tlv_id it.field (values_of (codes it.format) (raw_fields (codes it.format) b))
        apdu
      >>= stored it more

  abbrev pub stored_all : List Item → S → Result S
  stored_all [] apdu = ok apdu
  stored_all (it ∷ more) apdu = stored it it.blocks apdu >>= stored_all more

  values-blocks :
      (payload rest : Bytes) (it : Item) (blocks : List Bytes) (start : ℕ) (apdu : S)
      → HaveLength (calcsize (codes it.format)) blocks
      → drop start payload ≡ joined blocks ++ rest
      → values fields on_value payload
          (length blocks)
          it.tlv_id
          it.field
          (codes it.format)
          start
          apdu
        ≡ (stored it blocks apdu >>= λ next. ok (start + length (joined blocks), next))
  unfolding values
  values-blocks payload rest it [] start apdu h at = ap (λ k. ok (k, apdu)) (omega arith)
  values-blocks payload rest it (b ∷ blocks) start apdu h at =
      let size = calcsize (codes it.format) in
      let cut =
        slice-block start payload b (joined blocks ++ rest)
          (at ∙ append_assoc b (joined blocks) rest) in
      let read : unpack (codes it.format) (slice start (start + size) payload)
          ≡ ok (values_of (codes it.format) (raw_fields (codes it.format) b)) =
        ap (λ n. unpack (codes it.format) (slice start (start + n) payload)) (sym h.0)
        ∙ ap (unpack (codes it.format)) cut.0
        ∙ unpack-block (codes it.format) b h.0 in
      let behind : drop (start + size) payload ≡ joined blocks ++ rest =
        ap (λ n. drop (start + n) payload) (sym h.0) ∙ cut.1 in
      let far : (start + size) + length (joined blocks) ≡ start + length (b ++ joined blocks) =
        omega (arith, length-append b (joined blocks), h.0) in
      rw (values, read)
        (>>=-assoc
          (on_value it.tlv_id it.field
            (values_of (codes it.format) (raw_fields (codes it.format) b)) apdu)
          (stored it blocks) (λ last. ok (start + length (b ++ joined blocks), last))
          (λ next.
            values-blocks payload rest it blocks (start + size) next h.1 behind
            ∙ ap (λ k. stored it blocks next >>= λ last. ok (k, last)) far))

  -- An item of values that are there
  pub item-blocks :
      (payload rest : Bytes) (it : Item) (start : ℕ) (apdu : S)
      → IsItem fields it
      → drop start payload ≡ joined it.blocks ++ rest
      → item fields on_value payload it.tlv_id
          (length it.blocks * calcsize (codes it.format))
          start
          apdu
        ≡ (stored it it.blocks apdu >>= λ next. ok (start + length (joined it.blocks), next))
  unfolding item
  item-blocks payload rest it start apdu h at =
      let whole : length it.blocks * calcsize (codes it.format) / calcsize (codes it.format)
          ≡ length it.blocks =
        mul-div_cancel (length it.blocks) (size-positive it.format) in
      simp (item, h.0, h.1, whole) (values-blocks payload rest it it.blocks start apdu h.3 at)
