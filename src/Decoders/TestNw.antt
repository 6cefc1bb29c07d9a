-- ===== src/Decoders/TestNw.antt =====
-- testnw.py: the rows of test data that a node reports.
pub mod Rows
pub mod Values
pub mod Columns
pub mod Decoded
pub mod Settled
use backend_client.Base.{
  ℕ, zero, suc, ◌+◌, ◌*◌, ◌/◌, ◌%◌, ◌^◌, Bool, true, false, Option, none, some, List, [], ◌∷◌, ◌++◌,
  Bytes, length, get_elem?, ltb, eqb, if◌then◌else◌,
}
use backend_client.Base.Exceptions.{Result, ok, err, index, index_error, or_raise}
use backend_client.Base.State.{State, ◌>>=◌, ◌>>◌, done, gets, lift, modify}

-- The dictionary `apdu`: a column of each value, and the count of the rows
pub record Apdu : Type 0 where
  pub testdata_id : List ℕ
  pub row_count : ℕ
  pub id_ctrl : List ℕ
  pub number_of_fields : List ℕ
  pub bytes_per_field : List ℕ
  pub datafields : List (List ℕ)

-- The dictionary, and `apdu_offset`
pub record Decoding : Type 0 where
  pub apdu : Apdu
  pub apdu_offset : ℕ

abbrev pub M : Type 0 → Type 0
M = State Decoding

abbrev pub change : (Apdu → Apdu) → M (Unit {0})
change f = modify (λ s. record s { apdu = f s.apdu })

-- `apdu_offset += 1`
abbrev pub advance : M (Unit {0})
advance = modify (λ s. record s { apdu_offset = s.apdu_offset + 1 })

-- `column[i]` of a list
abbrev pub cell : ℕ → List ℕ → Result ℕ
cell i column = or_raise (get_elem? column i) index_error

-- `rows[i].append(value)`
abbrev pub append_at : ℕ → ℕ → List (List ℕ) → Result (List (List ℕ))
append_at i value [] = err index_error
append_at zero value (row ∷ rows) = ok ((row ++ value ∷ []) ∷ rows)
append_at (suc i) value (row ∷ rows) = elim (append_at i value rows) [
  | ok more ↦ ok (row ∷ more)
  | err x ↦ err x
]

abbrev pub append_value : ℕ → M (Unit {0})
append_value value = gets (λ s. append_at s.apdu.row_count value s.apdu.datafields) >>= λ r.
    lift r >>= λ rows. change (λ a. record a { datafields = rows })

-- The parts of the header, masked and shifted
abbrev pub put_testdata_id : ℕ → Apdu → Apdu
put_testdata_id b apdu = record apdu { testdata_id = apdu.testdata_id ++ b % 16 ∷ [] }

abbrev pub put_id_ctrl : ℕ → Apdu → Apdu
put_id_ctrl b apdu = record apdu { id_ctrl = apdu.id_ctrl ++ b % 256 / 16 * 16 ∷ [] }

abbrev pub put_number_of_fields : ℕ → Apdu → Apdu
put_number_of_fields b apdu = record apdu {
  number_of_fields = apdu.number_of_fields ++ b % 64 ∷ [];
}

abbrev pub put_bytes_per_field : ℕ → Apdu → Apdu
put_bytes_per_field b apdu = record apdu {
  bytes_per_field = apdu.bytes_per_field ++ (b / 64 + 1) ∷ [];
}

-- `self.apdu["row_count"] += 1`
abbrev pub counted : M (Unit {0})
counted = change (λ apdu. record apdu { row_count = apdu.row_count + 1 })

module _ (payload : Bytes) where
  -- `self.data_payload[apdu_offset]`
  abbrev pub byte : M ℕ
  byte = gets (λ s. index payload s.apdu_offset) >>= λ r. lift r

  -- `for j in range(…)`, the n rounds from j on
  unfoldable pub field_value : ℕ → ℕ → ℕ → M ℕ
  field_value zero j value = done value
  field_value (suc n) j value =
      byte >>= λ b. advance >> field_value n (suc j) (value + b * 2 ^ (j * 8))

  -- `for _ in range(…)`
  unfoldable pub fields : ℕ → M (Unit {0})
  unfolding field_value
  fields zero = done tt
  fields (suc n) = gets (λ s. cell s.apdu.row_count s.apdu.bytes_per_field) >>= λ r.
      lift r >>= λ width. field_value width 0 0 >>= λ value. append_value value >> fields n

  -- A byte of a row's header: two columns take a part of it.
  abbrev pub split : (ℕ → Apdu → Apdu) → (ℕ → Apdu → Apdu) → M (Unit {0})
  split first second =
      byte >>= λ b. change (first b) >> (byte >>= λ c. change (second c) >> advance)

  -- The two bytes of a row's header
  abbrev pub header : M (Unit {0})
  header = split put_testdata_id put_id_ctrl >> split put_number_of_fields put_bytes_per_field

  -- The new list of fields, and the loop over them
  abbrev pub row_fields : M (Unit {0})
  unfolding fields
  row_fields =
      change (λ apdu. record apdu { datafields = apdu.datafields ++ [] ∷ [] })
      >> (gets (λ s. cell s.apdu.row_count s.apdu.number_of_fields) >>= λ r.
          lift r >>= λ n. fields n >> counted)

  -- A round of the `while`, behind its tests
  unfoldable pub row : M (Unit {0})
  row = header >> row_fields

  -- `while apdu_offset < self.data_size`, with what was raised; none if the fuel does not suffice
  unfoldable pub loop : ℕ → Decoding → Option (Result (Unit {0}) × Decoding)
  unfolding row
  loop zero s = none
  loop (suc fuel) s = elim (ltb s.apdu_offset (length payload)) [
    | false ↦ some (ok tt, s)
    | true ↦ elim (index payload s.apdu_offset) [
      | err x ↦ some (err x, s)
      | ok first ↦ elim (eqb first 0) [
        | true ↦ some (ok tt, s)
        | false ↦
            let (r, next) = row s in elim r [ ok _ ↦ loop fuel next | err x ↦ some (err x, next) ]
      ]
    ]
  ]

abbrev pub no_rows : Apdu
no_rows = record {
  testdata_id = [];
  row_count = 0;
  id_ctrl = [];
  number_of_fields = [];
  bytes_per_field = [];
  datafields = [];
}

-- `except IndexError`: what was decoded stays.
abbrev pub caught : Option (Result (Unit {0}) × Decoding) → Option (Result Apdu)
caught none = none
caught (some (ok _, s)) = some (ok s.apdu)
caught (some (err index_error, s)) = some (ok s.apdu)
caught (some (err x, s)) = some (err x)

-- `decode`. Every round reads a byte at least, so length + 1 rounds are enough.
unfoldable pub decode : Bytes → Option (Result Apdu)
unfolding loop
decode data_payload =
    caught
      (loop data_payload (suc (length data_payload)) (record { apdu = no_rows; apdu_offset = 0 }))
