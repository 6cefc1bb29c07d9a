-- ===== src/Decoders/TestNw/Rows.antt =====
-- Rows of test data, as bytes and as columns.
use backend_client.Base.{
  ℕ, suc, ◌+◌, ◌*◌, ◌^◌, ◌<◌, ◌≤◌, List, ◌∷◌, map, length, Bytes, joined, All,
}
use backend_client.Base.Little.{to_little}
use backend_client.Decoders.TestNw.{Apdu}

-- A row: the two halves of its first byte, the number of bytes of a field, less one, and the fields
pub record Row : Type 0 where
  pub testdata_id : ℕ
  pub id_ctrl : ℕ
  pub more_bytes : ℕ
  pub fields : List ℕ

abbrev pub width : Row → ℕ
width r = suc r.more_bytes

-- The numbers fit their bits, a field its bytes, and the first byte is not the zero that ends the rows.
abbrev pub IsRow : Row → Type 0
IsRow r =
    (1 ≤ r.testdata_id + 16 * r.id_ctrl)
    × (r.testdata_id < 16)
    × (r.id_ctrl < 16)
    × (r.more_bytes < 4)
    × (length r.fields < 64)
    × All (λ v. v < 256 ^ width r) r.fields

abbrev pub values_bytes : ℕ → List ℕ → Bytes
values_bytes w vs = joined (map (to_little w) vs)

abbrev pub row_bytes : Row → Bytes
row_bytes r =
    (r.testdata_id + 16 * r.id_ctrl)
    ∷ (length r.fields + 64 * r.more_bytes)
    ∷ values_bytes (width r) r.fields

abbrev pub rows_bytes : List Row → Bytes
rows_bytes rows = joined (map row_bytes rows)

-- The columns of rows
abbrev pub columns : List Row → Apdu
columns rows = record {
  testdata_id = map (λ r. r.testdata_id) rows;
  row_count = length rows;
  id_ctrl = map (λ r. 16 * r.id_ctrl) rows;
  number_of_fields = map (λ r. length r.fields) rows;
  bytes_per_field = map width rows;
  datafields = map (λ r. r.fields) rows;
}
