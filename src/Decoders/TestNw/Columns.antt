-- ===== src/Decoders/TestNw/Columns.antt =====
-- A round of the loop reads a row, and appends it to the columns.
use mathlib.Core.List.{map-append}
use backend_client.Base.{
  ℕ, ◌+◌, ◌*◌, ◌/◌, ◌%◌, ◌≡◌, refl, sym, ap, ◌∙◌, arith, List, [], ◌∷◌, ◌++◌, map, length, Bytes,
  drop, length-append,
}
use backend_client.Base.Exceptions.{ok}
use backend_client.Base.State.{>>=-ok, ◌>>=◌, ◌>>◌}
use backend_client.Decoders.TestNw.{
  Apdu, cell, change, byte, advance, split, header, fields, row_fields, counted, row,
  put_testdata_id, put_id_ctrl, put_number_of_fields, put_bytes_per_field,
}
use backend_client.Decoders.TestNw.Rows.{Row, width, IsRow, values_bytes, row_bytes, columns}
use backend_client.Decoders.TestNw.Values.{at, byte-at, drop-next, cell-last, filling, fields-read}

-- The columns with a header, whose fields are not there yet
abbrev headed : List Row → ℕ → ℕ → ℕ → ℕ → Apdu
headed rows testdata_id id_ctrl number_of_fields bytes_per_field = record {
  testdata_id = map (λ r. r.testdata_id) rows ++ testdata_id ∷ [];
  row_count = length rows;
  id_ctrl = map (λ r. 16 * r.id_ctrl) rows ++ id_ctrl ∷ [];
  number_of_fields = map (λ r. length r.fields) rows ++ number_of_fields ∷ [];
  bytes_per_field = map width rows ++ bytes_per_field ∷ [];
  datafields = map (λ r. r.fields) rows;
}

columns-append :
    (rows : List Row) (r : Row)
    → columns (rows ++ r ∷ []) ≡ record (filling rows r r.fields) { row_count = length rows + 1 }
columns-append rows r =
    let one = r ∷ [] in
    rw
      (
        length-append rows one,
        map-append (λ r. r.testdata_id) rows one,
        map-append (λ r. 16 * r.id_ctrl) rows one,
        map-append (λ r. length r.fields) rows one,
        map-append width rows one,
        map-append (λ r. r.fields) rows one,
      )
      refl

module _ (payload : Bytes) (rows : List Row) (i : ℕ) where
  split-read :
      (first second : ℕ → Apdu → Apdu) (a : Apdu) (j x : ℕ) (q : Bytes)
      → drop j payload ≡ x ∷ q
      → split payload first second (at a j) ≡ (ok tt, at (second x (first x a)) (j + 1))
  split-read first second a j x q h =
      >>=-ok (byte payload)
        (λ b. change (first b) >> (byte payload >>= λ c. change (second c) >> advance))
        (byte-at payload j x q a h)
      ∙ >>=-ok (byte payload) (λ c. change (second c) >> advance)
          (byte-at payload j x q (first x a) h)

  header-read :
      (a c : ℕ) (q : Bytes)
      → drop i payload ≡ a ∷ c ∷ q
      → header payload (at (columns rows) i)
        ≡ (ok tt, at (headed rows (a % 16) (a % 256 / 16 * 16) (c % 64) (c / 64 + 1)) (i + 1 + 1))
  header-read a c q h =
      >>=-ok (split payload put_testdata_id put_id_ctrl)
        (λ _. split payload put_number_of_fields put_bytes_per_field)
        (split-read put_testdata_id put_id_ctrl (columns rows) i a (c ∷ q) h)
      ∙ split-read put_number_of_fields put_bytes_per_field
          (put_id_ctrl a (put_testdata_id a (columns rows))) (i + 1) c q
          (drop-next payload i a (c ∷ q) h)

  header-row :
      (r : Row) (q : Bytes)
      → IsRow r
      → drop i payload ≡ row_bytes r ++ q
      → header payload (at (columns rows) i) ≡ (
        ok tt,
        at (headed rows r.testdata_id (16 * r.id_ctrl) (length r.fields) (width r)) (i + 1 + 1),
      )
  header-row r q (_, id, ctrl, more, count, _) h =
      let a = r.testdata_id + 16 * r.id_ctrl in
      let c = length r.fields + 64 * r.more_bytes in
      let e1 : a % 16 ≡ r.testdata_id = omega arith in
      let e2 : a % 256 / 16 * 16 ≡ 16 * r.id_ctrl = omega arith in
      let e3 : c % 64 ≡ length r.fields = omega arith in
      let e4 : c / 64 + 1 ≡ width r = omega arith in
      header-read a c (values_bytes (width r) r.fields ++ q) h ∙ rw (e1, e2, e3, e4) refl

  pub row-read :
      (r : Row) (q : Bytes)
      → IsRow r
      → drop i payload ≡ row_bytes r ++ q
      → row payload (at (columns rows) i)
        ≡ (ok tt, at (columns (rows ++ r ∷ [])) (i + length (row_bytes r)))
  unfolding row fields
  row-read r q valid h =
      let values = values_bytes (width r) r.fields in
      let inside : drop (i + 1 + 1) payload ≡ values ++ q =
        drop-next payload (i + 1) _ (values ++ q) (drop-next payload i _ _ h) in
      let (_, _, _, _, _, fit) = valid in
      let cells = cell-last (λ r. length r.fields) rows (length r.fields) in
      let place : i + 1 + 1 + length values ≡ i + length (row_bytes r) = omega arith in
      let read =
        fields-read payload rows r r.fields [] q (i + 1 + 1) fit inside
        ∙ ap (λ k. (ok tt, at (filling rows r r.fields) k)) place in
      >>=-ok (header payload) (λ _. row_fields payload) (header-row r q valid h)
      ∙ >>=-ok (λ s. (cell s.apdu.row_count s.apdu.number_of_fields, s))
          (λ n. fields payload n >> counted)
          (ap (λ c. (c, at (filling rows r []) (i + 1 + 1))) cells)
      ∙ >>=-ok (fields payload (length r.fields)) (λ _. counted) read
      ∙ ap (λ a. (ok tt, at a (i + length (row_bytes r)))) (sym (columns-append rows r))
