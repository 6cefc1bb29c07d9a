-- ===== src/Decoders/TestNw/Decoded.antt =====
-- The rows that a node reports, and the columns that `decode` makes of them.
use mathlib.Core.List.{append_assoc, append-nil}
use backend_client.Base.{
  ℕ, zero, suc, ◌+◌, ◌*◌, ◌<◌, ◌≡◌, refl, sym, ap, ◌∙◌, arith, true, false, some, List, [], ◌∷◌,
  ◌++◌, length, Bytes, drop, drop-drop, drop-append_left, length-drop, length-append, All, ltb, eqb,
  lt→ltb,
}
use backend_client.Base.Exceptions.{ok}
use backend_client.Decoders.TestNw.{Apdu, caught, loop, decode}
use backend_client.Decoders.TestNw.Rows.{Row, IsRow, row_bytes, rows_bytes, columns}
use backend_client.Decoders.TestNw.Values.{at, index-at}
use backend_client.Decoders.TestNw.Columns.{row-read}

-- What the rows end at: the end of the payload, or a zero
abbrev pub IsEnd : Bytes → Type 0
IsEnd [] = Unit
IsEnd (b ∷ padding) = b ≡ 0

module _ (payload : Bytes) where
  inside : (i : ℕ) (x : ℕ) (q : Bytes) → drop i payload ≡ x ∷ q → ltb i (length payload) ≡ true
  inside i x q h = lt→ltb i (length payload) (omega (arith, length-drop i payload, ap length h))

  outside : (i : ℕ) → drop i payload ≡ [] → ltb i (length payload) ≡ false
  outside i h = let l = length-drop i payload in let e = ap length h in ground arith

  loop-end :
      (fuel i : ℕ) (a : Apdu) (tail : Bytes)
      → IsEnd tail
      → drop i payload ≡ tail
      → loop payload (suc fuel) (at a i) ≡ some (ok tt, at a i)
  unfolding loop
  loop-end fuel i a [] end h = rw (loop, outside i h) refl
  loop-end fuel i a (b ∷ padding) end h =
      let zero_at = index-at payload i b padding h ∙ ap ok end in
      rw (loop, inside i b padding h, zero_at) refl

  loop-row :
      (fuel i : ℕ) (rows : List Row) (r : Row) (q : Bytes)
      → IsRow r
      → drop i payload ≡ row_bytes r ++ q
      → loop payload (suc fuel) (at (columns rows) i)
        ≡ loop payload fuel (at (columns (rows ++ r ∷ [])) (i + length (row_bytes r)))
  unfolding loop
  loop-row fuel i rows r q valid h =
      let first = r.testdata_id + 16 * r.id_ctrl in
      let read = row-read payload rows i r q valid h in
      let (some_bits, _, _, _, _, _) = valid in
      let more : eqb first 0 ≡ false = ground arith in
      rw (loop, inside i first _ h, index-at payload i first _ h, more, ap (λ t. t.0) read)
        (ap (λ t. loop payload fuel t.1) read)

  loop-rows :
      (rows before : List Row) (tail : Bytes) (fuel i : ℕ)
      → All IsRow rows
      → IsEnd tail
      → drop i payload ≡ rows_bytes rows ++ tail
      → length (rows_bytes rows) < fuel
      → caught (loop payload fuel (at (columns before) i)) ≡ some (ok (columns (before ++ rows)))
  loop-rows rows before tail zero i valid end h enough = absurd (omega arith)
  loop-rows [] before tail (suc fuel) i valid end h enough =
      ap caught (loop-end fuel i (columns before) tail end h)
      ∙ ap (λ l. some (ok (columns l))) (sym (append-nil before))
  loop-rows (r ∷ rows) before tail (suc fuel) i (first, valid) end h enough =
      let q = rows_bytes rows in
      let here : drop i payload ≡ row_bytes r ++ (q ++ tail) =
        h ∙ append_assoc (row_bytes r) q tail in
      let there : drop (i + length (row_bytes r)) payload ≡ q ++ tail =
        sym (drop-drop i (length (row_bytes r)) payload)
        ∙ ap (drop (length (row_bytes r))) here
        ∙ drop-append_left (length (row_bytes r)) (row_bytes r) (q ++ tail) refl in
      let l = length-append (row_bytes r) q in
      ap caught (loop-row fuel i before r (q ++ tail) first here)
      ∙ loop-rows rows (before ++ r ∷ []) tail fuel (i + length (row_bytes r)) valid end there
          (omega arith)
      ∙ ap (λ l. some (ok (columns l))) (append_assoc before (r ∷ []) rows)

-- Rows whose numbers fit their bits, up to the end of the payload or a zero byte, are decoded to their
-- columns: the identifiers, the controls (which keep their place in the byte), the numbers of fields, the
-- widths, and the fields of each row.
pub decode-rows :
    (rows : List Row) (tail : Bytes)
    → All IsRow rows
    → IsEnd tail
    → decode (rows_bytes rows ++ tail) ≡ some (ok (columns rows))
unfolding decode
decode-rows rows tail valid end =
    loop-rows (rows_bytes rows ++ tail) rows [] tail (suc (length (rows_bytes rows ++ tail))) 0
      valid end refl (omega (arith, length-append (rows_bytes rows) tail))
