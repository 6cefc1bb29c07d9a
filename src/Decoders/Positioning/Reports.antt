-- ===== src/Decoders/Positioning/Reports.antt =====
-- The reports of a positioning tag as it writes them, and the measurements that `decode` makes of them.
use Prim.Native.String.{String}
use mathlib.Core.List.{append_assoc, append-nil}
use mathlib.Core.Path.{ap₂}
use backend_client.Base.{
  ℕ, ◌+◌, ◌*◌, ◌/◌, ◌%◌, ◌^◌, ◌<◌, ◌≡◌, refl, sym, ap, ◌∙◌, arith, List, [], ◌∷◌, ◌++◌, some, map,
  length, Bytes, drop, slice, length-append, take-append_left, drop-append_left,
}
use backend_client.Base.Int.{pos}
use backend_client.Base.Little.{to_little, unsigned_little, length-to_little}
use backend_client.Base.Exceptions.{Result, ok}
use backend_client.Decoders.Struct.{uint16, raw_fields, unpack_unsigned}
use backend_client.Decoders.Struct.Packed.{unpack-pack}
use backend_client.Decoders.Tlv.Items.{Item, IsItem, AreItems, items_bytes, stored, stored_all}
use backend_client.Decoders.Tlv.Sequence.{tlv_decoder-items}
use backend_client.Decoders.Positioning.{
  pos_app_meas_rss_sr, pos_app_meas_rss_hr, pos_app_meas_voltage, pos_app_meas_rss_sr_anchor,
  four_bytes, half, one, apdu_fields, tlv_value_decoder, Measurement, strength, voltage,
  after_sequence, with_measurements, decode,
}

-- An anchor's address and its strength, by the kind of the measurement, or the voltage of the tag
pub data Report : Type 0 where
  rss_sr rss_hr rss_sr_anchor : ℕ → ℕ → Report
  battery : ℕ → Report

abbrev anchor_bytes : ℕ → ℕ → List Bytes
anchor_bytes address rss = (address % 256 ∷ address / 256 % 256 ∷ address / 65536 ∷ rss ∷ []) ∷ []

abbrev pub item_of : Report → Item
item_of (rss_sr address rss) = record {
  tlv_id = 0x00;
  field = pos_app_meas_rss_sr;
  format = four_bytes;
  blocks = anchor_bytes address rss;
}
item_of (rss_hr address rss) = record {
  tlv_id = 0x01;
  field = pos_app_meas_rss_hr;
  format = four_bytes;
  blocks = anchor_bytes address rss;
}
item_of (rss_sr_anchor address rss) = record {
  tlv_id = 0xF0;
  field = pos_app_meas_rss_sr_anchor;
  format = four_bytes;
  blocks = anchor_bytes address rss;
}
item_of (battery value) = record {
  tlv_id = 0x04;
  field = pos_app_meas_voltage;
  format = (uint16, []);
  blocks = (value % 256 ∷ value / 256 ∷ []) ∷ [];
}

abbrev pub measurement_of : Report → Measurement
measurement_of (rss_sr address rss) =
    strength "POS_APP_MEAS_RSS_SR" address (record { value = pos rss; unit = half }) 0x00
measurement_of (rss_hr address rss) =
    strength "POS_APP_MEAS_RSS_HR" address (record { value = pos rss; unit = half }) 0x01
measurement_of (rss_sr_anchor address rss) =
    strength "POS_APP_MEAS_RSS_SR_ANCHOR" address (record { value = pos rss; unit = half }) 0xF0
measurement_of (battery value) =
    voltage "POS_APP_MEAS_VOLTAGE" (record { value = pos value; unit = one }) 0x04

item_of-IsItem : (r : Report) → IsItem apdu_fields (item_of r)
item_of-IsItem (rss_sr address rss) = (refl, refl, omega arith, (refl, tt))
item_of-IsItem (rss_hr address rss) = (refl, refl, omega arith, (refl, tt))
item_of-IsItem (rss_sr_anchor address rss) = (refl, refl, omega arith, (refl, tt))
item_of-IsItem (battery value) = (refl, refl, omega arith, (refl, tt))

items-AreItems : (reports : List Report) → AreItems apdu_fields (map item_of reports)
items-AreItems [] = tt
items-AreItems (r ∷ more) = (item_of-IsItem r, items-AreItems more)

same_strength :
    (name : String) (address rss meas_type : ℕ) (measurements : List Measurement)
    → Path
        (Result (List Measurement))
        (ok (
          measurements
          ++ strength name
              (address % 256 + 0 + 256 * (address / 256 % 256 + 0) + 65536 * (address / 65536 + 0))
              (record { value = pos (rss + 0); unit = half })
              meas_type
            ∷ []))
        (ok (
          measurements
          ++ strength name address (record { value = pos rss; unit = half }) meas_type ∷ []))
same_strength name address rss meas_type measurements =
    ap₂
      (λ a r.
        ok (measurements ++ strength name a (record { value = pos r; unit = half }) meas_type ∷ []))
      (omega arith) (omega arith)

stored-report :
    (r : Report) (measurements : List Measurement)
    → stored apdu_fields tlv_value_decoder (item_of r) (item_of r).blocks measurements
      ≡ ok (measurements ++ measurement_of r ∷ [])
unfolding raw_fields unsigned_little
stored-report (rss_sr address rss) measurements = same_strength _ address rss 0x00 measurements
stored-report (rss_hr address rss) measurements = same_strength _ address rss 0x01 measurements
stored-report (rss_sr_anchor address rss) measurements =
    same_strength _ address rss 0xF0 measurements
stored-report (battery value) measurements =
    ap
      (λ v. ok (
        measurements
        ++ voltage "POS_APP_MEAS_VOLTAGE" (record { value = pos v; unit = one }) 0x04 ∷ []))
      (the_value value)
  where
    the_value : (v : ℕ) → v % 256 + 256 * (v / 256 + 0) ≡ v
    the_value v = omega arith

stored_all-reports :
    (reports : List Report) (measurements : List Measurement)
    → stored_all apdu_fields tlv_value_decoder (map item_of reports) measurements
      ≡ ok (measurements ++ map measurement_of reports)
stored_all-reports [] measurements = ap ok (sym (append-nil measurements))
stored_all-reports (r ∷ more) measurements = rw (stored-report r measurements) (
    stored_all-reports more (measurements ++ measurement_of r ∷ [])
    ∙ ap ok (append_assoc measurements (measurement_of r ∷ []) (map measurement_of more)))

-- The payload of a sequence number and reports is decoded to the number, the count of the reports and
-- their measurements in order, although the size that the items are read by is two bytes too large.
pub decode-reports :
    (sequence : ℕ) (reports : List Report)
    → sequence < 256 ^ 2
    → decode (to_little 2 sequence ++ items_bytes (map item_of reports))
      ≡ some (
          ok (record {
            sequence = sequence;
            nb_measurements = length (map measurement_of reports);
            measurements = map measurement_of reports;
          }))
unfolding decode
decode-reports sequence reports h =
    let first = to_little 2 sequence in
    let body = items_bytes (map item_of reports) in
    let l : length first ≡ 2 = length-to_little 2 sequence in
    let head : slice 0 2 (first ++ body) ≡ first = take-append_left 2 first body l in
    let rest : drop 2 (first ++ body) ≡ body = drop-append_left 2 first body l in
    let read : unpack_unsigned (uint16 ∷ []) first ≡ ok (sequence ∷ []) =
      ap (unpack_unsigned (uint16 ∷ [])) (sym (append-nil first))
      ∙ unpack-pack (uint16 ∷ []) (sequence ∷ []) (h, tt) in
    let whole = length-append first body in
    let items =
      tlv_decoder-items apdu_fields tlv_value_decoder (map item_of reports) (length (first ++ body))
        [] (items-AreItems reports) (omega arith) (omega arith)
      ∙ ap some (stored_all-reports reports []) in
    ap (λ b. after_sequence (drop 2 (first ++ body)) (length (first ++ body)) b)
      (ap (unpack_unsigned (uint16 ∷ [])) head ∙ read)
    ∙ ap (λ b. after_sequence b (length (first ++ body)) (ok (sequence ∷ []))) rest
    ∙ ap (with_measurements sequence) items
