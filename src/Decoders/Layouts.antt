-- ===== src/Decoders/Layouts.antt =====
-- What the reports of nodes hold after they were packed and decoded.
use Prim.Native.String.{String}
use mathlib.Core.Path.{subst}
use backend_client.Base.{
  ℕ, zero, suc, ◌+◌, ◌*◌, ◌/◌, ◌%◌, ◌^◌, ◌≡◌, refl, sym, ap, ◌∙◌, arith, List, [], ◌∷◌, ◌++◌, Bytes,
  length,
}
use backend_client.Base.Dict.{Dict}
use backend_client.Base.Exceptions.{Result, ok}
use backend_client.Decoders.Struct.{Code, calcsize, unpack_unsigned}
use backend_client.Decoders.Struct.Packed.{pack, Fits, length-pack, unpack-pack}
use backend_client.Decoders.Node
use backend_client.Decoders.Traffic
use backend_client.Decoders.Boot

-- The number at a place, 0 past the end
abbrev pub at : List ℕ → ℕ → ℕ
at [] i = 0
at (n ∷ values) zero = n
at (n ∷ values) (suc i) = at values i

abbrev tabulate : ℕ → (ℕ → ℕ) → List ℕ
tabulate zero f = []
tabulate (suc n) f = f 0 ∷ tabulate n (λ i. f (suc i))

tabulate-at : (values : List ℕ) → tabulate (length values) (at values) ≡ values
tabulate-at [] = refl
tabulate-at (n ∷ values) = ap (λ r. n ∷ r) (tabulate-at values)

exactly {ℓ} :
    (n : ℕ) (P : List ℕ → Type ℓ) (values : List ℕ)
    → length values ≡ n
    → ((f : ℕ → ℕ) → P (tabulate n f))
    → P values
exactly n P values l each =
    subst P (ap (λ m. tabulate m (at values)) (sym l) ∙ tabulate-at values) (each (at values))

length-Fits :
    (format : List Code) (values : List ℕ) → Fits format values → length values ≡ length format
length-Fits [] [] h = refl
length-Fits [] (n ∷ values) h = absurd h
length-Fits (c ∷ format) [] h = absurd h
length-Fits (c ∷ format) (n ∷ values) h = ap suc (length-Fits format values h.1)

-- The names with their values
abbrev pub paired : List String → List ℕ → Dict String ℕ
paired (name ∷ names) (n ∷ values) = (name, n) ∷ paired names values
paired _ _ = []

abbrev pub boot_report : List ℕ → Dict String ℕ
boot_report v =
    paired Boot.apdu_fields v
    ++ ("firmware_version", at v 5 * 256 ^ 3 + at v 4 * 256 ^ 2 + at v 3 * 256 + at v 2) ∷ []

abbrev pub traffic_report : List ℕ → Dict String ℕ
traffic_report v =
    paired Traffic.apdu_fields v
    ++ ("cluster_members", at v 0 % 256) ∷ ("cluster_headnode_members", at v 0 / 256) ∷ []

-- The voltage, in hundredths of a volt
abbrev pub with_volts : List ℕ → List ℕ
with_volts (access_cycle ∷ role ∷ voltage ∷ rest) = access_cycle ∷ role ∷ (voltage + 200) ∷ rest
with_volts values = values

abbrev pub node_report : List ℕ → Dict String ℕ
node_report v =
    paired Node.apdu_fields (with_volts v)
    ++ ("route_address", at v 19 + at v 20 * 2 ^ 16)
      ∷ ("cost_info_next_hop_0", at v 21 + at v 22 * 2 ^ 16)
      ∷ ("cost_info_next_hop_1", at v 25 + at v 26 * 2 ^ 16)
      ∷ ("lltx_msg_w_ack", at v 9)
      ∷ ("lltx_msg_unack", at v 10)
      ∷ ("llrx_w_unack_ok", at v 11)
      ∷ ("llrx_ack_not_received", at v 12)
      ∷ ("lltx_cca_unack_fail", at v 13)
      ∷ ("lltx_cca_w_ack_fail", at v 14)
      ∷ ("llrx_w_ack_ok", at v 15)
      ∷ ("llrx_ack_otherreasons", at v 16)
      ∷ ("blacklistexceeded", at v 25 + at v 26 * 2 ^ 16 + at v 27 * 2 ^ 24 + at v 28 * 2 ^ 32)
      ∷ []

traffic_mapped :
    (f : ℕ → ℕ) → Traffic.mapped (ok (tabulate 15 f)) ≡ ok (traffic_report (tabulate 15 f))
traffic_mapped f = refl

decode-traffic :
    (values : List ℕ)
    → Fits Traffic.apdu_format values
    → Traffic.decode (pack Traffic.apdu_format values) ≡ ok (traffic_report values)
unfolding Traffic.decode
decode-traffic values h =
    ap Traffic.mapped (unpack-pack Traffic.apdu_format values h)
    ∙ exactly 15 (λ v. Traffic.mapped (ok v) ≡ ok (traffic_report v)) values
        (length-Fits Traffic.apdu_format values h) traffic_mapped

boot_mapped : (f : ℕ → ℕ) → Boot.mapped (ok (tabulate 16 f)) ≡ ok (boot_report (tabulate 16 f))
boot_mapped f =
    ap (λ n. ok (paired Boot.apdu_fields (tabulate 16 f) ++ ("firmware_version", n) ∷ []))
      (omega arith)

decode-boot :
    (values : List ℕ)
    → Fits Boot.apdu_format values
    → Boot.decode (pack Boot.apdu_format values) ≡ ok (boot_report values)
unfolding Boot.decode
decode-boot values h =
    ap Boot.mapped (unpack-pack Boot.apdu_format values h)
    ∙ exactly 16 (λ v. Boot.mapped (ok v) ≡ ok (boot_report v)) values
        (length-Fits Boot.apdu_format values h) boot_mapped

node_mapped_40 : (f : ℕ → ℕ) → Node.mapped (ok (tabulate 46 f)) ≡ ok (node_report (tabulate 46 f))
node_mapped_40 f = refl

node_mapped_42 : (f : ℕ → ℕ) → Node.mapped (ok (tabulate 54 f)) ≡ ok (node_report (tabulate 54 f))
node_mapped_42 f = refl

-- A node's report of the length that the format asks for
decode_node-packed :
    (format : List Code) (n : ℕ) (values : List ℕ)
    → Node.format_of (calcsize format) ≡ format
    → length format ≡ n
    → ((f : ℕ → ℕ) → Node.mapped (ok (tabulate n f)) ≡ ok (node_report (tabulate n f)))
    → Fits format values
    → Node.decode (pack format values) ≡ ok (node_report values)
unfolding Node.decode
decode_node-packed format n values own l mapped h =
    let read : unpack_unsigned (Node.format_of (length (pack format values))) (pack format values)
        ≡ ok values =
      ap (λ size. unpack_unsigned (Node.format_of size) (pack format values))
        (length-pack format values h)
      ∙ ap (λ f. unpack_unsigned f (pack format values)) own
      ∙ unpack-pack format values h in
    ap Node.mapped read
    ∙ exactly n (λ v. Node.mapped (ok v) ≡ ok (node_report v)) values
        (length-Fits format values h ∙ l) mapped

-- The reports: a node's one without and with the fields of version 4.2
pub data Kind : Type 0 where
  boot traffic node_40 node_42 : Kind

abbrev pub format_for : Kind → List Code
format_for boot = Boot.apdu_format
format_for traffic = Traffic.apdu_format
format_for node_40 = Node.apdu_format_40
format_for node_42 = Node.apdu_format_42

abbrev pub decode_as : Kind → Bytes → Result (Dict String ℕ)
decode_as boot = Boot.decode
decode_as traffic = Traffic.decode
decode_as _ = Node.decode

abbrev pub report_of : Kind → List ℕ → Dict String ℕ
report_of boot = boot_report
report_of traffic = traffic_report
report_of _ = node_report

-- A boot, traffic or node report of values that fit their fields, a node report with or without the fields
-- of version 4.2, is decoded to every field under its name, the voltage scaled, and the combined fields.
pub decode-packed :
    (kind : Kind) (values : List ℕ)
    → Fits (format_for kind) values
    → decode_as kind (pack (format_for kind) values) ≡ ok (report_of kind values)
decode-packed boot values h = decode-boot values h
decode-packed traffic values h = decode-traffic values h
decode-packed node_40 values h =
    decode_node-packed Node.apdu_format_40 46 values refl refl node_mapped_40 h
decode-packed node_42 values h =
    decode_node-packed Node.apdu_format_42 54 values refl refl node_mapped_42 h
