-- ===== src/Provisioning/Data/Loaded.antt =====
-- What a configuration file that `ProvisioningData.__init__` accepts has made of its nodes.
use backend_client.Base.{
  ◌≡◌, ◌≢◌, ◌∙◌, Option, none, some, [], ◌∷◌, arith, Bytes, inl, inr, Bool-cases, All, ◌||◌,
}
use backend_client.Base.Dict.{Dict, lookup, insert, IsDict, insert-IsDict, All-insert, All-lookup}
use backend_client.Base.Int.{ℤ, pos, negsuc, ◌≤ℤ◌, ltb_ℤ}
use backend_client.Base.Exceptions.{ok, >>=-eq-ok, ok-eq}
use mathlib.Core.Path.{subst}
use backend_client.Provisioning.Data.{
  Value, bytes, text, int, value_eq, int_eq, Entry, ProvisioningData, update, append, copied,
}
use backend_client.Provisioning.Data.Config.{
  ConfigEntry, user_specific_of, check_user_specific, read_entry, load,
}
use backend_client.Provisioning.Data.Convert.{convert_to_bytes}
use backend_client.Provisioning.Data.Laws.{InUserRange, specific_of, given, append_lem}

-- A node whose data can be encoded: the address and the channel are there, and the user specific
-- indexes are distinct and in range.
pub record IsReady (e : Entry) : Type 0 where
  pub addressed : e.network_address ≢ none
  pub tuned : e.network_channel ≢ none
  pub in_range : InUserRange (specific_of e)
  pub distinct : IsDict (specific_of e)

-- The loop keeps what it has copied in range and distinct.
check_user_specific_lem :
    (copy d : Dict ℤ Value) {u : Dict ℤ Value}
    → InUserRange copy × IsDict copy
    → check_user_specific copy d ≡ ok u
    → InUserRange u × IsDict u
unfolding check_user_specific
check_user_specific_lem copy [] {u} h e = subst (λ r. InUserRange r × IsDict r) (ok-eq e) h
check_user_specific_lem copy ((k, v) ∷ d) {u} h e =
    elim (Bool-cases (ltb_ℤ k (pos 128) || ltb_ℤ (pos 255) k)) [
      | inl bad ↦ absurd (cc (rw bad at e))
      | inr good ↦
          check_user_specific_lem (insert k v copy) d
            (
              All-insert (λ p. (pos 128 ≤ℤ p.0) × (p.0 ≤ℤ pos 255)) k v copy (ground arith) h.0,
              insert-IsDict k v copy h.1,
            )
            (rw good at e)
    ]

update_lem :
    (t d : Dict ℤ Value)
    → InUserRange t × IsDict t
    → InUserRange d
    → InUserRange (update t d) × IsDict (update t d)
update_lem t [] h r = h
update_lem t ((k, v) ∷ d) h r =
    update_lem (insert k v t) d
      (All-insert (λ p. (pos 128 ≤ℤ p.0) × (p.0 ≤ℤ pos 255)) k v t r.0 h.0, insert-IsDict k v t h.1)
      r.1

read_entry_parts :
    (uid : Value) (c : ConfigEntry) (key : Value) (e : Entry)
    → read_entry uid c ≡ ok (key, e)
    → (user_specific_of c.user_specific ≡ ok e.user_specific) × (convert_to_bytes uid ≡ ok key)
unfolding read_entry
read_entry_parts uid c key e h = ground arith

user_specific_of_lem :
    (o u : Option (Dict ℤ Value))
    → user_specific_of o ≡ ok u
    → InUserRange (given u) × IsDict (given u)
user_specific_of_lem none none h = (tt, tt)
user_specific_of_lem none (some u) h = absurd (cc)
user_specific_of_lem (some d) u h =
    let (v, e, r) = >>=-eq-ok (check_user_specific [] d) (λ v. ok (some v)) h in
    subst (λ w. InUserRange (given w) × IsDict (given w)) (ok-eq r)
      (check_user_specific_lem [] d (tt, tt) e)

copied_lem :
    (u : Option (Dict ℤ Value))
    → InUserRange (given u)
    → InUserRange (given (copied u)) × IsDict (given (copied u))
copied_lem none r = (tt, tt)
copied_lem (some d) r = update_lem [] d (tt, tt) r

append-IsReady :
    (uid : Value) (e : Entry) (d : ProvisioningData)
    → InUserRange (specific_of e)
    → (append uid e d).1 ≡ ok tt
    → All (λ p. IsReady p.1) d
    → All (λ p. IsReady p.1) (append uid e d).0
append-IsReady uid e d r h a =
    let (present, _, _, _) = append_lem uid e d in
    let (address, channel) = present.0 h in
    let (range, unique) = copied_lem e.user_specific r in
    unfold append in
    All-insert (λ p. IsReady p.1) uid (record e { user_specific = copied e.user_specific }) d
      (record { addressed = address; tuned = channel; in_range = range; distinct = unique }) a

load-IsReady :
    (d : ProvisioningData) (cfg : Dict Value ConfigEntry) {d' : ProvisioningData}
    → All (λ p. IsReady p.1) d
    → load d cfg ≡ ok d'
    → All (λ p. IsReady p.1) d'
unfolding load
load-IsReady d [] a h = subst (All (λ p. IsReady p.1)) (ok-eq h) a
load-IsReady d ((uid, c) ∷ cfg) a h =
    let (pair, read, more) = >>=-eq-ok (read_entry uid c) _ h in
    let (key, e) = pair in
    let (_, stored, rest) = >>=-eq-ok (append key e d).1 _ more in
    let (specific, _) = read_entry_parts uid c key e read in
    let (range, _) = user_specific_of_lem c.user_specific e.user_specific specific in
    load-IsReady (append key e d).0 cfg (append-IsReady key e d range stored a) rest

-- Every node of a configuration file that was accepted is ready: it has a network address and a
-- channel, and its user specific indexes are distinct and in the range 128 to 255.
pub load-lookup-IsReady :
    (cfg : Dict Value ConfigEntry) {d : ProvisioningData} (uid : Value) {e : Entry}
    → load [] cfg ≡ ok d
    → lookup uid d ≡ some e
    → IsReady e
load-lookup-IsReady cfg {d} uid h found =
    All-lookup (λ p. IsReady p.1) uid d (load-IsReady [] cfg tt h) found

abbrev pub IsInt : Value → Type 0
IsInt (int n) = Unit
IsInt _ = ⊥

-- An integer is not turned into bytes.
convert_to_bytes-int : (v w : Value) (u : Bytes) → IsInt v → convert_to_bytes v ≡ ok w → bytes u ≢ w
unfolding convert_to_bytes
convert_to_bytes-int (int (pos n)) w u i h = λ e. cc
convert_to_bytes-int (int (negsuc n)) w u i h = λ e. cc
convert_to_bytes-int (bytes b) w u i h = absurd i
convert_to_bytes-int (text s) w u i h = absurd i

-- A configuration whose UIDs YAML has read as integers (`0x1234` with no quotes) authorises no UID
-- that a packet can carry: the packets' UIDs are byte strings, and under none of them is there more
-- than before.
pub load-int_uids :
    (d : ProvisioningData) (cfg : Dict Value ConfigEntry) {d' : ProvisioningData} (u : Bytes)
    → All (λ p. IsInt p.0) cfg
    → load d cfg ≡ ok d'
    → lookup (bytes u) d' ≡ lookup (bytes u) d
unfolding load
load-int_uids d [] u a h = rw (← ok-eq h)
load-int_uids d ((uid, c) ∷ cfg) u a h =
    let (pair, read, more) = >>=-eq-ok (read_entry uid c) _ h in
    let (key, e) = pair in
    let (_, stored, rest) = >>=-eq-ok (append key e d).1 _ more in
    let (_, converted) = read_entry_parts uid c key e read in
    let (_, _, _, others) = append_lem key e d in
    load-int_uids (append key e d).0 cfg u a.1 rest
    ∙ others (bytes u) (convert_to_bytes-int uid key u a.0 converted)
