-- ===== src/Mesh/Gone.antt =====
-- What is removed is gone, from every gateway and network that had it.
use Prim.Native.String.{String}
use mathlib.Core.Path.{subst}
use backend_client.Base.{
  All-map, ℕ, ◌≡◌, refl, sym, ◌∙◌, Option, none, some, [], ◌∷◌, All, some-eq, Bool-cases, inl, inr,
  ◌⊎◌, string_eq, nat_eq,
}
use backend_client.Base.Dict.{
  Dict, lookup, contains, insert, IsDict, lookup-erase_self, erase-IsDict, insert-IsDict,
  All-entries, contains-none, lookup-insert_self, lookup-insert-cases, All-insert, All-lookup,
}
use backend_client.Base.Exceptions.{ok}
use backend_client.Mesh.Device.{Gateway, DeviceId, named, addressed, gateway_remove}
use backend_client.Mesh.Management.{Network, Mesh, erase_named, remove}
use backend_client.Mesh.Preserved.{IsMesh}
use backend_client.Mesh.Removed.{erase_named-IsStored}
use backend_client.Mesh.Cleaned.{
  clean_found, clean, clean_all, clean_in, erased, write_in, remove_in-clean,
}

-- The dictionaries of a gateway have no key twice.
abbrev KeyedGateway : ℕ × Gateway → Type 0
KeyedGateway p = IsDict p.1.sinks × IsDict p.1.nodes

-- A gateway has no such sink or node.
abbrev pub IsWithout : DeviceId → Gateway → Type 0
IsWithout (named sink) g = lookup sink g.sinks ≡ none
IsWithout (addressed node) g = lookup node g.nodes ≡ none

-- The gateway that a reference is resolved by has none.
abbrev pub IsClear : DeviceId → Option Gateway → Type 0
IsClear x none = Unit
IsClear x (some g) = IsWithout x g

-- No gateway is stored under the name.
abbrev pub IsUnnamed : DeviceId → Dict String ℕ → Type 0
IsUnnamed (named device) gateways = lookup device gateways ≡ none
IsUnnamed (addressed node) gateways = Unit

-- A network has neither the gateway, nor a gateway with the device.
abbrev pub IsGone : DeviceId → Dict ℕ Gateway → Network → Type 0
IsGone x objects network =
    IsUnnamed x network.gateways × All (λ q. IsClear x (lookup q.1 objects)) network.gateways

gateway_remove-IsWithout :
    (x : DeviceId) (r : ℕ) (g : Gateway)
    → KeyedGateway (r, g)
    → KeyedGateway (r, gateway_remove x g) × IsWithout x (gateway_remove x g)
unfolding gateway_remove
gateway_remove-IsWithout (named sink) r g h = elim (Bool-cases (contains sink g.sinks)) [
  | inl there ↦ rw there ((erase-IsDict sink g.sinks h.0, h.1), lookup-erase_self sink g.sinks h.0)
  | inr missing ↦ rw missing (h, contains-none sink g.sinks missing)
]
gateway_remove-IsWithout (addressed node) r g h = elim (Bool-cases (contains node g.nodes)) [
  | inl there ↦ rw there ((h.0, erase-IsDict node g.nodes h.1), lookup-erase_self node g.nodes h.1)
  | inr missing ↦ rw missing (h, contains-none node g.nodes missing)
]

-- A store that a removal made of another one: what was clear there still is.
abbrev Cleans : DeviceId → Dict ℕ Gateway → Dict ℕ Gateway → Type 0
Cleans x before after =
    All KeyedGateway after × ((q : ℕ) → IsClear x (lookup q before) → IsClear x (lookup q after))

Cleans-trans : (x : DeviceId) (a b c : Dict ℕ Gateway) → Cleans x a b → Cleans x b c → Cleans x a c
Cleans-trans x a b c first second = (second.0, λ q h. second.1 q (first.1 q h))

clean-Cleans :
    (x : DeviceId) (r : ℕ) (objects : Dict ℕ Gateway)
    → All KeyedGateway objects
    → Cleans x objects (clean x r objects) × IsClear x (lookup r (clean x r objects))
clean-Cleans x r objects h = found (lookup r objects) refl
  where
    found :
        (o : Option Gateway)
        → lookup r objects ≡ o
        → Cleans x objects (clean_found x r o objects)
          × IsClear x (lookup r (clean_found x r o objects))
    found none e = ((h, λ q k. k), subst (IsClear x) (sym e) tt)
    found (some g) e =
        let g' = gateway_remove x g in
        let one = gateway_remove-IsWithout x r g (All-lookup KeyedGateway r objects h e) in
        (
          (
            All-insert KeyedGateway r g' objects one.0 h,
            λ q k. elim (lookup-insert-cases q r g' objects) [
              | inl (_, now) ↦ subst (IsClear x) (sym now) one.1
              | inr (_, old) ↦ subst (IsClear x) (sym old) k
            ],
          ),
          subst (IsClear x) (sym (lookup-insert_self r g' objects)) one.1,
        )

-- The references of a network, all of them to gateways without the device
abbrev AllClear : DeviceId → Dict ℕ Gateway → Dict String ℕ → Type 0
AllClear x objects = All (λ q. IsClear x (lookup q.1 objects))

clean_all-Cleans :
    (x : DeviceId) (gateways : Dict String ℕ) (objects : Dict ℕ Gateway)
    → All KeyedGateway objects
    → Cleans x objects (clean_all x gateways objects)
      × AllClear x (clean_all x gateways objects) gateways
clean_all-Cleans x [] objects h = ((h, λ q k. k), tt)
clean_all-Cleans x ((name, r) ∷ gateways) objects h =
    let one = clean-Cleans x r objects h in
    let more = clean_all-Cleans x gateways (clean x r objects) one.0.0 in
    (Cleans-trans x objects (clean x r objects) _ one.0 more.0, (more.0.1 r one.1, more.1))

clean_in-Cleans :
    (x : DeviceId) (networks : Dict String Network) (objects : Dict ℕ Gateway)
    → All KeyedGateway objects
    → Cleans x objects (clean_in x networks objects)
      × All (λ p. AllClear x (clean_in x networks objects) p.1.gateways) networks
clean_in-Cleans x [] objects h = ((h, λ q k. k), tt)
clean_in-Cleans x ((network_id, network) ∷ networks) objects h =
    let one = clean_all-Cleans x network.gateways objects h in
    let more = clean_in-Cleans x networks (clean_all x network.gateways objects) one.0.0 in
    (
      Cleans-trans x objects (clean_all x network.gateways objects) _ one.0 more.0,
      (All-map network.gateways (λ q k. more.0.1 q.1 k) one.1, more.1),
    )

erase_named-IsUnnamed :
    (x : DeviceId) (gateways : Dict String ℕ)
    → IsDict gateways
    → IsUnnamed x (erase_named x gateways)
erase_named-IsUnnamed (addressed node) gateways h = tt
erase_named-IsUnnamed (named device) gateways h = elim (Bool-cases (contains device gateways)) [
  | inl there ↦ rw there (lookup-erase_self device gateways h)
  | inr missing ↦ rw missing (contains-none device gateways missing)
]

all-IsGone :
    (x : DeviceId) (objects : Dict ℕ Gateway) (networks : Dict String Network)
    → All (λ p. IsDict {V = ℕ} p.1.gateways) networks
    → All (λ p. AllClear x objects p.1.gateways) networks
    → All (λ p. IsGone x objects (erased x p.1)) networks
all-IsGone x objects [] keyed clear = tt
all-IsGone x objects ((network_id, network) ∷ networks) keyed clear = (
  (
    erase_named-IsUnnamed x network.gateways keyed.0,
    (erase_named-IsStored (λ q. IsClear x (lookup q.1 objects)) x network.gateways
        (clear.0, keyed.0)).0,
  ),
  all-IsGone x objects networks keyed.1 clear.1,
)

-- A network that is found after the writes was written, or was not among those that were.
write_in-cases :
    (P : Network → Type 0) (x : DeviceId) (networks all : Dict String Network) (n : String)
    (network : Network)
    → All (λ p. P (erased x p.1)) networks
    → lookup n (write_in x networks all) ≡ some network
    → P network ⊎ ((lookup n networks ≡ none) × (lookup n all ≡ some network))
write_in-cases P x [] all n network h found = inr (refl, found)
write_in-cases P x ((k, v) ∷ networks) all n network h found =
    elim (write_in-cases P x networks (insert k (erased x v) all) n network h.1 found) [
      | inl written ↦ inl written
      | inr (unlisted, there) ↦ elim (lookup-insert-cases n k (erased x v) all) [
        | inl (_, now) ↦ inl (subst P (some-eq (sym now ∙ there)) h.0)
        | inr (other, old) ↦ inr (rw other unlisted, sym old ∙ there)
      ]
    ]

write_in-IsDict :
    (x : DeviceId) (networks all : Dict String Network)
    → IsDict all
    → IsDict (write_in x networks all)
write_in-IsDict x [] all h = h
write_in-IsDict x ((k, v) ∷ networks) all h =
    write_in-IsDict x networks (insert k (erased x v) all) (insert-IsDict k (erased x v) all h)

-- All networks were written.
written-IsGone :
    (x : DeviceId) (objects : Dict ℕ Gateway) (networks : Dict String Network) (n : String)
    (network : Network)
    → All (λ p. IsGone x objects (erased x p.1)) networks
    → lookup n (write_in x networks networks) ≡ some network
    → IsGone x objects network
written-IsGone x objects networks n network h found =
    elim (write_in-cases (IsGone x objects) x networks networks n network h found) [
      | inl written ↦ written
      | inr (unlisted, listed) ↦ absurd (cc (unlisted, listed))
    ]

-- On a mesh that satisfies IsMesh, also one without networks, a removal raises nothing, and a name that is
-- removed then is no gateway of the mesh. Every network that the mesh has afterwards has no gateway under
-- the name and only gateways without such a sink, also where networks share a gateway; after the removal
-- of an address the gateways of the networks have no such node. Of a gateway that is in no network nothing
-- is said: its sinks and nodes stay.
pub remove-IsGone :
    (x : DeviceId) (m : Mesh)
    → IsMesh m
    → ((remove x m).0 ≡ ok tt)
      × IsUnnamed x (remove x m).1.gateways
      × All (λ p. IsGone x (remove x m).1.objects p.1) (remove x m).1.networks
unfolding remove
remove-IsGone x m h =
    let m1 = record m { gateways = erase_named x m.gateways } in
    let done = remove_in-clean x m.networks m1 in
    let objects_keyed = All-map m.objects (λ p o. (o.1.0.1, o.1.1.1)) h.objects_ok.0 in
    let networks_keyed = All-map m.networks (λ p o. o.1.1) h.networks_ok.0 in
    let objects = clean_in x m.networks m.objects in
    let cleared = clean_in-Cleans x m.networks m.objects objects_keyed in
    let written = all-IsGone x objects m.networks networks_keyed cleared.1 in
    let gone =
      All-entries (λ p. IsGone x objects p.1) (write_in x m.networks m.networks)
        (write_in-IsDict x m.networks m.networks h.networks_ok.1)
        (λ n network found. written-IsGone x objects m.networks n network written found) in
    rw done (refl, erase_named-IsUnnamed x m.gateways h.gateways_ok.1, gone)
