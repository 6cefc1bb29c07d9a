-- ===== src/Mesh/Cleaned.antt =====
-- A removal as one write: what it makes of the gateways in the store, and of the networks.
use Prim.Native.String.{String}
use backend_client.Base.{ℕ, ◌≡◌, refl, ◌∙◌, Option, none, some, [], ◌∷◌, string_eq, nat_eq}
use backend_client.Base.Dict.{Dict, lookup, insert}
use backend_client.Base.Exceptions.{ok}
use backend_client.Base.State.{>>=-ok, modify}
use backend_client.Mesh.Device.{Gateway, DeviceId, gateway_remove}
use backend_client.Mesh.Management.{
  Network, Mesh, with_object, at_gateway, remove_from_all, erase_named, network_remove, remove_in,
}

-- The store after a removal from the gateway behind a reference
abbrev pub clean_found : DeviceId → ℕ → Option Gateway → Dict ℕ Gateway → Dict ℕ Gateway
clean_found x r none objects = objects
clean_found x r (some g) objects = insert r (gateway_remove x g) objects

abbrev pub clean : DeviceId → ℕ → Dict ℕ Gateway → Dict ℕ Gateway
clean x r objects = clean_found x r (lookup r objects) objects

abbrev pub clean_all : DeviceId → Dict String ℕ → Dict ℕ Gateway → Dict ℕ Gateway
clean_all x [] objects = objects
clean_all x ((_, r) ∷ gateways) objects = clean_all x gateways (clean x r objects)

abbrev pub clean_in : DeviceId → Dict String Network → Dict ℕ Gateway → Dict ℕ Gateway
clean_in x [] objects = objects
clean_in x ((_, network) ∷ networks) objects =
    clean_in x networks (clean_all x network.gateways objects)

abbrev pub erased : DeviceId → Network → Network
erased x network = record network { gateways = erase_named x network.gateways }

abbrev pub write_in : DeviceId → Dict String Network → Dict String Network → Dict String Network
write_in x [] all = all
write_in x ((network_id, network) ∷ networks) all =
    write_in x networks (insert network_id (erased x network) all)

at_gateway-clean :
    (x : DeviceId) (r : ℕ) (m : Mesh)
    → at_gateway r (modify (gateway_remove x)) m
      ≡ (ok tt, record m { objects = clean x r m.objects })
unfolding at_gateway
at_gateway-clean x r m = found (lookup r m.objects)
  where
    found :
        (o : Option Gateway)
        → with_object r (modify (gateway_remove x)) o m
          ≡ (ok tt, record m { objects = clean_found x r o m.objects })
    found none = refl
    found (some g) = refl

remove_from_all-clean :
    (x : DeviceId) (gateways : Dict String ℕ) (m : Mesh)
    → remove_from_all x gateways m ≡ (ok tt, record m { objects = clean_all x gateways m.objects })
unfolding remove_from_all
remove_from_all-clean x [] m = refl
remove_from_all-clean x ((_, r) ∷ gateways) m =
    >>=-ok (at_gateway r (modify (gateway_remove x))) (λ _. remove_from_all x gateways)
      (at_gateway-clean x r m)
    ∙ remove_from_all-clean x gateways (record m { objects = clean x r m.objects })

pub remove_in-clean :
    (x : DeviceId) (networks : Dict String Network) (m : Mesh)
    → remove_in x networks m ≡ (
      ok tt,
      record m {
        objects = clean_in x networks m.objects;
        networks = write_in x networks m.networks;
      },
    )
unfolding remove_in network_remove
remove_in-clean x [] m = refl
remove_in-clean x ((network_id, network) ∷ networks) m =
    let write =
      modify (λ s. record s { networks = insert network_id (erased x network) s.networks }) in
    let one =
      >>=-ok (remove_from_all x network.gateways) (λ _. write)
        (remove_from_all-clean x network.gateways m) in
    >>=-ok (network_remove x network_id network) (λ _. remove_in x networks) one
    ∙ remove_in-clean x networks (record m {
      objects = clean_all x network.gateways m.objects;
      networks = insert network_id (erased x network) m.networks;
    })
