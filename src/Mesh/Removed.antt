-- ===== src/Mesh/Removed.antt =====
-- Removals keep the names and the references.
use Prim.Native.String.{String}
use backend_client.Base.{
  All-map, ℕ, Bool, true, false, [], ◌∷◌, All, if◌then◌else◌, string_eq, nat_eq,
}
use backend_client.Base.Dict.{Dict, contains, insert, erase}
use backend_client.Base.Stored.{IsStored, map-IsStored, insert-IsStored, erase-IsStored}
use backend_client.Base.State.{modify}
use backend_client.Mesh.Device.{DeviceId, named, addressed, gateway_remove}
use backend_client.Mesh.Management.{
  Network, Mesh, at_gateway, remove_from_all, erase_named, network_remove, remove_in, remove,
}
use backend_client.Mesh.Kept.{gateway_remove-IsKept}
use backend_client.Mesh.Preserved.{Resolves, IsNetwork, IsMesh, Next, at_gateway-Next}
use backend_client.Mesh.Added.{Next-refl, then-Next}

remove_from_all-Next :
    (device_id : DeviceId) (gateways : Dict String ℕ) (m : Mesh)
    → IsMesh m
    → Next m (remove_from_all device_id gateways m).1
unfolding remove_from_all
remove_from_all-Next device_id [] m h = Next-refl m h
remove_from_all-Next device_id ((name, r) ∷ more) m h =
    let method = modify (gateway_remove device_id) in
    let one = at_gateway-Next r method m (gateway_remove-IsKept device_id) h in
    then-Next (at_gateway r method) (λ _. remove_from_all device_id more) m m one
      (λ _ _. remove_from_all-Next device_id more (at_gateway r method m).1 one.0)

pub erase_named-IsStored :
    (P : String × ℕ → Type 0) (device_id : DeviceId) (gateways : Dict String ℕ)
    → IsStored P gateways
    → IsStored P (erase_named device_id gateways)
erase_named-IsStored P (addressed node) gateways h = h
erase_named-IsStored P (named device) gateways h = erased (contains device gateways)
  where
    erased : (b : Bool) → IsStored P (if b then erase device gateways else gateways)
    erased true = erase-IsStored P device gateways h
    erased false = h

network_remove-Next :
    (device_id : DeviceId) (network_id : String) (network : Network) (m : Mesh)
    → IsNetwork m.objects (network_id, network)
    → IsMesh m
    → Next m (network_remove device_id network_id network m).1
unfolding network_remove
network_remove-Next device_id network_id network m n h =
    let one = remove_from_all-Next device_id network.gateways m h in
    let m1 = (remove_from_all device_id network.gateways m).1 in
    let kept = map-IsStored (Resolves m.objects) (Resolves m1.objects) network.gateways one.1 n.1 in
    then-Next (remove_from_all device_id network.gateways)
      (λ _. modify (λ s. record s {
        networks =
            insert network_id (record network { gateways = erase_named device_id network.gateways })
              s.networks;
      }))
      m m one
      (λ _ _. (
        record {
          objects_ok = one.0.objects_ok;
          gateways_ok = one.0.gateways_ok;
          networks_ok =
              insert-IsStored (IsNetwork m1.objects) network_id
                (record network { gateways = erase_named device_id network.gateways }) m1.networks
                (n.0, erase_named-IsStored (Resolves m1.objects) device_id network.gateways kept)
                one.0.networks_ok;
        },
        λ p k. k,
      ))

remove_in-Next :
    (device_id : DeviceId) (networks : Dict String Network) (m : Mesh)
    → All (IsNetwork m.objects) networks
    → IsMesh m
    → Next m (remove_in device_id networks m).1
unfolding remove_in
remove_in-Next device_id [] m all h = Next-refl m h
remove_in-Next device_id ((network_id, network) ∷ more) m all h =
    let one = network_remove-Next device_id network_id network m all.0 h in
    then-Next (network_remove device_id network_id network) (λ _. remove_in device_id more) m m one
      (λ _ _.
        remove_in-Next device_id more (network_remove device_id network_id network m).1
          (All-map more
            (λ p n. (
              n.0,
              map-IsStored (Resolves m.objects)
                  (Resolves (network_remove device_id network_id network m).1.objects) p.1.gateways
                  one.1 n.1,
            ))
            all.1)
          one.0)

pub remove-Next : (device_id : DeviceId) (m : Mesh) → IsMesh m → Next m (remove device_id m).1
unfolding remove
remove-Next device_id m h =
    let gateways = erase_named device_id m.gateways in
    let h1 : IsMesh (record m { gateways = gateways }) = record {
      objects_ok = h.objects_ok;
      gateways_ok = erase_named-IsStored (Resolves m.objects) device_id m.gateways h.gateways_ok;
      networks_ok = h.networks_ok;
    } in
    remove_in-Next device_id m.networks (record m { gateways = gateways }) h.networks_ok.0 h1
