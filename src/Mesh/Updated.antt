-- ===== src/Mesh/Updated.antt =====
-- Updates and removals keep the names and the references.
use Prim.Native.String.{String}
use backend_client.Base.{ℕ, ◌≡◌, refl, Option, none, some, List, [], ◌∷◌, string_eq, nat_eq}
use backend_client.Base.Dict.{lookup}
use backend_client.Base.Stored.{insert-IsStored, lookup-IsStored}
use backend_client.Mesh.Device.{str, Configuration, gateway_update}
use backend_client.Mesh.Management.{
  Network, Mesh, at_gateway, create_gateway, joined_network, network_gateway, network_update,
  update_found, update_network, update_networks, update_gateway, update,
}
use backend_client.Mesh.Kept.{gateway_update-Keeps}
use backend_client.Mesh.Preserved.{
  Resolves, IsNetwork, IsMesh, Next, Next-trans, at_gateway-Next, create_gateway-Next,
}
use backend_client.Mesh.Added.{Next-refl, joined_network-Next, then-Next}

network_gateway-Next :
    (network_id gateway_id : String) (o : Option ℕ) (m : Mesh)
    → IsMesh m
    → Next m (network_gateway network_id gateway_id o m).1
unfolding network_gateway create_gateway
network_gateway-Next network_id gateway_id (some r) m h = Next-refl m h
network_gateway-Next network_id gateway_id none m h =
    let made = create_gateway-Next gateway_id m h in
    let m1 = (create_gateway gateway_id m).1 in
    Next-trans m m1 (joined_network network_id gateway_id m.created m1) made.0
      (joined_network-Next network_id gateway_id m.created m1 made.1 made.0.0)

update_found-Next :
    (gateway_id : String) (r : ℕ) (c : Configuration) (network_id : String) (o : Option Network)
    (m : Mesh)
    → Resolves m.objects (gateway_id, r)
    → IsMesh m
    → Next m (update_found gateway_id r c network_id o m).1
unfolding update_found network_update
update_found-Next gateway_id r c network_id none m there h = (
  record {
    objects_ok = h.objects_ok;
    gateways_ok = h.gateways_ok;
    networks_ok =
        insert-IsStored (IsNetwork m.objects) network_id
          (record { network_id = network_id; gateways = (gateway_id, r) ∷ [] }) m.networks
          (refl, ((there, tt), (refl, tt))) h.networks_ok;
  },
  λ p k. k,
)
update_found-Next gateway_id r c network_id (some network) m there h =
    let o = lookup gateway_id network.gateways in
    let one = network_gateway-Next network_id gateway_id o m h in
    then-Next (network_gateway network_id gateway_id o)
      (λ k. at_gateway k (gateway_update (c ∷ []))) m m one
      (λ k _.
        at_gateway-Next k (gateway_update (c ∷ [])) (network_gateway network_id gateway_id o m).1
          (gateway_update-Keeps (c ∷ [])) one.0)

update_network-Next :
    (gateway_id : String) (r : ℕ) (c : Configuration) (address : Option ℕ) (m : Mesh)
    → Resolves m.objects (gateway_id, r)
    → IsMesh m
    → Next m (update_network gateway_id r c address m).1
unfolding update_network
update_network-Next gateway_id r c none m there h = Next-refl m h
update_network-Next gateway_id r c (some address) m there h =
    update_found-Next gateway_id r c (str address) (lookup (str address) m.networks) m there h

update_networks-Next :
    (gateway_id : String) (r : ℕ) (configurations : List Configuration) (m : Mesh)
    → Resolves m.objects (gateway_id, r)
    → IsMesh m
    → Next m (update_networks gateway_id r configurations m).1
unfolding update_networks
update_networks-Next gateway_id r [] m there h = Next-refl m h
update_networks-Next gateway_id r (c ∷ more) m there h =
    let one = update_network-Next gateway_id r c c.network_address m there h in
    then-Next (update_network gateway_id r c c.network_address)
      (λ _. update_networks gateway_id r more) m m one
      (λ _ _.
        update_networks-Next gateway_id r more (update_network gateway_id r c c.network_address m).1
          (one.1 (gateway_id, r) there) one.0)

pub update-Next :
    (gateway_id : String) (configurations : List Configuration) (m : Mesh)
    → IsMesh m
    → Next m (update gateway_id configurations m).1
unfolding update update_gateway
update-Next gateway_id configurations m h = found (lookup gateway_id m.gateways) refl
  where
    found :
        (o : Option ℕ)
        → lookup gateway_id m.gateways ≡ o
        → Next m (update_gateway gateway_id configurations o m).1
    found none e = Next-refl m h
    found (some r) e =
        let there = lookup-IsStored (Resolves m.objects) gateway_id m.gateways h.gateways_ok e in
        let one =
          at_gateway-Next r (gateway_update configurations) m (gateway_update-Keeps configurations)
            h in
        then-Next (at_gateway r (gateway_update configurations))
          (λ _. update_networks gateway_id r configurations) m m one
          (λ _ _.
            update_networks-Next gateway_id r configurations
              (at_gateway r (gateway_update configurations) m).1 (one.1 (gateway_id, r) there)
              one.0)
