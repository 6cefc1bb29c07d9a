-- ===== src/Mesh/Added.antt =====
-- Additions keep the names and the references.
use Prim.Native.String.{String}
use mathlib.Core.Path.{subst}
use backend_client.Base.{
  ℕ, ◌≡◌, refl, sym, Option, none, some, List, [], ◌∷◌, Bool-cases, inl, inr, string_eq, nat_eq,
}
use backend_client.Base.Dict.{lookup, insert}
use backend_client.Base.Stored.{insert-IsStored, lookup-IsStored}
use backend_client.Base.Exceptions.{ok}
use backend_client.Base.State.{◌>>=◌, >>=-ok, >>=-holds, done, modify}
use backend_client.Mesh.Device.{set_sinks, set_nodes}
use backend_client.Mesh.Management.{
  Network, Mesh, M, at_gateway, create_gateway, gateway_of, truthy, set_network_id, network_of,
  joined_network, network_add, add_network, add, add_from_mqtt_topic,
}
use backend_client.Mesh.Kept.{set_sinks-IsKept, set_nodes-IsKept}
use backend_client.Mesh.Preserved.{
  Resolves, IsNetwork, IsMesh, Next, Next-trans, at_gateway-Next, create_gateway-Next,
}

pub Next-refl : (m : Mesh) → IsMesh m → Next m m
Next-refl m h = (h, λ p r. r)

-- A reference that is stored under a name is given on, or a gateway is created for it.
gateway_of-Next :
    (gw_id : String) (m : Mesh)
    → IsMesh m
    → (r : ℕ) × (m' : Mesh) × (gateway_of gw_id (lookup gw_id m.gateways) m ≡ (ok r, m'))
      × Next m m'
      × Resolves m'.objects (gw_id, r)
unfolding gateway_of create_gateway
gateway_of-Next gw_id m h = found (lookup gw_id m.gateways) refl
  where
    found :
        (o : Option ℕ)
        → lookup gw_id m.gateways ≡ o
        → (r : ℕ) × (m' : Mesh) × (gateway_of gw_id o m ≡ (ok r, m'))
          × Next m m'
          × Resolves m'.objects (gw_id, r)
    found (some r) e = (
      r,
      m,
      refl,
      Next-refl m h,
      lookup-IsStored (Resolves m.objects) gw_id m.gateways h.gateways_ok e,
    )
    found none e =
        let made = create_gateway-Next gw_id m h in
        let m1 = (create_gateway gw_id m).1 in
        (
          m.created,
          record m1 { gateways = insert gw_id m.created m1.gateways },
          refl,
          (
            record {
              objects_ok = made.0.0.objects_ok;
              gateways_ok =
                  insert-IsStored (Resolves m1.objects) gw_id m.created m1.gateways made.1
                    made.0.0.gateways_ok;
              networks_ok = made.0.0.networks_ok;
            },
            made.0.1,
          ),
          made.1,
        )

set_network_id-Next :
    (network_id : Option String) (r : ℕ) (m : Mesh)
    → IsMesh m
    → Next m (set_network_id network_id r m).1
unfolding set_network_id
set_network_id-Next network_id r m h = elim (Bool-cases (truthy network_id)) [
  | inl given ↦ rw given (
      at_gateway-Next r (modify (λ g. record g { network_id = network_id })) m (λ g k. (k, refl)) h)
  | inr missing ↦ rw missing (Next-refl m h)
]

network_of-IsNetwork :
    (network_id : String) (m : Mesh)
    → IsMesh m
    → IsNetwork m.objects (network_id, network_of network_id (lookup network_id m.networks))
network_of-IsNetwork network_id m h = found (lookup network_id m.networks) refl
  where
    found :
        (o : Option Network)
        → lookup network_id m.networks ≡ o
        → IsNetwork m.objects (network_id, network_of network_id o)
    found none e = (refl, (tt, tt))
    found (some network) e =
        lookup-IsStored (IsNetwork m.objects) network_id m.networks h.networks_ok e

-- A reference that is resolved may be stored in a network.
pub joined_network-Next :
    (network_id gateway_id : String) (r : ℕ) (m : Mesh)
    → Resolves m.objects (gateway_id, r)
    → IsMesh m
    → Next m (joined_network network_id gateway_id r m)
joined_network-Next network_id gateway_id r m there h =
    let network = network_of network_id (lookup network_id m.networks) in
    let one = network_of-IsNetwork network_id m h in
    (
      record {
        objects_ok = h.objects_ok;
        gateways_ok = h.gateways_ok;
        networks_ok =
            insert-IsStored (IsNetwork m.objects) network_id
              (record network { gateways = insert gateway_id r network.gateways }) m.networks
              (
                one.0,
                insert-IsStored (Resolves m.objects) gateway_id r network.gateways there one.1,
              )
              h.networks_ok;
      },
      λ p k. k,
    )

-- One part after the other
pub then-Next :
    {A B : Type 0} (f : M A) (k : A → M B) (m s : Mesh)
    → Next m (f s).1
    → ((a : A) → (f s).0 ≡ ok a → Next (f s).1 (k a (f s).1).1)
    → Next m ((f >>= k) s).1
then-Next f k m s first second =
    >>=-holds f k (Next m) first (λ a e. Next-trans m (f s).1 (k a (f s).1).1 first (second a e))

network_add-Next :
    (network_id gateway_id : String) (r : ℕ) (sink_id : Option String) (node_id : Option ℕ)
    (m : Mesh)
    → Resolves m.objects (gateway_id, r)
    → IsMesh m
    → Next m (network_add network_id gateway_id r sink_id node_id m).1
unfolding network_add
network_add-Next network_id gateway_id r sink_id node_id m there h =
    let m1 = joined_network network_id gateway_id r m in
    let one = joined_network-Next network_id gateway_id r m there h in
    let sinks = at_gateway r (modify (set_sinks sink_id)) in
    let two = at_gateway-Next r (modify (set_sinks sink_id)) m1 (set_sinks-IsKept sink_id) one.0 in
    then-Next sinks (λ _. at_gateway r (modify (set_nodes node_id))) m m1
      (Next-trans m m1 (sinks m1).1 one two)
      (λ _ _.
        at_gateway-Next r (modify (set_nodes node_id)) (sinks m1).1 (set_nodes-IsKept node_id)
          two.0)

add_network-Next :
    (gw_id : String) (r : ℕ) (network_id sink_id : Option String) (node_id : Option ℕ) (m : Mesh)
    → Resolves m.objects (gw_id, r)
    → IsMesh m
    → Next m (add_network gw_id r network_id sink_id node_id m).1
unfolding add_network
add_network-Next gw_id r none sink_id node_id m there h = Next-refl m h
add_network-Next gw_id r (some network_id) sink_id node_id m there h =
    network_add-Next network_id gw_id r sink_id node_id m there h

pub add-Next :
    (gw_id : String) (network_id sink_id : Option String) (node_id : Option ℕ) (m : Mesh)
    → IsMesh m
    → Next m (add gw_id network_id sink_id node_id m).1
unfolding add
add-Next gw_id network_id sink_id node_id m h =
    let (r, m', e, next, there) = gateway_of-Next gw_id m h in
    let rest : ℕ → M ℕ = λ k. set_network_id network_id k >>= λ _.
    add_network gw_id k network_id sink_id node_id >>= λ _. done k in
    let named = set_network_id-Next network_id r m' next.0 in
    let m2 = (set_network_id network_id r m').1 in
    let added =
      add_network-Next gw_id r network_id sink_id node_id m2 (named.1 (gw_id, r) there) named.0 in
    let tail : Next m (rest r m').1 =
      then-Next (set_network_id network_id r)
        (λ _. add_network gw_id r network_id sink_id node_id >>= λ _. done r) m m'
        (Next-trans m m' m2 next named)
        (λ _ _.
          then-Next (add_network gw_id r network_id sink_id node_id) (λ _. done r) m2 m2 added
            (λ _ _. Next-refl _ added.0)) in
    subst (λ t. Next m t.1) (sym (>>=-ok (gateway_of gw_id (lookup gw_id m.gateways)) rest e)) tail

pub add_from_mqtt_topic-Next :
    (gateway_id : String) (topic : List String) (node_id : Option ℕ) (m : Mesh)
    → IsMesh m
    → Next m (add_from_mqtt_topic gateway_id topic node_id m).1
unfolding add_from_mqtt_topic
add_from_mqtt_topic-Next gateway_id [] node_id m h =
    then-Next (add gateway_id none none node_id) (λ _. done tt) m m
      (add-Next gateway_id none none node_id m h)
      (λ _ _. Next-refl _ (add-Next gateway_id none none node_id m h).0)
add_from_mqtt_topic-Next gateway_id (sink_id ∷ []) node_id m h =
    then-Next (add gateway_id none (some sink_id) node_id) (λ _. done tt) m m
      (add-Next gateway_id none (some sink_id) node_id m h)
      (λ _ _. Next-refl _ (add-Next gateway_id none (some sink_id) node_id m h).0)
add_from_mqtt_topic-Next gateway_id (sink_id ∷ network_id ∷ rest) node_id m h =
    then-Next (add gateway_id (some network_id) (some sink_id) node_id) (λ _. done tt) m m
      (add-Next gateway_id (some network_id) (some sink_id) node_id m h)
      (λ _ _. Next-refl _ (add-Next gateway_id (some network_id) (some sink_id) node_id m h).0)
