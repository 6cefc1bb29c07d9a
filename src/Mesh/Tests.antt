-- ===== src/Mesh/Tests.antt =====
-- A discovery that hears of two networks.
use backend_client.Base.{◌≡◌, All, length, refl, none, some, List, [], ◌∷◌, take, string_eq}
use backend_client.Base.Exceptions.{ok}
use backend_client.Mesh.Management.{Mesh, new_mesh, remove}
use backend_client.Mesh.Gone.{IsUnnamed, IsGone, remove-IsGone}
use backend_client.Mesh.Device.{text, number, named, str}
use backend_client.Mesh.Preserved.{IsMesh}
use backend_client.Mesh.Discovery.{
  status_event, data_event, get_configs, Action, arrive, take_out, acts, new_discovery,
}
use backend_client.Mesh.Discovered.{acts-IsMesh}

-- A data event in network 3, a configuration for network 4, a status, and a removal
abbrev some_actions : List Action
some_actions =
    arrive (data_event (record { gateway_id = "gw1"; rest = "sink0" ∷ "3" ∷ "1" ∷ "1" ∷ [] }) 77)
    ∷ arrive (
        get_configs (record { gateway_id = "gw1"; rest = "sink1" ∷ [] }) "gw1"
          (record {
            sink_id = "sink1";
            network_address = some 4;
            others = ("node_role", number 1) ∷ [];
          }
            ∷ []))
    ∷ arrive (status_event "gw2" (text "online"))
    ∷ take_out (named "sink0")
    ∷ []

new_mesh-IsMesh : IsMesh new_mesh
new_mesh-IsMesh = record { objects_ok = (tt, tt); gateways_ok = (tt, tt); networks_ok = (tt, tt) }

acts-IsMesh_example : IsMesh (acts some_actions (new_discovery none (some []))).device_manager
acts-IsMesh_example = acts-IsMesh some_actions (new_discovery none (some [])) new_mesh-IsMesh

-- The mesh of the first two messages: gw1 is in network 3, and by its configuration in network 4.
abbrev heard : List Action
heard = take 2 some_actions

abbrev heard_mesh : Mesh
heard_mesh = (acts heard (new_discovery none none)).device_manager

heard-IsMesh : IsMesh heard_mesh
heard-IsMesh = acts-IsMesh heard (new_discovery none none) new_mesh-IsMesh

remove-IsGone_example :
    ((remove (named "sink1") heard_mesh).0 ≡ ok tt)
    × IsUnnamed (named "sink1") (remove (named "sink1") heard_mesh).1.gateways
    × All
        (λ p. IsGone (named "sink1") (remove (named "sink1") heard_mesh).1.objects p.1)
        (remove (named "sink1") heard_mesh).1.networks
remove-IsGone_example = remove-IsGone (named "sink1") heard_mesh heard-IsMesh

-- The mesh then has the two networks.
networks_left : length (remove (named "sink1") heard_mesh).1.networks ≡ 2
unfolding remove acts str
networks_left = refl
