-- ===== src/Mesh/Kept.antt =====
-- Under every name a gateway has the sink, and under every address the node, of that name.
use Prim.Native.String.{String}
use backend_client.Base.{
  ℕ, ◌≡◌, refl, ◌∙◌, Bool, true, false, ◌&&◌, not, Option, none, some, List, [], ◌∷◌, eqb,
  if◌then◌else◌, ◌==◌, string_eq, nat_eq,
}
use backend_client.Base.Dict.{lookup, contains, insert, erase}
use backend_client.Base.Stored.{IsStored, insert-IsStored, erase-IsStored, lookup-IsStored}
use backend_client.Base.State.{State, >>=-holds}
use backend_client.Mesh.Device.{
  str, Node, Sink, Gateway, new_node, new_sink, set_sinks, set_nodes, Configuration, write_sink,
  configure, gateway_update, DeviceId, named, addressed, gateway_remove,
}

abbrev pub IsSink : String × Sink → Type 0
IsSink p = p.1.device_id ≡ p.0

abbrev pub IsNode : ℕ × Node → Type 0
IsNode p = p.1.device_id ≡ str p.0

abbrev pub IsGateway : Gateway → Type 0
IsGateway g = IsStored IsSink g.sinks × IsStored IsNode g.nodes

-- A gateway that is one, and keeps its name
abbrev pub IsKept : Gateway → Gateway → Type 0
IsKept g g' = IsGateway g' × (g'.device_id ≡ g.device_id)

abbrev pub Keeps : State Gateway (Unit {0}) → Type 0
Keeps method = (g : Gateway) → IsGateway g → IsKept g (method g).1

pub set_sinks-IsKept :
    (sink_id : Option String) (g : Gateway) → IsGateway g → IsKept g (set_sinks sink_id g)
unfolding set_sinks
set_sinks-IsKept none g h = (h, refl)
set_sinks-IsKept (some sink) g h = added (not (sink == "") && not (contains sink g.sinks))
  where
    added :
        (b : Bool)
        → IsKept g (
            if b
            then record g { sinks = insert sink (new_sink sink g.network_id g.device_id) g.sinks }
            else g)
    added true = (
      (insert-IsStored IsSink sink (new_sink sink g.network_id g.device_id) g.sinks refl h.0, h.1),
      refl,
    )
    added false = (h, refl)

pub set_nodes-IsKept :
    (node_id : Option ℕ) (g : Gateway) → IsGateway g → IsKept g (set_nodes node_id g)
unfolding set_nodes
set_nodes-IsKept none g h = (h, refl)
set_nodes-IsKept (some node) g h = added (not (eqb node 0) && not (contains node g.nodes))
  where
    added :
        (b : Bool)
        → IsKept g (
            if b
            then record g { nodes = insert node (new_node node g.network_id g.device_id) g.nodes }
            else g)
    added true = (
      (h.0, insert-IsStored IsNode node (new_node node g.network_id g.device_id) g.nodes refl h.1),
      refl,
    )
    added false = (h, refl)

write_sink-IsKept :
    (c : Configuration) (o : Option Sink) (g : Gateway)
    → lookup c.sink_id g.sinks ≡ o
    → IsGateway g
    → IsKept g (write_sink c o g).1
unfolding write_sink
write_sink-IsKept c none g e h = (h, refl)
write_sink-IsKept c (some sink) g e h = (
  (
    insert-IsStored IsSink c.sink_id _ g.sinks (lookup-IsStored IsSink c.sink_id g.sinks h.0 e) h.0,
    h.1,
  ),
  refl,
)

configure-Keeps : (c : Configuration) → Keeps (configure c)
unfolding configure
configure-Keeps c g h =
    let first = set_sinks-IsKept (some c.sink_id) g h in
    let g' = set_sinks (some c.sink_id) g in
    let second = write_sink-IsKept c (lookup c.sink_id g'.sinks) g' refl first.0 in
    (second.0, second.1 ∙ first.1)

pub gateway_update-Keeps :
    (configurations : List Configuration) → Keeps (gateway_update configurations)
unfolding gateway_update
gateway_update-Keeps [] g h = (h, refl)
gateway_update-Keeps (c ∷ more) g h =
    let first = configure-Keeps c g h in
    >>=-holds (configure c) (λ _. gateway_update more) (IsKept g) first
      (λ _ _.
        let rest = gateway_update-Keeps more (configure c g).1 first.0 in
        (rest.0, rest.1 ∙ first.1))

pub gateway_remove-IsKept :
    (device_id : DeviceId) (g : Gateway) → IsGateway g → IsKept g (gateway_remove device_id g)
unfolding gateway_remove
gateway_remove-IsKept (named sink) g h = removed (contains sink g.sinks)
  where
    removed : (b : Bool) → IsKept g (if b then record g { sinks = erase sink g.sinks } else g)
    removed true = ((erase-IsStored IsSink sink g.sinks h.0, h.1), refl)
    removed false = (h, refl)
gateway_remove-IsKept (addressed node) g h = removed (contains node g.nodes)
  where
    removed : (b : Bool) → IsKept g (if b then record g { nodes = erase node g.nodes } else g)
    removed true = ((h.0, erase-IsStored IsNode node g.nodes h.1), refl)
    removed false = (h, refl)
