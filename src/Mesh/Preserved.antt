-- ===== src/Mesh/Preserved.antt =====
-- Names and references: what holds of every mesh, and that storing a gateway keeps it.
use Prim.Native.String.{String}
use backend_client.Base.{
  ℕ, ◌+◌, ◌<◌, ◌≡◌, refl, sym, ap, ◌∙◌, arith, Option, none, some, Option-cases, inl, inr, some-eq,
  string_eq, nat_eq,
}
use backend_client.Base.Dict.{Dict, lookup, insert, lookup-insert_self, lookup-insert-cases}
use backend_client.Base.Stored.{IsStored, map-IsStored, insert-IsStored, lookup-IsStored}
use backend_client.Base.State.{State}
use backend_client.Mesh.Device.{Gateway, new_gateway}
use backend_client.Mesh.Management.{Network, Mesh, with_object, at_gateway, create_gateway}
use backend_client.Mesh.Kept.{IsGateway, Keeps}

-- The gateway behind a reference has the name that the reference is stored under.
abbrev pub Resolves : Dict ℕ Gateway → String × ℕ → Type 0
Resolves objects p = (g : Gateway) × (lookup p.1 objects ≡ some g) × (g.device_id ≡ p.0)

abbrev pub IsObject : ℕ → ℕ × Gateway → Type 0
IsObject created p = (p.0 < created) × IsGateway p.1

abbrev pub IsNetwork : Dict ℕ Gateway → String × Network → Type 0
IsNetwork objects p = (p.1.network_id ≡ p.0) × IsStored (Resolves objects) p.1.gateways

-- Networks, gateways, sinks and nodes are stored under their names, none twice, and every reference is
-- resolved.
pub record IsMesh (m : Mesh) : Type 0 where
  pub objects_ok : IsStored (IsObject m.created) m.objects
  pub gateways_ok : IsStored (Resolves m.objects) m.gateways
  pub networks_ok : IsStored (IsNetwork m.objects) m.networks

-- References that were resolved still are.
abbrev pub Grows : Dict ℕ Gateway → Dict ℕ Gateway → Type 0
Grows before after = (p : String × ℕ) → Resolves before p → Resolves after p

abbrev pub Next : Mesh → Mesh → Type 0
Next m m' = IsMesh m' × Grows m.objects m'.objects

pub Next-trans : (a b c : Mesh) → Next a b → Next b c → Next a c
Next-trans a b c first second = (second.0, λ p h. second.1 p (first.1 p h))

-- A store that grows keeps the references of the mesh.
grown :
    (m : Mesh) (objects : Dict ℕ Gateway) (created : ℕ)
    → IsMesh m
    → IsStored (IsObject created) objects
    → Grows m.objects objects
    → IsMesh (record m { objects = objects; created = created })
grown m objects created h all grows = record {
  objects_ok = all;
  gateways_ok = map-IsStored (Resolves m.objects) (Resolves objects) m.gateways grows h.gateways_ok;
  networks_ok =
      map-IsStored (IsNetwork m.objects) (IsNetwork objects) m.networks
        (λ p n. (n.0, map-IsStored (Resolves m.objects) (Resolves objects) p.1.gateways grows n.1))
        h.networks_ok;
}

-- A gateway may be replaced by one of its name.
replaced-Grows :
    (r : ℕ) (g g' : Gateway) (objects : Dict ℕ Gateway)
    → lookup r objects ≡ some g
    → g'.device_id ≡ g.device_id
    → Grows objects (insert r g' objects)
replaced-Grows r g g' objects found name p (other, there, named) =
    elim (lookup-insert-cases p.1 r g' objects) [
      | inl (same, now) ↦
          let eq : g ≡ other =
            some-eq (sym found ∙ ap (λ k. lookup k objects) (sym same) ∙ there) in
          (g', now, name ∙ ap (λ o. o.device_id) eq ∙ named)
      | inr (_, old) ↦ (other, old ∙ there, named)
    ]

pub at_gateway-Next :
    (r : ℕ) (method : State Gateway (Unit {0})) (m : Mesh)
    → Keeps method
    → IsMesh m
    → Next m (at_gateway r method m).1
unfolding at_gateway
at_gateway-Next r method m keeps h = resolved (lookup r m.objects) refl
  where
    resolved : (o : Option Gateway) → lookup r m.objects ≡ o → Next m (with_object r method o m).1
    resolved none e = (h, λ p x. x)
    resolved (some g) e =
        let object = lookup-IsStored (IsObject m.created) r m.objects h.objects_ok e in
        let kept = keeps g object.1 in
        let grows = replaced-Grows r g (method g).1 m.objects e kept.1 in
        (
          grown m (insert r (method g).1 m.objects) m.created h
              (insert-IsStored (IsObject m.created) r (method g).1 m.objects (object.0, kept.0)
                h.objects_ok)
              grows,
          grows,
        )

-- A reference that was not given yet is not in the store.
is_new : (m : Mesh) → IsMesh m → lookup m.created m.objects ≡ none
is_new m h = elim (Option-cases (lookup m.created m.objects)) [
  | inl new ↦ new
  | inr (g, found) ↦
      let object = lookup-IsStored (IsObject m.created) m.created m.objects h.objects_ok found in
      absurd (let l = object.0 in omega arith)
]

added-Grows :
    (r : ℕ) (g : Gateway) (objects : Dict ℕ Gateway)
    → lookup r objects ≡ none
    → Grows objects (insert r g objects)
added-Grows r g objects new p (other, there, named) = elim (lookup-insert-cases p.1 r g objects) [
  | inl (same, _) ↦ absurd (let q = sym new ∙ ap (λ k. lookup k objects) (sym same) ∙ there in cc)
  | inr (_, old) ↦ (other, old ∙ there, named)
]

pub create_gateway-Next :
    (device_id : String) (m : Mesh)
    → IsMesh m
    → Next m (create_gateway device_id m).1
      × Resolves (create_gateway device_id m).1.objects (device_id, m.created)
unfolding create_gateway
create_gateway-Next device_id m h =
    let objects = insert m.created (new_gateway device_id) m.objects in
    let grows = added-Grows m.created (new_gateway device_id) m.objects (is_new m h) in
    let older : (p : ℕ × Gateway) → IsObject m.created p → IsObject (m.created + 1) p =
      λ p o. (let l = o.0 in omega arith, o.1) in
    (
      (
        grown m objects (m.created + 1) h
            (insert-IsStored (IsObject (m.created + 1)) m.created (new_gateway device_id) m.objects
              (omega arith, ((tt, tt), (tt, tt)))
              (map-IsStored (IsObject m.created) (IsObject (m.created + 1)) m.objects older
                h.objects_ok))
            grows,
        grows,
      ),
      (new_gateway device_id, lookup-insert_self m.created (new_gateway device_id) m.objects, refl),
    )
