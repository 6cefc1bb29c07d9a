-- ===== src/Base/Stored.antt =====
-- A dict of entries that a predicate holds of: no key is listed twice, as in Python.
use backend_client.Base.{◌≡◌, some, All, All-map, Eq}
use backend_client.Base.Dict.{
  Dict, lookup, insert, erase, IsDict, All-insert, All-erase, All-lookup, insert-IsDict,
  erase-IsDict,
}

module _ {K V : Type 0} ⦃e : Eq K⦄ where
  abbrev pub IsStored : (K × V → Type 0) → Dict K V → Type 0
  IsStored P d = All P d × IsDict d

module _ {K V : Type 0} ⦃e : Eq K⦄ (P : K × V → Type 0) where
  pub insert-IsStored :
      (k : K) (v : V) (d : Dict K V) → P (k, v) → IsStored P d → IsStored P (insert k v d)
  insert-IsStored k v d p h = (All-insert P k v d p h.0, insert-IsDict k v d h.1)

  pub erase-IsStored : (k : K) (d : Dict K V) → IsStored P d → IsStored P (erase k d)
  erase-IsStored k d h = (All-erase P k d h.0, erase-IsDict k d h.1)

  pub lookup-IsStored :
      (k : K) (d : Dict K V) {v : V} → IsStored P d → lookup k d ≡ some v → P (k, v)
  lookup-IsStored k d h found = All-lookup P k d h.0 found

  pub map-IsStored :
      (Q : K × V → Type 0) (d : Dict K V) → ((p : K × V) → P p → Q p) → IsStored P d → IsStored Q d
  map-IsStored Q d f h = (All-map d f h.0, h.1)
