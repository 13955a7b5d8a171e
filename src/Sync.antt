-- ===== src/Sync.antt =====
-- pkg/sync: the loops that the synchronizers share, over the custom resources of one kind.
pub mod Keyed
pub mod Creation
pub mod Deletion
pub mod Mirror
pub mod Distinct
pub mod Safety
pub mod Repeat
pub mod Progress
pub mod Names
pub mod Kinds
pub mod NetworkDomains
pub mod Syncers
pub mod Calm
pub mod Frame
pub mod Calls
use awi_catalyst_sdwan_opera.Base.{String, Option, none, some, List, [], ◌∷◌, map}
use awi_catalyst_sdwan_opera.Base.Dict.{Dict, lookup, insert, erase}
use awi_catalyst_sdwan_opera.Exec.{Exec, pure, ◌>>=◌, ◌>>◌}
use awi_catalyst_sdwan_opera.Api.{ObjectMeta, Resource}
use awi_catalyst_sdwan_opera.Kube.{Client}

abbrev pub supported_clouds : List String
supported_clouds = "AWS" ∷ "GCP" ∷ []

abbrev pub namespace : String
namespace = "awi-system"

-- `metav1.ObjectMeta{Name: name, Namespace: Namespace}`
abbrev pub new_metadata : String → ObjectMeta
new_metadata name = record {
  name = name;
  namespace = namespace;
  labels = none;
  finalizers = [];
  deletion_timestamp = none;
}

abbrev pub values : {V : Type 0} → Dict V → List V
values m = map (λ (_, v). v) m

module _ {S : Type 0} where
  index_from : Dict (Resource S) → List (Resource S) → Dict (Resource S)
  index_from crds [] = crds
  index_from crds (x ∷ items) = index_from (insert x.metadata.name x crds) items

  -- `for _, x := range list.Items { m[x.GetName()] = x }` from an empty map
  unfoldable pub index_by_name : List (Resource S) → Dict (Resource S)
  unfolding index_from
  index_by_name = index_from []

module _ {W S R : Type 0} (client : Client W (Resource S)) (key : R → String)
    (build : R → Resource S) where
  -- The loop over what AWI reports. A resource that is there is taken out of the map.
  unfoldable pub create_missing : List R → Dict (Resource S) → Exec W (Dict (Resource S))
  create_missing [] crds = pure crds
  create_missing (r ∷ existing) crds = elim (lookup (key r) crds) [
    | some _ ↦ create_missing existing (erase (key r) crds)
    | none ↦ client.create (build r) >> create_missing existing crds
  ]

module _ {W S : Type 0} (client : Client W (Resource S)) where
  -- The loop over the map that is left.
  unfoldable pub delete_all : List (Resource S) → Exec W (Unit {0})
  delete_all [] = pure tt
  delete_all (x ∷ crds) = client.delete x >> delete_all crds

-- The body that five of the six synchronizers share, from the `List` call on. `order` is the order
-- in which `range` runs through a map.
module _ {W S R : Type 0} (client : Client W (Resource S))
    (order : Dict (Resource S) → List (Resource S)) (key : R → String)
    (build : R → Resource S) where
  unfoldable pub mirror : List R → Exec W (Unit {0})
  unfolding index_by_name create_missing delete_all
  mirror existing = do
    items ← client.list_in namespace
    crds ← create_missing client key build existing (index_by_name items)
    delete_all client (order crds)
