-- ===== src/Kube/Keys.antt =====
-- Objects by their keys: the test of two keys, and a table with an entry for each key.
use awi_catalyst_sdwan_opera.Base.{
  ◌≡◌, ◌≢◌, Bool, true, ◌&&◌, arith, ◌==◌, eq_iff, eq_refl, if◌then◌else◌,
}
use awi_catalyst_sdwan_opera.Kube.{NamespacedName}

abbrev pub same_key : NamespacedName → NamespacedName → Bool
same_key j k = (j.namespace == k.namespace) && (j.name == k.name)

pub same_key_iff : (j k : NamespacedName) → same_key j k ≡ true → j ≡ k
same_key_iff j k h = ground (arith, eq_iff j.namespace k.namespace, eq_iff j.name k.name)

pub same_key_refl : (k : NamespacedName) → same_key k k ≡ true
same_key_refl k = ground (arith, eq_refl k.namespace, eq_refl k.name)

-- The table with another entry at one key.
unfoldable pub set_key :
    {A : Type 0} → NamespacedName → A → (NamespacedName → A) → NamespacedName → A
set_key k a table j = if same_key j k then a else table j

pub set_key-same :
    {A : Type 0} (k : NamespacedName) (a : A) (table : NamespacedName → A) → set_key k a table k ≡ a
unfolding set_key
set_key-same k a table = rw (same_key_refl k)

pub set_key-other :
    {A : Type 0} (j k : NamespacedName) (a : A) (table : NamespacedName → A)
    → j ≢ k
    → set_key k a table j ≡ table j
unfolding set_key
set_key-other j k a table other = ground (arith, other, same_key_iff j k)
