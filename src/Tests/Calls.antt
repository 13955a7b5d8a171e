-- ===== src/Tests/Calls.antt =====
-- A server that counts the calls.
use awi_catalyst_sdwan_opera.Base.{ℕ, suc, ◌≤◌, [], ◌∷◌, arith, refl}
use awi_catalyst_sdwan_opera.Exec.{Exec}
use awi_catalyst_sdwan_opera.Api.{Resource}
use awi_catalyst_sdwan_opera.Kube.{Client}
use awi_catalyst_sdwan_opera.Sync.{values, mirror}
use awi_catalyst_sdwan_opera.Sync.Kinds.{get_vpn_crd_name, new_vpn_crd}
use awi_catalyst_sdwan_opera.Sync.Calls.{length, IsCounted, mirror_calls}
use awi_catalyst_sdwan_opera.Tests.MemoryKind.{memory, values-IsOrder}
use awi_catalyst_sdwan_opera.Tests.Fixtures.{vpn}

abbrev count : {W A : Type 0} → Exec W A → Exec (ℕ × W) A
count m (n, w) = let (r, v) = m w in (r, (suc n, v))

abbrev counting : {W X : Type 0} → Client W X → Client (ℕ × W) X
counting client = record {
  list_in = λ ns. count (client.list_in ns);
  list_all = count client.list_all;
  get = λ req. count (client.get req);
  create = λ x. count (client.create x);
  update = λ x. count (client.update x);
  update_status = λ x. count (client.update_status x);
  delete = λ x. count (client.delete x);
}

counting-IsCounted :
    {W S : Type 0} (client : Client W (Resource S)) → IsCounted (λ (n, w). n) (counting client)
counting-IsCounted client = record {
  list_counted = λ w. omega arith;
  create_counted = λ x w. omega arith;
  delete_counted = λ x w. omega arith;
}

-- One VPN is new and one object is stale.
mirror_calls_example :
    (mirror
      (counting memory)
      values
      get_vpn_crd_name
      new_vpn_crd
      (vpn "1" ∷ [])
      (0, new_vpn_crd (vpn "2") ∷ [])).1.0
    ≤ 3
unfolding length get_vpn_crd_name
mirror_calls_example =
    mirror_calls (λ (n, w). n) (counting memory) (counting-IsCounted memory) get_vpn_crd_name
      new_vpn_crd values values-IsOrder (vpn "1" ∷ []) (new_vpn_crd (vpn "2") ∷ [])
      (0, new_vpn_crd (vpn "2") ∷ []) (1, new_vpn_crd (vpn "2") ∷ []) refl
