-- ===== src/Tests/Mirrors.antt =====
-- The synchronizers' shared body, at the VPNs of a small cluster.
use awi_catalyst_sdwan_opera.Base.{String, ◌≡◌, refl, some, List, [], ◌∷◌, arith}
use awi_catalyst_sdwan_opera.Base.Dict.{lookup, insert, erase}
use awi_catalyst_sdwan_opera.Exec.{Result, ok}
use awi_catalyst_sdwan_opera.Pb
use awi_catalyst_sdwan_opera.Api
use awi_catalyst_sdwan_opera.Kube.Laws.{find_named}
use awi_catalyst_sdwan_opera.Sync.{values, mirror}
use awi_catalyst_sdwan_opera.Sync.Creation.{IsBuild}
use awi_catalyst_sdwan_opera.Sync.Mirror.{mirror-find}
use awi_catalyst_sdwan_opera.Sync.Safety.{mirror_keeps}
use awi_catalyst_sdwan_opera.Sync.Repeat.{mirror_twice}
use awi_catalyst_sdwan_opera.Sync.Progress.{mirror_succeeds}
use awi_catalyst_sdwan_opera.Sync.Distinct.{IsDistinct, mirror_ok-IsDistinct}
use awi_catalyst_sdwan_opera.Sync.Kinds.{get_vpn_crd_name, new_vpn_crd}
use awi_catalyst_sdwan_opera.Tests.MemoryKind.{
  find, remove, memory, memory-IsLawful, memory-IsResponsive, values-IsOrder,
}

abbrev segment : String → String → Pb.Vpn
segment id name = record { id = id; segment_id = id; segment_name = name }

abbrev reported : List Pb.Vpn
reported = segment "10" "new" ∷ segment "20" "blue" ∷ []

-- One object that AWI reports, under an old name, and one that it does not.
abbrev cluster : List Api.Vpn
cluster = new_vpn_crd (segment "10" "old") ∷ new_vpn_crd (segment "99" "gone") ∷ []

builds : IsBuild get_vpn_crd_name new_vpn_crd
builds = record { named = λ r. refl; local = λ r. refl }

run : List Api.Vpn → Result (Unit {0}) × List Api.Vpn
unfolding mirror get_vpn_crd_name remove
run = mirror memory values get_vpn_crd_name new_vpn_crd reported

after : List Api.Vpn
unfolding run
after = (run cluster).1

ran : mirror memory values get_vpn_crd_name new_vpn_crd reported cluster ≡ (ok tt, after)
unfolding after find_named lookup insert erase
ran = refl

mirror-find_example : find after "20" ≡ some (new_vpn_crd (segment "20" "blue"))
unfolding after find_named get_vpn_crd_name
mirror-find_example =
    mirror-find memory find memory-IsLawful values values-IsOrder get_vpn_crd_name new_vpn_crd
      builds reported cluster after "20" ran

mirror_keeps_example : find after "10" ≡ some (new_vpn_crd (segment "10" "old"))
unfolding after find_named get_vpn_crd_name
mirror_keeps_example =
    mirror_keeps memory find memory-IsLawful values values-IsOrder get_vpn_crd_name new_vpn_crd
      builds reported cluster "10" (new_vpn_crd (segment "10" "old")) refl (λ e. ground (arith, e))

mirror_twice_example :
    mirror memory values get_vpn_crd_name new_vpn_crd reported after ≡ (ok tt, after)
unfolding after find_named lookup insert erase
mirror_twice_example =
    mirror_twice memory find memory-IsLawful values values-IsOrder get_vpn_crd_name new_vpn_crd
      builds reported cluster after after after ran refl

mirror_ok-IsDistinct_example : IsDistinct get_vpn_crd_name reported
unfolding after get_vpn_crd_name
mirror_ok-IsDistinct_example =
    mirror_ok-IsDistinct memory find memory-IsLawful get_vpn_crd_name new_vpn_crd builds values
      reported cluster after ran

mirror_succeeds_example :
    (v : List Api.Vpn) × (mirror memory values get_vpn_crd_name new_vpn_crd reported cluster
      ≡ (ok tt, v))
unfolding get_vpn_crd_name
mirror_succeeds_example =
    mirror_succeeds memory find memory-IsLawful memory-IsResponsive get_vpn_crd_name new_vpn_crd
      builds values values-IsOrder reported cluster (refl, (refl, tt))
