-- ===== src/Network/Tests.antt =====
-- The choice among three concrete interfaces (backend/internal/discovery/network.go).
use sync_space.Base.{trim_space}
use sync_space.Base.{true, false, some, List, [], ◌∷◌, ◌≡◌, refl, All}
use sync_space.Network.{InterfaceAddress, is_eligible, eligible_of, select_preferred_interface}
use sync_space.Network.Preferred.{IsMember, IsBelow, select_preferred_interface_lem}

abbrev wired : InterfaceAddress
wired = record {
  index = 2;
  name = "eth0";
  description = "";
  up = true;
  loopback = false;
  multicast = true;
  ip = "192.168.1.7";
  ipv4 = some (192, 168, 1, 7);
  kind = record {
    missing = false;
    unspecified = false;
    loopback = false;
    multicast = false;
    link_local_unicast = false;
  };
}

abbrev bridge : InterfaceAddress
bridge = record wired {
  index = 3;
  name = "docker0";
  ip = "172.17.0.1";
  ipv4 = some (172, 17, 0, 1);
}

abbrev other : InterfaceAddress
other = record wired { index = 4; name = "usb0"; ip = "10.0.0.5"; ipv4 = some (10, 0, 0, 5) }

abbrev candidates : List InterfaceAddress
candidates = bridge ∷ other ∷ wired ∷ []

select_preferred_interface_lem_example :
    IsMember (λ s. s) wired candidates
    × (is_eligible (λ s. s) wired ≡ true)
    × All (IsBelow (λ s. s) wired) (eligible_of (λ s. s) candidates)
unfolding select_preferred_interface trim_space
select_preferred_interface_lem_example =
    select_preferred_interface_lem (λ s. s) candidates wired refl
