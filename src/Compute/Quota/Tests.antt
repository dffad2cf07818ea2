-- ===== src/Compute/Quota/Tests.antt =====
-- The count at a concrete quota.
use rcp_server.Base.{◌≤◌, ◌≡◌, ◌↔◌, refl, pos, negsuc, codes, arith}
use rcp_server.Compute.Flavors.{Flavor}
use rcp_server.Compute.Quota.{QuotaDetailSet, remaining, max_possible}
use rcp_server.Compute.Quota.Room.{Fits, max_possible_iff}

abbrev small : Flavor
small = record { id = codes "s"; name = codes "small"; vcpus = 2; ram = 512; disk = 10 }

abbrev quota : QuotaDetailSet
quota = record {
  cores = record { limit = pos 20; in_use = 9; reserved = 2 };
  ram = record { limit = pos 4096; in_use = 1024; reserved = 0 };
  instances = record { limit = pos 10; in_use = 3; reserved = 1 };
}

four : max_possible quota small ≡ 4
unfolding max_possible remaining
four = refl

-- A limit of -1 leaves room for nothing.
unlimited :
    max_possible
      (record quota { cores = record { limit = negsuc 0; in_use = 0; reserved = 0 } })
      small
    ≡ 0
unfolding max_possible remaining
unlimited = refl

max_possible_iff_example :
    (4 ≤ max_possible quota small)
    ↔ (Fits 4 1 quota.instances × Fits 4 small.vcpus quota.cores × Fits 4 small.ram quota.ram)
max_possible_iff_example = max_possible_iff quota small 4 (omega arith) (omega arith) (omega arith)
