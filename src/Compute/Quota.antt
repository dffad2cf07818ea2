-- ===== src/Compute/Quota.antt =====
-- GetAvailableFlavorsWithLimit of service.go: how many servers of a flavor the quota has room for. The
-- quota's numbers are Go's `int`s, which a limit of -1 among them shows, and `/` rounds toward zero.
pub mod Room
mod Tests
use rcp_server.Base.{
  ℕ, zero, suc, ◌+◌, ◌-◌, ◌/◌, ◌≡◌, Bool, true, false, List, [], ◌∷◌, leb, ltb, if◌then◌else◌, ◌==◌,
  ℤ, pos, negsuc, sub_ℕ, ltb_ℤ, pos_part, neg_part, map,
}
use rcp_server.Compute.Flavors.{Flavor}

pub record QuotaDetail : Type 0 where
  pub limit : ℤ
  pub in_use : ℕ
  pub reserved : ℕ

pub record QuotaDetailSet : Type 0 where
  pub cores : QuotaDetail
  pub ram : QuotaDetail
  pub instances : QuotaDetail

-- Limit - InUse - Reserved
unfoldable pub remaining : QuotaDetail → ℤ
remaining q = sub_ℕ (pos_part q.limit) (neg_part q.limit + q.in_use + q.reserved)

abbrev pub minus : ℕ → ℤ
minus zero = pos 0
minus (suc n) = negsuc n

-- Go's a / n for a positive n
abbrev pub quotient : ℤ → ℕ → ℤ
quotient (pos a) n = pos (a / n)
quotient (negsuc a) n = minus (suc a / n)

abbrev pub min_ℤ : ℤ → ℤ → ℤ
min_ℤ a b = if ltb_ℤ b a then b else a

-- countByCPU and countByRAM
abbrev pub count_by : ℤ → ℕ → ℤ
count_by left zero = pos 999
count_by left (suc n) = quotient left (suc n)

-- max(min(remInstances, min(countByRAM, countByCPU)), 0)
unfoldable pub max_possible : QuotaDetailSet → Flavor → ℕ
max_possible q f = pos_part (
    min_ℤ (remaining q.instances)
      (min_ℤ (count_by (remaining q.ram) f.ram) (count_by (remaining q.cores) f.vcpus)))

unfoldable pub available_flavors : QuotaDetailSet → List Flavor → List (Flavor × ℕ)
available_flavors q flavors = map (λ f. (f, max_possible q f)) flavors
