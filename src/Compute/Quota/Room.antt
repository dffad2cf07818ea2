-- ===== src/Compute/Quota/Room.antt =====
-- What a quota has room for, and the count of GetAvailableFlavorsWithLimit.
use native.Mathlib.Nat.{le-div_iff_mul-le, mul-pos}
use rcp_server.Base.{
  ℕ, zero, suc, ◌+◌, ◌*◌, ◌/◌, ◌≤◌, ◌<◌, ◌≡◌, refl, arith, ℤ, pos, negsuc, pos_part, neg_part, ◌↔◌,
}
use rcp_server.Compute.Flavors.{Flavor}
use rcp_server.Compute.Quota.{
  QuotaDetail, QuotaDetailSet, remaining, minus, min_ℤ, count_by, max_possible,
}

-- n things of a size fit a quota with a limit
abbrev pub Fits : ℕ → ℕ → QuotaDetail → Type 0
Fits n size q = n * size + q.in_use + q.reserved + neg_part q.limit ≤ pos_part q.limit

pos_part-min_ℤ-le :
    (a b : ℤ) → (pos_part (min_ℤ a b) ≤ pos_part a) × (pos_part (min_ℤ a b) ≤ pos_part b)
pos_part-min_ℤ-le (pos a) (pos b) = ground arith
pos_part-min_ℤ-le (pos a) (negsuc b) = ground arith
pos_part-min_ℤ-le (negsuc a) (pos b) = ground arith
pos_part-min_ℤ-le (negsuc a) (negsuc b) = ground arith

min_ℤ-max : (a b : ℤ) (n : ℕ) → n ≤ pos_part a → n ≤ pos_part b → n ≤ pos_part (min_ℤ a b)
min_ℤ-max (pos a) (pos b) n h k = ground arith
min_ℤ-max (pos a) (negsuc b) n h k = ground arith
min_ℤ-max (negsuc a) (pos b) n h k = ground arith
min_ℤ-max (negsuc a) (negsuc b) n h k = ground arith

minus_none : (n : ℕ) → pos_part (minus n) ≡ 0
minus_none zero = refl
minus_none (suc n) = refl

none_of : (n size : ℕ) → n ≤ 0 → n * size ≤ 0
none_of zero size h = omega arith
none_of (suc n) size h = absurd (omega arith)

some_of : (n size : ℕ) → 0 < size → n * size ≤ 0 → n ≤ 0
some_of zero size z h = omega arith
some_of (suc n) size z h = absurd (omega (arith, mul-pos {m = suc n} {n = size} (omega arith) z))

-- the counts of a size that is not 0
quotient-le :
    (left : ℤ) (size n : ℕ)
    → 0 < size
    → n ≤ pos_part (count_by left size)
    → n * size ≤ pos_part left
quotient-le left zero n z h = absurd (omega arith)
quotient-le (pos a) (suc k) n z h = (le-div_iff_mul-le {k = suc k} {x = n} {y = a} z).0 h
quotient-le (negsuc a) (suc k) n z h = ground (arith, minus_none (suc a / suc k), none_of n (suc k))

le-quotient :
    (left : ℤ) (size n : ℕ)
    → 0 < size
    → n * size ≤ pos_part left
    → n ≤ pos_part (count_by left size)
le-quotient left zero n z h = absurd (omega arith)
le-quotient (pos a) (suc k) n z h = (le-div_iff_mul-le {k = suc k} {x = n} {y = a} z).1 h
le-quotient (negsuc a) (suc k) n z h = ground (arith, some_of n (suc k))

-- what is left, where something is
Fits-remaining :
    (n size : ℕ) (q : QuotaDetail)
    → 0 < n
    → 0 < size
    → n * size ≤ pos_part (remaining q)
    → Fits n size q
unfolding remaining
Fits-remaining n size q pn ps h = ground (arith, mul-pos {m = n} {n = size} pn ps)

remaining-Fits : (n size : ℕ) (q : QuotaDetail) → Fits n size q → n * size ≤ pos_part (remaining q)
unfolding remaining
remaining-Fits n size q h = ground arith

-- The number that GetAvailableFlavorsWithLimit gives for a flavor with processors and memory is the
-- largest that the quota has room for: so many servers and no more fit its three limits. Where
-- nothing fits, it is 0.
pub max_possible_iff :
    (q : QuotaDetailSet) (f : Flavor) (n : ℕ)
    → 0 < n
    → 0 < f.vcpus
    → 0 < f.ram
    → (n ≤ max_possible q f) ↔ (Fits n 1 q.instances × Fits n f.vcpus q.cores × Fits n f.ram q.ram)
unfolding max_possible
max_possible_iff q f n pn pc pr = (
  (λ h. (
    Fits-remaining n 1 q.instances pn (omega arith) (ground (arith, by_instances h)),
    Fits-remaining n f.vcpus q.cores pn pc
        (quotient-le (remaining q.cores) f.vcpus n pc (by_cores h)),
    Fits-remaining n f.ram q.ram pn pr (quotient-le (remaining q.ram) f.ram n pr (by_ram h)),
  )),
  (λ fits.
      min_ℤ-max (remaining q.instances)
        (min_ℤ (count_by (remaining q.ram) f.ram) (count_by (remaining q.cores) f.vcpus)) n
        (ground (arith, remaining-Fits n 1 q.instances fits.0))
        (min_ℤ-max (count_by (remaining q.ram) f.ram) (count_by (remaining q.cores) f.vcpus) n
          (le-quotient (remaining q.ram) f.ram n pr (remaining-Fits n f.ram q.ram fits.2))
          (le-quotient (remaining q.cores) f.vcpus n pc
            (remaining-Fits n f.vcpus q.cores fits.1)))),
)
  where
    by_instances : n ≤ max_possible q f → n ≤ pos_part (remaining q.instances)
    by_instances h = omega (
      arith,
      h,
      (pos_part-min_ℤ-le (remaining q.instances)
          (min_ℤ (count_by (remaining q.ram) f.ram) (count_by (remaining q.cores) f.vcpus))).0,
    )

    by_ram : n ≤ max_possible q f → n ≤ pos_part (count_by (remaining q.ram) f.ram)
    by_ram h = omega (
      arith,
      h,
      (pos_part-min_ℤ-le (remaining q.instances)
          (min_ℤ (count_by (remaining q.ram) f.ram) (count_by (remaining q.cores) f.vcpus))).1,
      (pos_part-min_ℤ-le (count_by (remaining q.ram) f.ram)
          (count_by (remaining q.cores) f.vcpus)).0,
    )

    by_cores : n ≤ max_possible q f → n ≤ pos_part (count_by (remaining q.cores) f.vcpus)
    by_cores h = omega (
      arith,
      h,
      (pos_part-min_ℤ-le (remaining q.instances)
          (min_ℤ (count_by (remaining q.ram) f.ram) (count_by (remaining q.cores) f.vcpus))).1,
      (pos_part-min_ℤ-le (count_by (remaining q.ram) f.ram)
          (count_by (remaining q.cores) f.vcpus)).1,
    )
