-- ===== src/Compute.antt =====
-- internal/domain/compute: instances, the flavor cache and the quota.
pub mod Instances
pub mod Creation
pub mod Listing
pub mod Flavors
pub mod Quota
pub mod History
