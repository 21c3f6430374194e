-- ===== src/Policy.antt =====
-- common/policy_class.py and controller/policy_state.py: the policy class of a device, and the
-- address sets of the packet filter.
pub mod Class
pub mod Sets
pub mod Partition
pub mod Safety
pub mod Membership
