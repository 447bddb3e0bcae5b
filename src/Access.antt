-- ===== src/Access.antt =====
-- Who may do what to the pod: the lease of a cloud job (lease_gate.c), the persisted policies
-- (pod_policy.c) and the check of a signed image (fw_sign.c).
pub mod Lease
pub mod Policy
pub mod FwSign
