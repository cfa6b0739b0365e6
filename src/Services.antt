-- ===== src/Services.antt =====
-- src/arbiscan/services: the policy of the transports that a scanner may poll.
pub mod Enablement
