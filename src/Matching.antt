-- ===== src/Matching.antt =====
-- src/arbiscan/matching: the canonical registry, and the matching of provider events to its events.
pub mod Registry
pub mod Candidate
pub mod Decision
pub mod Tests
