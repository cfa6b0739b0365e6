-- ===== src/Providers.antt =====
-- src/arbiscan/providers: the retries of resilience.py.
pub mod Resilience
