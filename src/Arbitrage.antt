-- ===== src/Arbitrage.antt =====
-- src/arbiscan/arbitrage: the exact implied sum and the evaluation of one market of core.py, the
-- allocation of stakes, and the settlement of exchanges and refunds, with the checks of models.py.
pub mod Fraction
pub mod Staking
pub mod ImpliedSum
pub mod Market
pub mod Exchange
pub mod Refundable
pub mod Tests
