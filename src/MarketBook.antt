-- ===== src/MarketBook.antt =====
-- src/arbiscan/marketbook: the canonical best-price books of the markets in scope.
pub mod Books
pub mod Best
pub mod Builder
mod Tests
