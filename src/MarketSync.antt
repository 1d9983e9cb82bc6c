-- ===== src/MarketSync.antt =====
-- The market sync: `_generate_code`, `apply_market_sync` and `sync_client_markets` of api/app/market_sync.py.
-- The names that the engine answers are an input.
pub mod Code
pub mod Apply
pub mod Fresh
pub mod Kept
mod Tests
