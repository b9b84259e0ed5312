-- ===== src/Lnurl.antt =====
-- The public LNURL-pay service (packages/sovran-nwc/nwc_lnurl_service.py).
pub mod Limit
pub mod Callback
pub mod Server
pub mod Since
pub mod Window
mod Tests
