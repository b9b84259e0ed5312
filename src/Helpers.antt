-- ===== src/Helpers.antt =====
-- packages/sovran-nwc/nwc_helpers.py: bech32 for LNURL strings, host names and Lightning Addresses.
pub mod Bech32
pub mod Domain
mod Tests
