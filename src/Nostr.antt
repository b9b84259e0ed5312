-- ===== src/Nostr.antt =====
-- packages/sovran-nwc/nwc_nostr.py: the padding of NIP-44, and the points of secp256k1.
pub mod Padding
pub mod Curve
mod Tests
