-- ===== src/Daemon.antt =====
-- `class SovranNwcDaemon` (packages/sovran-nwc/nwc_daemon.py): the requests that arrive over NIP-47
-- and what they do to the store, to LND and to the relays.
pub mod World
pub mod Lnd
pub mod Scopes
pub mod Reconcile
pub mod Request
pub mod Pay
pub mod Stays
pub mod Nip47
pub mod Tokens
pub mod Event
pub mod Http
mod Tests
