-- ===== src/Hub.antt =====
-- `class AlbyHubManager` (packages/sovran-nwc/nwc_hub_manager.py): the client of the management API
-- behind the LNURL service and the command line tool.
pub mod Client
pub mod Paginate
pub mod Retry
pub mod Answered
pub mod Wallets
pub mod Actions
pub mod Create
mod Tests
