-- ===== src/Lib.antt =====
-- The Sovran NWC daemon: a custodial ledger of sub-wallets over one LND node, spoken to over
-- NIP-47 (Nostr Wallet Connect) and LNURL-pay. The sources stand in packages/sovran-nwc.
--
-- The parts, and the files that model them:
--   Store        `class NwcStore` of nwc_daemon.py: three SQLite tables and the methods on them.
--                Store/Rows has the tables and the dicts, Store/Sql the statements that the methods
--                share, Store/Apps, Store/Transfer, Store/Incoming, Store/Outgoing, Store/Events and
--                Store/Queries the methods under their own names. Store/Ledger says what the books
--                mean, Store/History what sequences of calls can happen, Store/Receiving what a
--                request that does not pay may do.
--   Daemon       `class SovranNwcDaemon` of nwc_daemon.py. Daemon/Scopes has the permissions,
--                Daemon/Reconcile `reconcile_pending_invoices`, Daemon/Pay the payments,
--                Daemon/Nip47 `handle_nip47_method`, Daemon/Event `process_nip47_event`, and
--                Daemon/Tokens the management API's tokens, Daemon/Http its routes
--                (`handle_http`). Daemon/World is the state of a request, the store with the
--                notifications sent; Daemon/Lnd is what is asked of nwc_lnd.py.
--   Hub          `class AlbyHubManager` of nwc_hub_manager.py: Hub/Client has the token and the retry,
--                Hub/Paginate the loop over pages, Hub/Wallets the managed wallets and the search for
--                one, Hub/Actions draining, deleting, invoices and rotation, Hub/Create creation.
--   Helpers      nwc_helpers.py: Helpers/Bech32 and Helpers/Domain.
--   Nostr        nwc_nostr.py: Nostr/Padding has the padding of NIP-44, Nostr/Curve the points of
--                secp256k1.
--   Lnurl        nwc_lnurl_service.py: Lnurl/Limit has its two rate limiters, Lnurl/Callback the
--                discovery and callback endpoints, Lnurl/Server the handler that composes them.
--   Rest         nwc_lnd.py: Rest/Request has one request, Rest/Stream the parser of a streamed body,
--                Rest/Payment and Rest/Invoices the operations.
--   Base         shared names: integers over native numbers, Python's text methods, JSON values, and
--                the monad of methods that keep what they wrote when they raise (Base/Monad).
--                Base/Reading is how payloads and queries are read.
--
-- How the parts meet: a request of the management API runs in Daemon/Http against a Server, a
-- World with the tokens; the hub manager is its client, over any hub. A NIP-47 request runs in
-- Daemon against a World; it calls the Store's methods through `on_store` and LND through the
-- record `Lnd`. A method is a function from a state to a result, or an exception, and a state;
-- `transaction` is BEGIN IMMEDIATE with COMMIT or ROLLBACK.
--
-- Choices: a table is the list of its rows, the newest first, with the next AUTOINCREMENT id
-- beside it. Integers are unbounded, as Python's are; SQLite's 64 bits are not reached by amounts
-- that LND can carry. Texts are lowered in the ASCII range. Loops over lists are recursions. Four
-- loops run on fuel: `_paginate` (as many rounds as there are pages, and `paginate-whole` shows
-- that they are enough for a server that pages one list), `_jac_mul` (256 rounds, enough by
-- `jac_mul-ends`), the bit loops of bech32 and of the padding (as many rounds as the number that
-- falls), and `parse_json_stream` (a round for each character, enough by
-- `parse_json_stream-ends`). The clock, the keys, the hashes and LND's answers are arguments;
-- LND's documented promises (no negative amount, fees within `fee_limit_msat`) are the hypotheses
-- `IsLnd` and `WithinReserve`; the hub's, that it shows a wallet when asked for it, is
-- `ShowsWallets`. Each method runs on its own, since it holds the store's lock; what
-- two requests do between each other's calls is what Store/History's sequences of steps say.
--
-- Not modelled: in nwc_nostr.py everything but the padding and the points of the curve (Schnorr
-- signatures, AES, ChaCha20, HKDF, events and websocket frames; signatures and decryption are
-- parameters of `process_nip47_event`), relay threads, the cache of LND's macaroon, the socket
-- servers, the LNURL service's domain file, the command line tool, the audit log, and the wait
-- loops of the hub manager, whose outcome is a parameter.
pub mod Base
pub mod Store
pub mod Daemon
pub mod Hub
pub mod Lnurl
pub mod Helpers
pub mod Nostr
pub mod Rest
