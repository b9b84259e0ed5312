-- ===== src/Rest.antt =====
-- The client of LND's REST server (packages/sovran-nwc/nwc_lnd.py): Rest/Request makes one request,
-- Rest/Stream reads a streamed body, Rest/Payment pays, Rest/Invoices makes, looks up and decodes
-- invoices. Rest/Settled and Rest/Documents have the theorems.
pub mod Request
pub mod Stream
pub mod Payment
pub mod Invoices
pub mod Documents
pub mod Settled
mod Tests
