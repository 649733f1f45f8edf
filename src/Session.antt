-- ===== src/Session.antt =====
-- The session layer, the files of the repository's root: what a bound connection does with PDUs.
pub mod Failure
pub mod Duration
pub mod Decimal
pub mod Store
pub mod Settings
pub mod Transmitter
pub mod Receiver
pub mod Connection
pub mod Transceiver
pub mod Rebinding
