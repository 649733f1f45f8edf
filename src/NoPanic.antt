-- ===== src/NoPanic.antt =====
-- Reading bytes with the pdu package never panics, and the loops end, but for a query_sm with optional
-- parameters: what Parse gives on any bytes is a PDU or an error that is returned.
pub mod Fields
pub mod Message
pub mod Frame
pub mod Requests
pub mod Responses
pub mod Packets
pub mod Streams
