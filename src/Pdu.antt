-- ===== src/Pdu.antt =====
-- The PDU types of the pdu package, one module each.
pub mod AlertNotification
pub mod BindRequest
pub mod CancelSm
pub mod CancelSmResp
pub mod DataSm
pub mod DataSmResp
pub mod DeliverSm
pub mod DeliverSmResp
pub mod EnquireLink
pub mod EnquireLinkResp
pub mod GenericNack
pub mod Outbind
pub mod QuerySm
pub mod QuerySmResp
pub mod ReplaceSm
pub mod ReplaceSmResp
pub mod SubmitMulti
pub mod SubmitMultiResp
pub mod SubmitSm
pub mod SubmitSmResp
pub mod Unbind
pub mod UnbindResp
pub mod BindResp
