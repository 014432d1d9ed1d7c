-- ===== src/Tpp.antt =====
-- tp_protocol.c: the protocol between the host and the telephone device.
pub mod EvtCode
pub mod CmdCode
pub mod Defs
pub mod Receive
pub mod Send
pub mod Framing
pub mod Reassembly
pub mod RoundTrip
pub mod CallerId
pub mod Dial
pub mod Safety
pub mod Sending
pub mod Events
