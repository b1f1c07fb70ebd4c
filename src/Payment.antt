-- ===== src/Payment.antt =====
-- internal/payment: the durable grant store, the guards in front of the facilitator, the identity of
-- a payment, the wire format, and the callback verifier.
pub mod Store
pub mod Guards
pub mod Wire
pub mod Identity
pub mod Callback
