-- ===== src/Httpsig.antt =====
-- pkg/httpsig: the signer and the verifier of messages.
pub mod Serialize
pub mod Equality
pub mod Required
pub mod Signer
pub mod Policy
mod Named
pub mod Resolved
pub mod Verifier
pub mod Carried
pub mod Sound
mod Received
pub mod Authentic
pub mod Returns
pub mod Conversion
pub mod RoundTrip
pub mod Accepts
pub mod Attached
pub mod Sent
mod Tests
