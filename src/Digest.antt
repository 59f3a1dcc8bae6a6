-- ===== src/Digest.antt =====
-- pkg/digest: Content-Digest, over the functions that compute the digests.
pub mod Algorithms
pub mod Parse
pub mod Format
pub mod Verify
mod Tests
