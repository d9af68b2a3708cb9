-- ===== src/Image.antt =====
-- internal/image/image.go: downloading, verifying and caching the prebuilt rootfs image.
pub mod Verify
pub mod Cache
pub mod Triple
pub mod Trust
pub mod Ensure
pub mod FetchLaws
pub mod Ensured
pub mod Outcome
pub mod Clear
pub mod Location
