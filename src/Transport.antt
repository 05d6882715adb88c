-- ===== src/Transport.antt =====
-- reporting_transport: the evidence contract between the producer and the platform.
pub mod Paths
pub mod Parse
pub mod Document
pub mod Marker
pub mod Accepted
pub mod Canonical
pub mod Reparsed
pub mod Versions
pub mod Written
pub mod Rewritten
pub mod RoundTrip
pub mod Actions
pub mod Client
pub mod Chunked
pub mod Tuning
pub mod Evidence
pub mod Stored
pub mod Verified
pub mod Uploads
pub mod Uploading
pub mod Limits
pub mod Kept
pub mod Closed
pub mod KeptByUploads
pub mod Uploaded
pub mod Reported
pub mod Publisher
pub mod Declared
pub mod Durable
pub mod Refined
pub mod Marked
pub mod Published
pub mod Segments
pub mod LocalFiles
pub mod Ordering
