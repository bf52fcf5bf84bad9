-- ===== src/Segment.antt =====
-- src/storage/segment/: what its files share with the manifest's, the codecs of types and values and the
-- trailer with its checksum.
pub mod TypeId
pub mod Values
pub mod Crc
pub mod Trailer
