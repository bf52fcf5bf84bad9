-- ===== src/Encode.antt =====
-- src/storage/segment/encode: the encodings of a chunk's values, a child to each file.
pub mod FrameOfRef
pub mod Delta
pub mod Rle
