-- ===== src/Examples.antt =====
-- Runs of the model on concrete inputs, and the theorems at inputs that meet their hypotheses.
mod Wire
mod Codec
mod Ledger
mod Like
mod Encode
mod Bitmap
mod Kernels
mod Manifest
mod Migration
mod Types
