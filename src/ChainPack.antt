-- ===== src/ChainPack.antt =====
-- The ChainPack format: integers, the packer and the unpacker.
pub mod Integer
pub mod IntegerCodec
pub mod Scheme
pub mod Pack
pub mod UnpackBuf
pub mod Unpack
mod Runs
