-- ===== src/Comms/Buffer.antt =====
-- include/crisp/comms/Buffer.hh and src/comms/Buffer.cc: the memory blocks that values are encoded
-- into and decoded from. A block is the list of its bytes, and `length` is the list's length.
pub mod Laws
use robocrisp.Base.{
  ℕ, ◌+◌, List, length, take, drop, replicate, memcpy, sub_size, ltb, if◌then◌else◌,
}

-- `DecodeResult` and `EncodeResult` of common.hh.
pub data DecodeResult : Type 0 where
  success buffer_underflow invalid_data : DecodeResult

pub data EncodeResult : Type 0 where
  success insufficient_space consistency_error stream_error : EncodeResult

-- `MemoryEncodeBuffer`.
pub record EncodeBuffer : Type 0 where
  pub block : List ℕ
  pub offset : ℕ

-- `DecodeBuffer`.
pub record DecodeBuffer : Type 0 where
  pub block : List ℕ
  pub offset : ℕ

-- `MemoryEncodeBuffer(size)`: a new `Buffer(size)`, whose bytes are zero.
unfoldable pub new_encode_buffer : ℕ → EncodeBuffer
new_encode_buffer size = record { block = replicate size 0; offset = 0 }

-- `MemoryEncodeBuffer::write`. The test is on `size_t`, and the sum is made where it fits.
unfoldable pub write : EncodeBuffer → List ℕ → EncodeResult × EncodeBuffer
write b source =
    if ltb (sub_size (length b.block) b.offset) (length source)
    then (EncodeResult.insufficient_space, b)
    else (
      EncodeResult.success,
      record b { block = memcpy b.block b.offset source; offset = b.offset + length source },
    )

-- `DecodeBuffer::read`: the result, the destination and the buffer. On an underflow the destination
-- keeps its bytes, `dest`.
unfoldable pub read : DecodeBuffer → ℕ → List ℕ → DecodeResult × List ℕ × DecodeBuffer
read b size dest =
    if ltb (sub_size (length b.block) b.offset) size
    then (DecodeResult.buffer_underflow, dest, b)
    else (
      DecodeResult.success,
      take size (drop b.offset b.block),
      record b { offset = b.offset + size },
    )
