-- ===== src/Util/Checksum/Tests.antt =====
-- The published check value, and the theorems at concrete blocks.
use robocrisp.Base.{◌≡◌, refl, [], ◌∷◌, bit_xor, arith}
use robocrisp.Util.Checksum.{crc32}
use robocrisp.Util.Checksum.Bitwise.{bitwise, crc32-bitwise}

check_value : crc32 (0x31 ∷ 0x32 ∷ 0x33 ∷ 0x34 ∷ 0x35 ∷ 0x36 ∷ 0x37 ∷ 0x38 ∷ 0x39 ∷ []) ≡ 0xcbf43926
unfolding crc32
check_value = refl

crc32-bitwise_example :
    crc32 (1 ∷ 255 ∷ []) ≡ bit_xor (bitwise 0xffffffff (1 ∷ 255 ∷ [])) 0xffffffff
crc32-bitwise_example = crc32-bitwise (1 ∷ 255 ∷ []) (omega arith, (omega arith, tt))
