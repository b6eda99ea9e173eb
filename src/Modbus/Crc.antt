-- ===== src/Modbus/Crc.antt =====
-- The Modbus CRC-16 of src/modbus/shared.rs: `build_crc16_table`, which runs at compile time, and
-- the byte loop `modbus_crc16`.
pub mod Table
pub mod Detect
use idf.Base.{
  ℕ, zero, suc, ◌+◌, ◌/◌, bit_and, bit_xor, List, [], ◌∷◌, ◌!=◌, if◌then◌else◌, get_or, u8,
}

-- One round of the inner loop of `build_crc16_table`.
pub crc_bit : ℕ → ℕ
crc_bit crc = if bit_and crc 1 != 0 then bit_xor (crc / 2) 0xA001 else crc / 2

-- `n` rounds of it.
pub crc_bits : ℕ → ℕ → ℕ
unfolding crc_bit
crc_bits zero crc = crc
crc_bits (suc n) crc = crc_bits n (crc_bit crc)

-- The entries from `byte` on, `n` of them.
pub table_from : ℕ → ℕ → List ℕ
unfolding crc_bits
table_from zero byte = []
table_from (suc n) byte = crc_bits 8 byte ∷ table_from n (byte + 1)

pub build_crc16_table : List ℕ
unfolding table_from
build_crc16_table = table_from 256 0

-- The body of the loop of `modbus_crc16`. The index is a byte, so it is inside the table.
pub crc_byte : ℕ → ℕ → ℕ
unfolding build_crc16_table
crc_byte crc byte = bit_xor (crc / 256) (get_or build_crc16_table (bit_xor (u8 crc) byte) 0)

pub crc16_from : ℕ → List ℕ → ℕ
unfolding crc_byte
crc16_from crc [] = crc
crc16_from crc (byte ∷ bytes) = crc16_from (crc_byte crc byte) bytes

unfoldable pub modbus_crc16 : List ℕ → ℕ
unfolding crc16_from
modbus_crc16 bytes = crc16_from 0xFFFF bytes

-- The reference of the source's own test: eight rounds for each byte, with no table.
pub crc16_bitwise_from : ℕ → List ℕ → ℕ
unfolding crc_bits
crc16_bitwise_from crc [] = crc
crc16_bitwise_from crc (byte ∷ bytes) = crc16_bitwise_from (crc_bits 8 (bit_xor crc byte)) bytes
