-- ===== src/Modbus/Crc/Table.antt =====
-- The table-driven loop of `modbus_crc16` and the bitwise CRC.
use idf.Base.{
  ℕ, zero, suc, ◌+◌, ◌*◌, ◌/◌, ◌<◌, bit_xor, ◌≡◌, refl, ◌∙◌, ap, ap₂, sym, Bool, true, List, [],
  ◌∷◌, ◌==◌, ltb, ltb→lt, arith, all_below, all_below_sound, ==→eq, get_or, u8, bit_xor_fields,
  bit_xor-zero, bit_xor_lt, AllBytes,
}
use idf.Modbus.Crc.{
  crc_bits, table_from, build_crc16_table, crc_byte, crc16_from, modbus_crc16, crc16_bitwise_from,
}

get_or-table_from : (n b i : ℕ) → i < n → get_or (table_from n b) i 0 ≡ crc_bits 8 (b + i)
unfolding table_from
get_or-table_from zero b i h = absurd (omega arith)
get_or-table_from (suc n) b zero h = ap (crc_bits 8) (omega arith)
get_or-table_from (suc n) b (suc i) h =
    get_or-table_from n (b + 1) i (omega arith) ∙ ap (crc_bits 8) (omega arith)

-- An entry of the table.
pub get_or-build_crc16_table : (i : ℕ) → i < 256 → get_or build_crc16_table i 0 ≡ crc_bits 8 i
unfolding build_crc16_table
get_or-build_crc16_table i h = get_or-table_from 256 0 i h ∙ ap (crc_bits 8) (omega arith)

split_row : ℕ → Bool
split_row h = all_below 256 (λ l. crc_bits 8 (h * 256 + l) == bit_xor h (crc_bits 8 l))

split_table : all_below 256 split_row ≡ true
unfolding all_below crc_bits split_row
split_table = refl

crc_bits_split : (h l : ℕ) → h < 256 → l < 256 → crc_bits 8 (h * 256 + l) ≡ bit_xor h (crc_bits 8 l)
crc_bits_split h l p q =
    ==→eq _ _ (all_below_sound 256 _ l (row (all_below_sound 256 split_row h split_table p)) q)
  where
    row :
        split_row h ≡ true
        → all_below 256 (λ l. crc_bits 8 (h * 256 + l) == bit_xor h (crc_bits 8 l)) ≡ true
    row e = unfold split_row in e

entry_table : all_below 256 (λ i. ltb (crc_bits 8 i) 65536) ≡ true
unfolding all_below crc_bits
entry_table = refl

pub crc_bits_lt : (i : ℕ) → i < 256 → crc_bits 8 i < 65536
crc_bits_lt i h = ltb→lt _ _ (all_below_sound 256 _ i entry_table h)

pub xor_byte_lt : (x y : ℕ) → x < 256 → y < 256 → bit_xor x y < 256
xor_byte_lt x y p q = bit_xor_lt 8 x y p q

-- One step of the loop, with the entry written out.
pub crc_byte_lem :
    (crc byte : ℕ)
    → byte < 256
    → crc_byte crc byte ≡ bit_xor (crc / 256) (crc_bits 8 (bit_xor (u8 crc) byte))
unfolding crc_byte
crc_byte_lem crc byte h =
    ap (bit_xor (crc / 256))
      (get_or-build_crc16_table _ (xor_byte_lt (u8 crc) byte (omega arith) h))

pub crc_byte_lt : (crc byte : ℕ) → crc < 65536 → byte < 256 → crc_byte crc byte < 65536
crc_byte_lt crc byte p q = omega (
  arith,
  crc_byte_lem crc byte q,
  bit_xor_lt 16 (crc / 256) (crc_bits 8 (bit_xor (u8 crc) byte)) (omega arith)
      (crc_bits_lt _ (xor_byte_lt (u8 crc) byte (omega arith) q)),
)

crc_byte-bitwise :
    (crc byte : ℕ) → crc < 65536 → byte < 256 → crc_byte crc byte ≡ crc_bits 8 (bit_xor crc byte)
crc_byte-bitwise crc byte p q =
    crc_byte_lem crc byte q
    ∙ sym (crc_bits_split (crc / 256) _ (omega arith) (xor_byte_lt (u8 crc) byte (omega arith) q))
    ∙ ap (crc_bits 8) (sym low)
  where
    low : bit_xor crc byte ≡ crc / 256 * 256 + bit_xor (u8 crc) byte
    low =
        ap₂ bit_xor {x = crc} {y = crc / 256 * 256 + u8 crc} {u = byte} {v = 0 * 256 + byte}
          (omega arith) (omega arith)
        ∙ bit_xor_fields 8 (crc / 256) 0 (u8 crc) byte (omega arith) q
        ∙ ap (λ t. t * 256 + bit_xor (u8 crc) byte) (bit_xor-zero (crc / 256))

-- The table loop and the bitwise reference agree on every sequence of bytes, from every register.
pub crc16_from-bitwise :
    (crc : ℕ) (bytes : List ℕ)
    → crc < 65536
    → AllBytes bytes
    → crc16_from crc bytes ≡ crc16_bitwise_from crc bytes
unfolding crc16_from crc16_bitwise_from
crc16_from-bitwise crc [] p q = refl
crc16_from-bitwise crc (byte ∷ bytes) p q =
    crc16_from-bitwise (crc_byte crc byte) bytes (crc_byte_lt crc byte p q.0) q.1
    ∙ ap (λ c. crc16_bitwise_from c bytes) (crc_byte-bitwise crc byte p q.0)

-- On bytes, the table-driven modbus_crc16 equals the bitwise CRC-16 of polynomial 0xA001 with
-- initial register 0xFFFF.
pub modbus_crc16-bitwise :
    (bytes : List ℕ) → AllBytes bytes → modbus_crc16 bytes ≡ crc16_bitwise_from 0xFFFF bytes
unfolding modbus_crc16
modbus_crc16-bitwise bytes h = crc16_from-bitwise 0xFFFF bytes (omega arith) h

-- The CRC is a 16-bit word.
pub crc16_from_lt :
    (crc : ℕ) (bytes : List ℕ) → crc < 65536 → AllBytes bytes → crc16_from crc bytes < 65536
unfolding crc16_from
crc16_from_lt crc [] p q = p
crc16_from_lt crc (byte ∷ bytes) p q =
    crc16_from_lt (crc_byte crc byte) bytes (crc_byte_lt crc byte p q.0) q.1

pub modbus_crc16_lt : (bytes : List ℕ) → AllBytes bytes → modbus_crc16 bytes < 65536
unfolding modbus_crc16
modbus_crc16_lt bytes h = crc16_from_lt 0xFFFF bytes (omega arith) h
