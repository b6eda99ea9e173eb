-- ===== src/Bus/Backends/Coils.antt =====
-- Coils: `read_coil`, `encode_coil_bits`, `write_coil` and `write_coils` of src/bus/backends.rs.
pub mod Masks
pub mod Stored
pub mod Encoded
use idf.Base.{
  ℕ, zero, suc, ◌+◌, ◌-◌, ◌*◌, ◌/◌, ◌%◌, ◌^◌, List, [], ◌∷◌, ◌++◌, Bool, true, false, not, ◌&&◌,
  ◌||◌, Option, none, some, ◌==◌, ◌!=◌, ltb, leb, if◌then◌else◌, get_or, get_elem?, set, length,
  replicate, bit_and, bit_or, div_ceil8,
}
use idf.Sync.Bits64.{set_bit, mask_replace}
use idf.Sync.Bits64.Invariant.{edit_all}
use idf.Modbus.Backend.{set_output_bit}
use idf.Bus.Backends.{
  Storage, Request, legacy_io_dirty, outputs_changed, system_reset, Registers, Device, between, ask,
}

abbrev pub di_count : ℕ
di_count = 16

abbrev pub do_count : ℕ
do_count = 16

abbrev pub legacy_point_window_count : ℕ
legacy_point_window_count = 48

abbrev pub coil_do_base : ℕ
coil_do_base = 0x0200

abbrev pub coil_do_end : ℕ
coil_do_end = 528

abbrev pub coil_internal_start : ℕ
coil_internal_start = 0x0400

abbrev pub coil_restart : ℕ
coil_restart = 0x0402

abbrev pub coil_logic_restart : ℕ
coil_logic_restart = 0x0403

abbrev pub legacy_coil_base : ℕ
legacy_coil_base = 0x0200

abbrev pub legacy_coil_end : ℕ
legacy_coil_end = 0x07FF

-- `load_bits` of the four words.
unfoldable pub load_bits : List ℕ → ℕ
load_bits words =
    get_or words 0 0
    + get_or words 1 0 * 65536
    + get_or words 2 0 * 4294967296
    + get_or words 3 0 * 281474976710656

-- `bits & (1 << index) != 0`
abbrev pub has_bit : ℕ → ℕ → Bool
has_bit bits index = bit_and bits (2 ^ index) != 0

-- `read_coil_from_snapshot`; the snapshot is there where a caller needs it.
unfoldable pub read_coil_from_snapshot : ℕ → Storage → ℕ → ℕ → Option Bool
read_coil_from_snapshot addr t di_bits do_bits =
    if ltb addr legacy_point_window_count
    then some (ltb addr di_count && has_bit di_bits addr)
    else if leb coil_do_base addr && ltb addr coil_do_end
    then some (ltb (addr - coil_do_base) do_count && has_bit do_bits (addr - coil_do_base))
    else if between coil_internal_start coil_logic_restart addr
    then some false
    else if between coil_do_end legacy_coil_end addr
    then elim (get_elem? t.legacy_coils (addr - legacy_coil_base)) [
      | none ↦ none
      | some value ↦ some (value != 0)
    ]
    else if ltb addr coil_do_base
    then some false
    else none

-- `read_coil`, which loads the inputs and the outputs only where the address needs them.
unfoldable pub read_coil : Registers → ℕ → Option Bool
read_coil s addr =
    read_coil_from_snapshot addr s.storage (if ltb addr di_count then load_bits s.di_words else 0) (
      if leb coil_do_base addr && ltb addr (coil_do_base + do_count)
      then load_bits s.do_words
      else 0)

-- The loop of `encode_coil_bits_from_snapshot`, with `n` bits left.
unfoldable pub encode_coil_loop : Storage → ℕ → ℕ → ℕ → ℕ → ℕ → List ℕ → Bool × List ℕ
encode_coil_loop t di_bits do_bits addr zero offset out = (true, out)
encode_coil_loop t di_bits do_bits addr (suc n) offset out =
    elim (read_coil_from_snapshot (addr + offset) t di_bits do_bits) [
      | none ↦ (false, out)
      | some value ↦
          encode_coil_loop t di_bits do_bits addr n (offset + 1)
            (if value then set_output_bit out offset else out)
    ]

unfoldable pub encode_coil_bits : Registers → ℕ → ℕ → List ℕ → Bool × List ℕ
encode_coil_bits s addr count out =
    let di_bits = if ltb addr di_count then load_bits s.di_words else 0 in
    let do_bits =
      if ltb addr (coil_do_base + do_count) && ltb coil_do_base (addr + count)
      then load_bits s.do_words
      else 0 in
    if count == 0 || (length out != div_ceil8 count || ltb 65535 (addr + count - 1))
    then (false, out)
    else encode_coil_loop s.storage di_bits do_bits addr count 0 (replicate (length out) 0)

abbrev pub bool_byte : Bool → ℕ
bool_byte flag = if flag then 1 else 0

unfoldable pub write_coil : Device → ℕ → Bool → Registers → Bool × Registers
write_coil d addr value s =
    if leb coil_do_base addr && ltb addr coil_do_end
    then (
      true,
      ask outputs_changed
          (record s { do_words = edit_all (set_bit (addr - coil_do_base) value).1 s.do_words }),
    )
    else if addr == coil_restart || addr == coil_logic_restart
    then if not value
      then (true, s)
      else if d.config_saved && (d.holding_saved && d.text_saved)
      then (true, ask system_reset s)
      else (false, s)
    else if between coil_do_end legacy_coil_end addr
    then (
      true,
      ask legacy_io_dirty (record s {
        storage = record s.storage {
          legacy_coils = set s.storage.legacy_coils (addr - legacy_coil_base) (bool_byte value);
        };
      }),
    )
    else (addr == coil_internal_start || addr == coil_internal_start + 1, s)

-- `packed_values[bit / 8] & (1 << (bit % 8)) != 0`
abbrev pub packed_bit : List ℕ → ℕ → Bool
packed_bit packed bit = has_bit (get_or packed (bit / 8) 0) (bit % 8)

-- The mask and the value of `n` outputs, from the bit `bit` of the request on.
unfoldable pub output_masks : List ℕ → ℕ → ℕ → ℕ → ℕ × ℕ → ℕ × ℕ
output_masks packed start bit zero (mask, value) = (mask, value)
output_masks packed start bit (suc n) (mask, value) = output_masks packed start (bit + 1) n (
  bit_or mask (2 ^ (start + bit)),
  if packed_bit packed bit then bit_or value (2 ^ (start + bit)) else value,
)

abbrev pub is_control : ℕ → Bool
is_control addr = between coil_internal_start coil_logic_restart addr

unfoldable pub all_controls : ℕ → ℕ → Bool
all_controls addr zero = true
all_controls addr (suc n) = is_control addr && all_controls (addr + 1) n

unfoldable pub any_control : ℕ → ℕ → Bool
any_control addr zero = false
any_control addr (suc n) = is_control addr || any_control (addr + 1) n

-- `all` over the control coils, which stops at the first that is refused.
unfoldable pub write_controls : Device → ℕ → List ℕ → ℕ → ℕ → Registers → Bool × Registers
write_controls d addr packed offset zero s = (true, s)
write_controls d addr packed offset (suc n) s =
    let first = write_coil d (addr + offset) (packed_bit packed offset) s in
    let rest = write_controls d addr packed (offset + 1) n first.1 in
    if first.0 then rest else (false, first.1)

-- The variables of the loop over legacy coils.
pub record Legacy : Type 0 where
  pub coils : List ℕ
  pub do_mask : ℕ
  pub do_value : ℕ

unfoldable pub legacy_loop : ℕ → List ℕ → ℕ → ℕ → Legacy → Legacy
legacy_loop addr packed offset zero w = w
legacy_loop addr packed offset (suc n) w =
    let target_addr = addr + offset in
    let on = packed_bit packed offset in
    let is_output = ltb target_addr coil_do_end in
    let bit = 2 ^ (target_addr - coil_do_base) in
    legacy_loop addr packed (offset + 1) n (record {
      coils = set w.coils (target_addr - legacy_coil_base) (bool_byte on);
      do_mask = if is_output then bit_or w.do_mask bit else w.do_mask;
      do_value = if is_output && on then bit_or w.do_value bit else w.do_value;
    })

-- The window of the legacy coils, where the outputs follow.
unfoldable pub write_legacy : ℕ → ℕ → List ℕ → Registers → Registers
write_legacy addr count packed s =
    let w =
      legacy_loop addr packed 0 count
        (record { coils = s.storage.legacy_coils; do_mask = 0; do_value = 0 }) in
    let published : Registers = record s {
      storage = record s.storage { legacy_coils = w.coils };
    } in
    let driven =
      if w.do_mask != 0
      then ask outputs_changed
          (record published { do_words = edit_all (mask_replace w.do_mask w.do_value) s.do_words })
      else published in
    ask legacy_io_dirty driven

unfoldable pub write_coils : Device → ℕ → ℕ → List ℕ → Registers → Bool × Registers
write_coils d addr count packed s =
    let end_exclusive = addr + count in
    let masks = output_masks packed (addr - coil_do_base) 0 count (0, 0) in
    if count == 0 || (length packed != div_ceil8 count || ltb 65536 end_exclusive)
    then (false, s)
    else if leb coil_do_base addr && leb end_exclusive coil_do_end
    then (
      true,
      ask outputs_changed
          (record s { do_words = edit_all (mask_replace masks.0 masks.1) s.do_words }),
    )
    else if any_control addr count && not (all_controls addr count)
    then (false, s)
    else if all_controls addr count
    then write_controls d addr packed 0 count s
    else if leb legacy_coil_base addr && leb end_exclusive (legacy_coil_end + 1)
    then (true, write_legacy addr count packed s)
    else (false, s)
