-- ===== src/Modbus/RtuMaster/Table.antt =====
-- `parse_poll_table` of src/modbus/rtu_master.rs: the polls that the configuration asks for. An error
-- is `none`, without its message.
pub mod Valid
pub mod Published
use idf.Base.{
  ℕ, zero, suc, ◌+◌, ◌-◌, ◌*◌, ◌/◌, ◌%◌, min, List, [], ◌∷◌, ◌++◌, Bool, true, false, not, ◌&&◌,
  ◌||◌, Option, none, some, ◌==◌, ltb, leb, if◌then◌else◌, get_elem?, length, checked_add16,
  checked_sub, guard, ◌>>=◌, ◌>>◌,
}
use idf.Modbus.RtuMaster.Results.{PollItem, result_range_is_valid}

abbrev pub max_poll_items : ℕ
max_poll_items = 64

abbrev pub hold_pxx_base : ℕ
hold_pxx_base = 0x0880

abbrev pub hold_device_config : ℕ
hold_device_config = 2300

abbrev pub hold_user_base : ℕ
hold_user_base = 4000

unfoldable pub holding_word : List ℕ → ℕ → Option ℕ
holding_word words addr = do index ← checked_sub addr hold_pxx_base; get_elem? words index

abbrev pub checked_mul16 : ℕ → ℕ → Option ℕ
checked_mul16 a b = if ltb (a * b) 65536 then some (a * b) else none

-- `to_be_bytes` of a word.
abbrev pub be_bytes : ℕ → ℕ × ℕ
be_bytes word = (word / 256 % 256, word % 256)

-- Whether the destination of one of the items meets the registers from `dest_reg` to `dest_end`.
unfoldable pub any_overlap : ℕ → ℕ → List PollItem → Bool
any_overlap dest_reg dest_end [] = false
any_overlap dest_reg dest_end (item ∷ items) =
    let existing_end = min (item.dest_reg + item.count) 65535 in
    ltb dest_reg existing_end && ltb item.dest_reg dest_end || any_overlap dest_reg dest_end items

-- `cursor.checked_add(4).is_none_or(|next| next > end)`
abbrev pub truncated : ℕ → ℕ → Bool
truncated cursor end_addr = elim (checked_add16 cursor 4) [
  | none ↦ true
  | some next ↦ ltb end_addr next
]

abbrev pub max_count : ℕ → ℕ
max_count func = if leb func 2 then 2000 else 125

-- One read of a record: the cursor behind it, and the items with it.
unfoldable pub parse_function : List ℕ → ℕ → ℕ → ℕ → ℕ → List PollItem → Option (ℕ × List PollItem)
parse_function words port slave end_addr cursor items = do
  guard (not (truncated cursor end_addr))
  func ← holding_word words cursor
  guard (ltb func 256)
  guard (leb 1 func && leb func 4)
  start_addr ← holding_word words (cursor + 1)
  dest_reg ← holding_word words (cursor + 2)
  header ← holding_word words (cursor + 3)
  let register_bytes = (be_bytes header).0
  let count = (be_bytes header).1
  guard (not (register_bytes == 0 || not (register_bytes % 2 == 0) || count == 0))
  guard (leb count (max_count func))
  guard (result_range_is_valid dest_reg count)
  dest_end ← checked_add16 dest_reg count
  guard (not (any_overlap dest_reg dest_end items))
  guard (ltb (length items) max_poll_items)
  register_words ← checked_mul16 (register_bytes / 2) count
  next ← checked_add16 cursor (4 + register_words)
  guard (leb next end_addr)
  some (
    next,
    items
        ++ (record {
          port = port;
          slave = slave;
          func = func;
          start = start_addr;
          count = count;
          dest_reg = dest_reg;
        }
            ∷ []),
  )

unfoldable pub functions_loop : List ℕ → ℕ → ℕ → ℕ → ℕ → ℕ → List PollItem → Option (List PollItem)
functions_loop words port slave end_addr zero cursor items = some items
functions_loop words port slave end_addr (suc n) cursor items =
    parse_function words port slave end_addr cursor items >>= λ (next, more).
    functions_loop words port slave end_addr n next more

-- A record with an attribute that has reads.
unfoldable pub parse_reads : List ℕ → ℕ → ℕ → List PollItem → Option (List PollItem)
parse_reads words start end_addr items = do
  address ← holding_word words (start + 4)
  let port = (be_bytes address).0
  let slave = (be_bytes address).1
  guard (leb 1 port && leb port 3 && (leb 1 slave && leb slave 247))
  header ← holding_word words (start + 5)
  guard ((be_bytes header).0 == 6)
  functions_loop words port slave end_addr (be_bytes header).1 (start + 6) items

-- One turn over the records, from their offsets on.
unfoldable pub parse_record : List ℕ → ℕ → ℕ → ℕ → List PollItem → Option (List PollItem)
parse_record words total_end start_offset end_offset items = do
  guard (ltb start_offset end_offset)
  start ← checked_add16 hold_device_config start_offset
  end_addr ← checked_add16 hold_device_config end_offset
  guard (not (ltb total_end end_addr || ltb (end_addr - start) 6))
  word ← holding_word words start
  if not (word % 256 == 2) && not (word % 256 == 4)
      then some items
      else parse_reads words start end_addr items

unfoldable pub logics_loop : List ℕ → ℕ → ℕ → ℕ → ℕ → ℕ → List PollItem → Option (List PollItem)
logics_loop words logic_count total_offset total_end logic_index zero items = some items
logics_loop words logic_count total_offset total_end logic_index (suc n) items = do
  start_offset ← holding_word words (hold_device_config + 1 + logic_index)
  end_offset ←
      if ltb (logic_index + 1) logic_count
      then holding_word words (hold_device_config + 1 + logic_index + 1)
      else some total_offset
  more ← parse_record words total_end start_offset end_offset items
  logics_loop words logic_count total_offset total_end (logic_index + 1) n more

-- The records, once there is one.
unfoldable pub parse_logics : List ℕ → ℕ → Option (List PollItem)
parse_logics words logic_count = do
  let available_words = length words - (hold_device_config - hold_pxx_base)
  guard (not (ltb 65533 logic_count || ltb available_words (logic_count + 2)))
  total_offset_addr ← checked_add16 hold_device_config (logic_count + 1)
  total_offset ← holding_word words total_offset_addr
  total_end ← checked_add16 hold_device_config total_offset
  guard (not (ltb total_offset (logic_count + 2) || ltb hold_user_base total_end))
  logics_loop words logic_count total_offset total_end 0 logic_count []

unfoldable pub parse_poll_table : List ℕ → Option (List PollItem)
parse_poll_table words = do
  logic_count ← holding_word words hold_device_config
  if logic_count == 0 then some [] else parse_logics words logic_count

pub record PollConfigSummary : Type 0 where
  pub logic_count : ℕ
  pub poll_item_count : ℕ
  pub active_port_item_count : ℕ

-- `filter(|item| item.port == 1).count()`
unfoldable pub count_active : List PollItem → ℕ
count_active [] = 0
count_active (item ∷ items) =
    let rest = count_active items in if item.port == 1 then suc rest else rest

unfoldable pub validate_poll_config : List ℕ → Option PollConfigSummary
validate_poll_config words = do
  count ← holding_word words hold_device_config
  items ← parse_poll_table words
  some (record {
    logic_count = count;
    poll_item_count = length items;
    active_port_item_count = count_active items;
  })
