-- ===== src/Modbus/RtuMaster/Table/Published.antt =====
-- A table of polls and the mirror made for it (src/modbus/rtu_master.rs).
use idf.Base.{ℕ, List, [], ◌∷◌, Option, none, some, IfSome, All}
use idf.Modbus.RtuMaster.Results.{PollItem, publish_result_ranges}
use idf.Modbus.RtuMaster.Results.Publish.{InRange, Readable, publish_result_ranges-Readable}
use idf.Modbus.RtuMaster.Table.{parse_poll_table}
use idf.Modbus.RtuMaster.Table.Valid.{IsPollItem, IsPollTable, parse_poll_table-IsPollTable}

All-InRange : (items : List PollItem) → All IsPollItem items → All InRange items
All-InRange [] h = tt
All-InRange (item ∷ items) (h, hs) = (h.range_ok, All-InRange items hs)

table-Readable :
    (o : Option (List PollItem))
    → IfSome IsPollTable o
    → IfSome (λ items. All (Readable (publish_result_ranges items)) items) o
table-Readable none h = tt
table-Readable (some items) h = publish_result_ranges-Readable items (All-InRange items h.good)

-- Whatever the words are, once the table parsed from them is published, every register of every
-- destination in it can be read, and it reads 0; so no index of a destination is missing where
-- the code expects one.
pub parse_poll_table-Readable :
    (words : List ℕ)
    → IfSome (λ items. All (Readable (publish_result_ranges items)) items) (parse_poll_table words)
parse_poll_table-Readable words =
    table-Readable (parse_poll_table words) (parse_poll_table-IsPollTable words)
