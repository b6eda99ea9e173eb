-- ===== src/Modbus/RtuMaster/Tests.antt =====
-- The theorems of the master at one poll of two registers.
use idf.Base.{
  IfSome, All, ◌++◌, ℕ, ◌+◌, ◌-◌, ◌*◌, ◌≡◌, refl, inl, true, false, none, some, List, [], ◌∷◌,
  replicate, length, get_or, take, slice, arith,
}
use idf.Modbus.Tests.{bank, clock, quiet, regs, stats}
use idf.Modbus.Crc.{modbus_crc16}
use idf.Modbus.Pdu.{handle_pdu, pdu_buf_size}
use idf.Modbus.RtuSlave.{handle_request, build_response}
use idf.Modbus.RtuMaster.Results.{
  PollItem, Results, write_result, result_range_is_valid, result_index, store_words,
}
use idf.Modbus.RtuMaster.Results.{publish_result_ranges}
use idf.Modbus.RtuMaster.Results.Publish.{Readable}
use idf.Modbus.RtuMaster.Table.{
  parse_poll_table, validate_poll_config, count_active, parse_logics, logics_loop, parse_record,
  parse_reads, functions_loop, parse_function, any_overlap, holding_word,
}
use idf.Modbus.RtuMaster.Table.Valid.{IsPollTable, parse_poll_table-IsPollTable}
use idf.Modbus.RtuMaster.Table.Published.{parse_poll_table-Readable}
use idf.Modbus.RtuMaster.Poll.{
  build_request, payload_len, expected_response_len, exact_words, poll_once, poll_frame,
  response_data,
}
use idf.Modbus.RtuMaster.Poll.Laws.{poll_once-accepted, handle_request-build_request, request_pdu}

abbrev item : PollItem
item = record { port = 1; slave = 1; func = 3; start = 0; count = 2; dest_reg = 4001 }

-- The mirror once the item is configured: the bits 129 and 130 are set.
abbrev mirror : Results
mirror = record {
  values = replicate 352 0;
  valid = store_words (true ∷ true ∷ []) 129 (replicate 352 false);
}

-- The answer of slave 1.
abbrev answer : List ℕ
answer = 1 ∷ 3 ∷ 4 ∷ 0x12 ∷ 0x34 ∷ 0x56 ∷ 0x78 ∷ 129 ∷ 7 ∷ []

timed_out : (poll_once 5 6 item none mirror stats).ok ≡ false
unfolding poll_once
timed_out = refl

passed : (poll_once 5 6 item (some answer) mirror stats).ok ≡ true
unfolding poll_once poll_frame response_data modbus_crc16 exact_words
passed = refl

poll_once-accepted_example :
    (length answer ≡ expected_response_len item)
    × (get_or answer 0 0 ≡ 1)
    × (get_or answer 1 0 ≡ 3)
    × (modbus_crc16 (take (length answer - 2) answer)
        ≡ get_or answer (length answer - 1) 0 * 256 + get_or answer (length answer - 2) 0)
    × ((poll_once 5 6 item (some answer) mirror stats).results
        ≡ write_result item (exact_words (slice 3 (payload_len item) answer)) mirror)
poll_once-accepted_example = poll_once-accepted 5 6 item answer mirror stats (inl refl) passed

handle_request-build_request_example :
    let r = handle_request bank clock 5 (build_request item) 1 1 regs quiet stats in
    let done = handle_pdu bank clock 3 (request_pdu item) (replicate pdu_buf_size 0) regs quiet in
    (r.state ≡ done.state)
    × (r.log ≡ done.log)
    × (r.sent ≡ some (build_response bank clock 1 3 (request_pdu item) regs quiet).0)
handle_request-build_request_example =
    handle_request-build_request item bank clock 5 1 regs quiet stats (omega arith) (omega arith)
      (omega arith)

-- A table with one logic whose one read takes two registers of station 5 to 4000 and 4001.
abbrev words_of_table : List ℕ
words_of_table =
    replicate 124 0
    ++ (1 ∷ 3 ∷ 15 ∷ 2 ∷ 0 ∷ 0 ∷ 0 ∷ 0x0105 ∷ 0x0601 ∷ 3 ∷ 10 ∷ 4000 ∷ 0x0202 ∷ 0 ∷ 0 ∷ [])

parsed :
    parse_poll_table words_of_table
    ≡ some (record { port = 1; slave = 5; func = 3; start = 10; count = 2; dest_reg = 4000 } ∷ [])
unfolding parse_poll_table parse_logics logics_loop parse_record parse_reads functions_loop
    parse_function any_overlap holding_word result_range_is_valid result_index
parsed = refl

summary :
    validate_poll_config words_of_table
    ≡ some (record { logic_count = 1; poll_item_count = 1; active_port_item_count = 1 })
unfolding validate_poll_config count_active parse_poll_table parse_logics logics_loop parse_record
    parse_reads functions_loop parse_function any_overlap holding_word result_range_is_valid
    result_index
summary = refl

-- A record that ends before its read is an error.
cut_short :
    parse_poll_table
      (replicate 124 0 ++ (1 ∷ 3 ∷ 9 ∷ 2 ∷ 0 ∷ 0 ∷ 0 ∷ 0x0105 ∷ 0x0601 ∷ 3 ∷ 10 ∷ 4000 ∷ []))
    ≡ none
unfolding parse_poll_table parse_logics logics_loop parse_record parse_reads functions_loop
    parse_function any_overlap holding_word result_range_is_valid result_index
cut_short = refl

parse_poll_table-IsPollTable_example : IfSome IsPollTable (parse_poll_table words_of_table)
parse_poll_table-IsPollTable_example = parse_poll_table-IsPollTable words_of_table

parse_poll_table-Readable_example :
    IfSome
      (λ items. All (Readable (publish_result_ranges items)) items)
      (parse_poll_table words_of_table)
parse_poll_table-Readable_example = parse_poll_table-Readable words_of_table
