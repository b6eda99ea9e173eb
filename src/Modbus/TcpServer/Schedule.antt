-- ===== src/Modbus/TcpServer/Schedule.antt =====
-- The order in which clients are served: `fair_client_schedule` of src/modbus/tcp_server.rs. A client
-- is its id and its listener slot; the result is `order[..used]`.
pub mod Fair
use idf.Base.{
  ℕ, zero, suc, ◌+◌, ◌%◌, min, max, List, [], ◌∷◌, ◌++◌, Bool, Option, none, some, ◌==◌,
  if◌then◌else◌, length, get_elem?, take,
}

abbrev pub max_connections : ℕ
max_connections = 8

-- `last_served.len()`
abbrev pub ports : ℕ
ports = 4

-- `clients[index].1`, where the index is in range.
abbrev pub slot_of : List (ℕ × ℕ) → ℕ → ℕ
slot_of [] index = ports
slot_of ((id, slot) ∷ clients) zero = slot
slot_of (c ∷ clients) (suc index) = slot_of clients index

-- `position` of the client with an id.
unfoldable pub position_of : ℕ → List (ℕ × ℕ) → Option ℕ
position_of id [] = none
position_of id ((candidate, slot) ∷ clients) =
    let later = position_of id clients in
    if candidate == id then some 0 else elim later [ none ↦ none | some i ↦ some (suc i) ]

-- Where the rotation within a slot starts.
pub start_of : Option ℕ → List (ℕ × ℕ) → ℕ → ℕ
unfolding position_of
start_of none clients count = 0
start_of (some id) clients count = elim (position_of id (take count clients)) [
  | none ↦ 0
  | some index ↦ (index + 1) % max count 1
]

-- The inner loop, with `n` offsets left, from `offset` on.
pub slot_loop : ℕ → ℕ → ℕ → ℕ → ℕ → List (ℕ × ℕ) → List ℕ
slot_loop zero offset start count slot clients = []
slot_loop (suc n) offset start count slot clients =
    let index = (start + offset) % count in
    let rest = slot_loop n (offset + 1) start count slot clients in
    if slot_of clients index == slot then index ∷ rest else rest

-- `last_served[slot]`
abbrev pub served : List (Option ℕ) → ℕ → Option ℕ
served [] slot = none
served (o ∷ last_served) zero = o
served (o ∷ last_served) (suc slot) = served last_served slot

-- One turn of the outer loop.
pub slot_part : ℕ → List (ℕ × ℕ) → List (Option ℕ) → List ℕ
unfolding start_of slot_loop
slot_part slot clients last_served =
    let count = min (length clients) max_connections in
    slot_loop count 0 (start_of (served last_served slot) clients count) count slot clients

unfoldable pub fair_client_schedule : List (ℕ × ℕ) → ℕ → List (Option ℕ) → List ℕ
unfolding slot_part
fair_client_schedule clients port_cursor last_served =
    let part =
      λ (port_offset : ℕ). slot_part ((port_cursor + port_offset) % ports) clients last_served in
    part 0 ++ (part 1 ++ (part 2 ++ part 3))
