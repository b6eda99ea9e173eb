-- ===== src/Modbus/RtuMaster/Table/Valid.antt =====
-- What every table of polls satisfies (src/modbus/rtu_master.rs).
use idf.Base.{
  ℕ, zero, suc, ◌+◌, ◌-◌, ◌/◌, ◌%◌, ◌≤◌, ◌<◌, ◌≡◌, ◌⊎◌, inl, inr, refl, min, List, [], ◌∷◌, ◌++◌,
  Bool, true, false, not, ◌&&◌, ◌||◌, Option, none, some, ◌==◌, ltb, leb, length, length-append,
  checked_add16, ◌>>=◌, IfSome, IfSome->>=, IfSome-guard, if_elim, All, All-append, arith,
  Bool-cases,
}
use idf.Modbus.RtuMaster.Results.{PollItem, result_range_is_valid}
use idf.Modbus.RtuMaster.Table.{
  max_poll_items, hold_device_config, hold_user_base, hold_pxx_base, holding_word, checked_mul16,
  be_bytes, any_overlap, truncated, max_count, parse_function, functions_loop, parse_reads,
  parse_record, logics_loop, parse_logics, parse_poll_table,
}

pub record IsPollItem (item : PollItem) : Type 0 where
  pub port_ok : (1 ≤ item.port) × (item.port ≤ 3)
  pub slave_ok : (1 ≤ item.slave) × (item.slave ≤ 247)
  pub func_ok : (1 ≤ item.func) × (item.func ≤ 4)
  pub count_ok : (1 ≤ item.count) × (item.count ≤ max_count item.func)
  pub range_ok : result_range_is_valid item.dest_reg item.count ≡ true

-- The destinations of two items have no register in common.
abbrev pub Disjoint : PollItem → PollItem → Type 0
Disjoint x y = (x.dest_reg + x.count ≤ y.dest_reg) ⊎ (y.dest_reg + y.count ≤ x.dest_reg)

abbrev pub Apart : List PollItem → Type 0
Apart [] = Unit
Apart (x ∷ xs) = All (Disjoint x) xs × Apart xs

pub record IsPollTable (items : List PollItem) : Type 0 where
  pub few : length items ≤ max_poll_items
  pub good : All IsPollItem items
  pub apart : Apart items

Apart-append :
    (xs : List PollItem) (y : PollItem)
    → Apart xs
    → All (λ x. Disjoint x y) xs
    → Apart (xs ++ (y ∷ []))
Apart-append [] y h k = (tt, tt)
Apart-append (x ∷ xs) y h k =
    (All-append (Disjoint x) xs (y ∷ []) h.0 (k.0, tt), Apart-append xs y h.1 k.1)

or_false : (a b : Bool) → (a || b) ≡ false → (a ≡ false) × (b ≡ false)
or_false true b e = cc
or_false false b e = (refl, e)

no_overlap :
    (x y : PollItem)
    → 1 ≤ y.count
    → y.dest_reg + y.count < 65536
    → (ltb y.dest_reg (min (x.dest_reg + x.count) 65535) && ltb x.dest_reg (y.dest_reg + y.count))
      ≡ false
    → Disjoint x y
no_overlap x y h k e = ground (arith, h, k, e)

any_overlap-Disjoint :
    (y : PollItem) (xs : List PollItem)
    → 1 ≤ y.count
    → y.dest_reg + y.count < 65536
    → any_overlap y.dest_reg (y.dest_reg + y.count) xs ≡ false
    → All (λ x. Disjoint x y) xs
unfolding any_overlap
any_overlap-Disjoint y [] h k e = tt
any_overlap-Disjoint y (x ∷ xs) h k e =
    let (here, rest) = or_false _ _ e in
    (no_overlap x y h k here, any_overlap-Disjoint y xs h k rest)

push-IsPollTable :
    (items : List PollItem) (item : PollItem)
    → IsPollTable items
    → IsPollItem item
    → item.dest_reg + item.count < 65536
    → any_overlap item.dest_reg (item.dest_reg + item.count) items ≡ false
    → length items < max_poll_items
    → IsPollTable (items ++ (item ∷ []))
push-IsPollTable items item t i fits free room = record {
  few = omega (arith, room, length-append items (item ∷ []));
  good = All-append IsPollItem items (item ∷ []) t.good (i, tt);
  apart = Apart-append items item t.apart (any_overlap-Disjoint item items i.count_ok.0 fits free);
}

read_func : (func : ℕ) → (leb 1 func && leb func 4) ≡ true → (1 ≤ func) × (func ≤ 4)
read_func func e = (ground (arith, e), ground (arith, e))

some_count :
    (bytes count : ℕ) → not (bytes == 0 || not (bytes % 2 == 0) || count == 0) ≡ true → 1 ≤ count
some_count bytes count e = ground (arith, e)

leb_le : (m n : ℕ) → leb m n ≡ true → m ≤ n
leb_le m n e = ground (arith, e)

refuted : (b : Bool) → not b ≡ true → b ≡ false
refuted true e = cc
refuted false e = refl

room_left :
    (items : List PollItem)
    → ltb (length items) max_poll_items ≡ true
    → length items < max_poll_items
room_left items e = ground (arith, e)

push_parsed :
    (items : List PollItem) (item : PollItem)
    → IsPollTable items
    → (1 ≤ item.port) × (item.port ≤ 3)
    → (1 ≤ item.slave) × (item.slave ≤ 247)
    → (1 ≤ item.func) × (item.func ≤ 4)
    → (1 ≤ item.count) × (item.count ≤ max_count item.func)
    → result_range_is_valid item.dest_reg item.count ≡ true
    → item.dest_reg + item.count < 65536
    → any_overlap item.dest_reg (item.dest_reg + item.count) items ≡ false
    → length items < max_poll_items
    → IsPollTable (items ++ (item ∷ []))
push_parsed items item t p s f c range fits free room =
    push-IsPollTable items item t
      (record { port_ok = p; slave_ok = s; func_ok = f; count_ok = c; range_ok = range }) fits free
      room

IfSome-checked_add16 :
    {B : Type 0} (P : B → Type 0) (a b : ℕ) (f : ℕ → Option B)
    → (a + b < 65536 → IfSome P (f (a + b)))
    → IfSome P (checked_add16 a b >>= f)
IfSome-checked_add16 P a b f h = elim (Bool-cases (ltb (a + b) 65536)) [
  | inl fits ↦ rw (fits) (h (ground (arith, fits)))
  | inr over ↦ rw (over) tt
]

parse_function-IsPollTable :
    (words : List ℕ) (port slave end_addr cursor : ℕ) (items : List PollItem)
    → (1 ≤ port) × (port ≤ 3)
    → (1 ≤ slave) × (slave ≤ 247)
    → IsPollTable items
    → IfSome (λ r. IsPollTable r.1) (parse_function words port slave end_addr cursor items)
unfolding parse_function
parse_function-IsPollTable words port slave end_addr cursor items p s t =
    let P : ℕ × List PollItem → Type 0 = λ r. IsPollTable r.1 in
    IfSome-guard P (not (truncated cursor end_addr)) _ λ _.
      IfSome->>= P (holding_word words cursor) _ λ func. IfSome-guard P (ltb func 256) _ λ _.
        IfSome-guard P (leb 1 func && leb func 4) _ λ reads.
          IfSome->>= P (holding_word words (cursor + 1)) _ λ start_addr.
            IfSome->>= P (holding_word words (cursor + 2)) _ λ dest_reg.
              IfSome->>= P (holding_word words (cursor + 3)) _ λ header.
                let bytes = (be_bytes header).0 in
                let count = (be_bytes header).1 in
                IfSome-guard P (not (bytes == 0 || not (bytes % 2 == 0) || count == 0)) _ λ layout.
                  IfSome-guard P (leb count (max_count func)) _ λ quantity.
                    IfSome-guard P (result_range_is_valid dest_reg count) _ λ range.
                      IfSome-checked_add16 P dest_reg count _ λ fits.
                        IfSome-guard P (not (any_overlap dest_reg (dest_reg + count) items)) _
                          λ free. IfSome-guard P (ltb (length items) max_poll_items) _ λ room.
                            IfSome->>= P (checked_mul16 (bytes / 2) count) _ λ register_words.
                              IfSome->>= P (checked_add16 cursor (4 + register_words)) _ λ next.
                                IfSome-guard P (leb next end_addr) _ λ _.
                                  push_parsed items
                                    (record {
                                      port = port;
                                      slave = slave;
                                      func = func;
                                      start = start_addr;
                                      count = count;
                                      dest_reg = dest_reg;
                                    })
                                    t p s (read_func func reads)
                                    (some_count bytes count layout, leb_le count _ quantity) range
                                    fits (refuted _ free) (room_left items room)

IfSome-chain :
    {A B : Type 0} (Q : A → Type 0) (P : B → Type 0) (m : Option A) (f : A → Option B)
    → IfSome Q m
    → ((a : A) → Q a → IfSome P (f a))
    → IfSome P (m >>= f)
IfSome-chain Q P none f h k = tt
IfSome-chain Q P (some a) f h k = k a h

functions_loop-IsPollTable :
    (words : List ℕ) (port slave end_addr n cursor : ℕ) (items : List PollItem)
    → (1 ≤ port) × (port ≤ 3)
    → (1 ≤ slave) × (slave ≤ 247)
    → IsPollTable items
    → IfSome IsPollTable (functions_loop words port slave end_addr n cursor items)
unfolding functions_loop
functions_loop-IsPollTable words port slave end_addr zero cursor items p s t = t
functions_loop-IsPollTable words port slave end_addr (suc n) cursor items p s t =
    IfSome-chain (λ r. IsPollTable r.1) IsPollTable
      (parse_function words port slave end_addr cursor items) _
      (parse_function-IsPollTable words port slave end_addr cursor items p s t)
      λ r more. functions_loop-IsPollTable words port slave end_addr n r.0 r.1 p s more

in_bounds :
    (port slave : ℕ)
    → (leb 1 port && leb port 3 && (leb 1 slave && leb slave 247)) ≡ true
    → ((1 ≤ port) × (port ≤ 3)) × ((1 ≤ slave) × (slave ≤ 247))
in_bounds port slave e =
    ((ground (arith, e), ground (arith, e)), (ground (arith, e), ground (arith, e)))

parse_reads-IsPollTable :
    (words : List ℕ) (start end_addr : ℕ) (items : List PollItem)
    → IsPollTable items
    → IfSome IsPollTable (parse_reads words start end_addr items)
unfolding parse_reads
parse_reads-IsPollTable words start end_addr items t =
    IfSome->>= IsPollTable (holding_word words (start + 4)) _ λ address.
      let port = (be_bytes address).0 in
      let slave = (be_bytes address).1 in
      IfSome-guard IsPollTable (leb 1 port && leb port 3 && (leb 1 slave && leb slave 247)) _ λ ok.
        IfSome->>= IsPollTable (holding_word words (start + 5)) _ λ header.
          IfSome-guard IsPollTable ((be_bytes header).0 == 6) _ λ _.
            functions_loop-IsPollTable words port slave end_addr (be_bytes header).1 (start + 6)
              items (in_bounds port slave ok).0 (in_bounds port slave ok).1 t

parse_record-IsPollTable :
    (words : List ℕ) (total_end start_offset end_offset : ℕ) (items : List PollItem)
    → IsPollTable items
    → IfSome IsPollTable (parse_record words total_end start_offset end_offset items)
unfolding parse_record
parse_record-IsPollTable words total_end start_offset end_offset items t =
    IfSome-guard IsPollTable (ltb start_offset end_offset) _ λ _.
      IfSome->>= IsPollTable (checked_add16 hold_device_config start_offset) _ λ start.
        IfSome->>= IsPollTable (checked_add16 hold_device_config end_offset) _ λ end_addr.
          IfSome-guard IsPollTable (not (ltb total_end end_addr || ltb (end_addr - start) 6)) _ λ _.
            IfSome->>= IsPollTable (holding_word words start) _ λ word.
              if_elim (IfSome IsPollTable) (not (word % 256 == 2) && not (word % 256 == 4)) _ _ t
                (parse_reads-IsPollTable words start end_addr items t)

logics_loop-IsPollTable :
    (words : List ℕ) (logic_count total_offset total_end logic_index n : ℕ) (items : List PollItem)
    → IsPollTable items
    → IfSome IsPollTable (logics_loop words logic_count total_offset total_end logic_index n items)
unfolding logics_loop
logics_loop-IsPollTable words logic_count total_offset total_end logic_index zero items t = t
logics_loop-IsPollTable words logic_count total_offset total_end logic_index (suc n) items t =
    IfSome->>= IsPollTable (holding_word words (hold_device_config + 1 + logic_index)) _
      λ start_offset. IfSome->>= IsPollTable _ _ λ end_offset.
        IfSome-chain IsPollTable IsPollTable
          (parse_record words total_end start_offset end_offset items) _
          (parse_record-IsPollTable words total_end start_offset end_offset items t)
          λ more h.
            logics_loop-IsPollTable words logic_count total_offset total_end (logic_index + 1) n
              more h

empty-IsPollTable : IsPollTable []
empty-IsPollTable = record { few = omega arith; good = tt; apart = tt }

parse_logics-IsPollTable :
    (words : List ℕ) (logic_count : ℕ) → IfSome IsPollTable (parse_logics words logic_count)
unfolding parse_logics
parse_logics-IsPollTable words logic_count =
    let available_words = length words - (hold_device_config - hold_pxx_base) in
    IfSome-guard IsPollTable (not (ltb 65533 logic_count || ltb available_words (logic_count + 2)))
      _
      λ _.
        IfSome->>= IsPollTable (checked_add16 hold_device_config (logic_count + 1)) _
          λ total_offset_addr.
            IfSome->>= IsPollTable (holding_word words total_offset_addr) _ λ total_offset.
              IfSome->>= IsPollTable (checked_add16 hold_device_config total_offset) _ λ total_end.
                IfSome-guard IsPollTable
                  (not (ltb total_offset (logic_count + 2) || ltb hold_user_base total_end)) _
                  λ _.
                    logics_loop-IsPollTable words logic_count total_offset total_end 0 logic_count
                      [] empty-IsPollTable

-- Whatever words the holding buffer has, a table of polls that is parsed from them has at most
-- 64 items, each with a port from 1 to 3, a station from 1 to 247, a read function from 1 to 4,
-- a count from 1 to the limit of its function, and a destination in one area of the mirror; and
-- no two destinations have a register in common.
pub parse_poll_table-IsPollTable : (words : List ℕ) → IfSome IsPollTable (parse_poll_table words)
unfolding parse_poll_table
parse_poll_table-IsPollTable words =
    IfSome->>= IsPollTable (holding_word words hold_device_config) _ λ logic_count.
      if_elim (IfSome IsPollTable) (logic_count == 0) _ _ empty-IsPollTable
        (parse_logics-IsPollTable words logic_count)
