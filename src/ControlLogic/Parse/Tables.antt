-- ===== src/ControlLogic/Parse/Tables.antt =====
-- The tables that `parse_table` of src/control_logic.rs makes.
use idf.Base.{
  ℕ, zero, suc, ◌+◌, ◌≤◌, ◌<◌, refl, subst, ◌-◌, inl, inr, min, List, [], ◌∷◌, ◌++◌, not, ◌&&◌,
  Option, none, some, ◌==◌, length, arith, IfSome, Option-cases, if_elim,
}
use native.Mathlib.Decide.{dec_lt}
use idf.ControlLogic.{IoLogic, LogicTable, config_base, max_logics, holding_base}
use idf.ControlLogic.Table.{holding_word, push_some, rs485_channel_header, low_byte, parse_channels}
use idf.ControlLogic.Parse.{
  parse_io, add_attribute, add_record, offsets, table_loop, empty_table, parse_table, record_span,
}
use idf.ControlLogic.Parse.Valid.{
  IsLogic, IsChannels, empty-IsChannels, parse_channels-IsChannels, parse_io-IsLogic,
}

-- The numbers of the entries rise, from `low` on, and stay below `bound`.
pub Rising : ℕ → ℕ → List IoLogic → Type 0
Rising low bound [] = low ≤ bound
Rising low bound (l ∷ ls) =
    (low ≤ l.logic_id)
    × (l.logic_id < bound)
    × IsLogic l.logic_id l
    × Rising (suc l.logic_id) bound ls

pub record IsTable (bound : ℕ) (t : LogicTable) : Type 0 where
  pub rising : Rising 0 bound t.entries
  pub channels_ok : IsChannels t.analog_channels

Rising-suc : (low bound : ℕ) (ls : List IoLogic) → Rising low bound ls → Rising low (suc bound) ls
unfolding Rising
Rising-suc low bound [] h = omega (arith, h)
Rising-suc low bound (l ∷ ls) h =
    (h.0, omega (arith, h.1), h.2, Rising-suc (suc l.logic_id) bound ls h.3)

Rising-snoc :
    (low bound : ℕ) (ls : List IoLogic) (l : IoLogic)
    → Rising low bound ls
    → IsLogic bound l
    → Rising low (suc bound) (ls ++ (l ∷ []))
unfolding Rising
Rising-snoc low bound [] l h v = (
  omega (arith, h, v.numbered),
  omega (arith, v.numbered),
  record { numbered = refl; q_ok = v.q_ok; i_ok = v.i_ok; some_control = v.some_control },
  omega (arith, v.numbered),
)
Rising-snoc low bound (x ∷ ls) l h v =
    (h.0, omega (arith, h.1), h.2, Rising-snoc (suc x.logic_id) bound ls l h.3 v)

Rising-push_some :
    (bound : ℕ) (ls : List IoLogic) (o : Option IoLogic)
    → Rising 0 bound ls
    → IfSome (IsLogic bound) o
    → Rising 0 (suc bound) (push_some ls o)
Rising-push_some bound ls none h v = Rising-suc 0 bound ls h
Rising-push_some bound ls (some l) h v = Rising-snoc 0 bound ls l h v

IsTable-suc : (index : ℕ) (t : LogicTable) → IsTable index t → IsTable (suc index) t
IsTable-suc index t v = record {
  rising = Rising-suc 0 index t.entries v.rising;
  channels_ok = v.channels_ok;
}

with_channels :
    (index header : ℕ) (w : List ℕ) (t : LogicTable)
    → IsTable index t
    → IsTable (suc index) (record t { analog_channels = parse_channels w header t.analog_channels })
with_channels index header w t v = record {
  rising = Rising-suc 0 index t.entries v.rising;
  channels_ok = parse_channels-IsChannels w header t.analog_channels v.channels_ok;
}

with_rs485 :
    (index : ℕ) (o : Option ℕ) (w : List ℕ) (t : LogicTable)
    → IsTable index t
    → IsTable (suc index) (elim o as (λ x. LogicTable) [
      | none ↦ t
      | some header ↦ record t { analog_channels = parse_channels w header t.analog_channels }
    ])
with_rs485 index none w t v = IsTable-suc index t v
with_rs485 index (some header) w t v = with_channels index header w t v

add_attribute-IsTable :
    (index : ℕ) (w : List ℕ) (start attribute : ℕ) (t : LogicTable)
    → IsTable index t
    → IsTable (suc index) (add_attribute index w start attribute t)
unfolding add_attribute
add_attribute-IsTable index w start attribute t v =
    if_elim (IsTable (suc index)) (attribute == 3) _ _
      (with_channels index (start - holding_base + 4) w t v)
      (if_elim (IsTable (suc index)) (attribute == 4) _ _
        (with_rs485 index (rs485_channel_header w (start - holding_base)) w t v)
        (if_elim (IsTable (suc index)) (not (attribute == 1) && not (attribute == 5)) t _
          (IsTable-suc index t v)
          (record {
            rising =
                Rising-push_some index t.entries (parse_io index (attribute == 1) w start) v.rising
                  (parse_io-IsLogic index (attribute == 1) w start);
            channels_ok = v.channels_ok;
          })))

add_record-IsTable :
    (index : ℕ) (words : List ℕ) (start_offset end_offset : ℕ) (t : LogicTable)
    → IsTable index t
    → IsTable (suc index) (add_record index words start_offset end_offset t)
unfolding add_record
add_record-IsTable index words start_offset end_offset t v =
    elim (Option-cases (record_span words start_offset end_offset)) [
      | inl skipped ↦ rw (add_record, skipped) (IsTable-suc index t v)
      | inr ((w, start), span) ↦ elim (Option-cases (holding_word w start)) [
        | inl skipped ↦ rw (add_record, span, skipped) (IsTable-suc index t v)
        | inr (attribute, there) ↦
            rw (add_record, span, there)
              (add_attribute-IsTable index w start (low_byte attribute) t v)
      ]
    ]

Rising_stop : (bound later : ℕ) (t : LogicTable) → bound ≤ later → IsTable bound t → IsTable later t
Rising_stop bound zero t h v = subst (λ n. IsTable n t) (omega (arith, h)) v
Rising_stop bound (suc later) t h v = elim (dec_lt later bound) [
  | yes p ↦ subst (λ n. IsTable n t) {x = bound} {y = suc later} (omega (arith, h, p)) v
  | no p ↦ IsTable-suc later t (Rising_stop bound later t (omega (arith, p)) v)
]

table_loop-IsTable :
    (words : List ℕ) (count index n : ℕ) (t : LogicTable)
    → IsTable index t
    → IsTable (index + n) (table_loop words count index n t)
unfolding table_loop
table_loop-IsTable words count index zero t v = Rising_stop index (index + 0) t (omega arith) v
table_loop-IsTable words count index (suc n) t v = elim (Option-cases (offsets words count index)) [
  | inl stop ↦ rw (table_loop, stop) (Rising_stop index (index + suc n) t (omega arith) v)
  | inr ((start_offset, end_offset), there) ↦
      rw (table_loop, there)
        (subst
          (λ m. IsTable m (
            table_loop words count (suc index) n
              (add_record index words start_offset end_offset t)))
          {x = suc index + n} {y = index + suc n} (omega arith)
          (table_loop-IsTable words count (suc index) n
            (add_record index words start_offset end_offset t)
            (add_record-IsTable index words start_offset end_offset t v)))
]

empty_table-IsTable : (bound : ℕ) → IsTable bound empty_table
unfolding Rising
empty_table-IsTable bound = record { rising = omega arith; channels_ok = empty-IsChannels }

Rising-length : (low bound : ℕ) (ls : List IoLogic) → Rising low bound ls → low + length ls ≤ bound
unfolding Rising
Rising-length low bound [] h = omega (arith, h)
Rising-length low bound (l ∷ ls) h = omega (arith, h.0, Rising-length (suc l.logic_id) bound ls h.3)

parsed : (words : List ℕ) → IsTable max_logics (parse_table words)
unfolding parse_table
parsed words = elim (Option-cases (holding_word words config_base)) [
  | inl absent ↦ rw (parse_table, absent) (empty_table-IsTable max_logics)
  | inr (count, there) ↦
      rw (parse_table, there)
        (Rising_stop (0 + min count max_logics) max_logics _ (omega arith) (
          table_loop-IsTable words (min count max_logics) 0 (min count max_logics) empty_table
            (empty_table-IsTable 0)))
]

-- Whatever words the holding buffer has, the table has at most 32 entries, whose numbers rise
-- and are below 32; each has at most 64 points of each kind, all from 1 to 64, and at least one
-- control; and it has at most 64 channels, each with one of the eight inputs and registers that
-- hold results.
pub parse_table-IsTable :
    (words : List ℕ)
    → IsTable max_logics (parse_table words) × (length (parse_table words).entries ≤ max_logics)
parse_table-IsTable words =
    let v = parsed words in
    (v, omega (arith, Rising-length 0 max_logics (parse_table words).entries v.rising))
