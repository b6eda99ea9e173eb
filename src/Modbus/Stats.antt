-- ===== src/Modbus/Stats.antt =====
-- `Rs485Stats` of src/modbus/shared.rs: error states and the time of the last valid frame, for each
-- of the three ports. `now_ms` is the reading of `uptime_ms`, a 32-bit count of milliseconds.
pub mod Laws
use idf.Base.{
  ℕ, suc, List, [], ◌∷◌, Bool, ◌&&◌, Option, none, some, ◌!=◌, leb, get_elem?, get_or, set, u16,
  max, wrapping_sub32,
}

pub record Rs485Stats : Type 0 where
  pub port_comerr : List ℕ
  pub port_apperr : List ℕ
  pub port_last_ok_ms : List ℕ

abbrev pub rs485_activity_window_ms : ℕ
rs485_activity_window_ms = 1000

abbrev pub rs485_comm_error : ℕ
rs485_comm_error = 4

unfoldable pub new : Rs485Stats
new = record {
  port_comerr = 0 ∷ 0 ∷ 0 ∷ [];
  port_apperr = 0 ∷ 0 ∷ 0 ∷ [];
  port_last_ok_ms = 0 ∷ 0 ∷ 0 ∷ [];
}

-- The readers; an unknown port reads 0.
unfoldable pub comerr : Rs485Stats → ℕ → ℕ
comerr s port = u16 (get_or s.port_comerr port 0)

unfoldable pub apperr : Rs485Stats → ℕ → ℕ
apperr s port = u16 (get_or s.port_apperr port 0)

unfoldable pub inc_port_comerr : ℕ → Rs485Stats → Rs485Stats
inc_port_comerr port s = record s { port_comerr = set s.port_comerr port rs485_comm_error }

unfoldable pub set_port_apperr : ℕ → ℕ → Rs485Stats → Rs485Stats
set_port_apperr port code s = record s { port_apperr = set s.port_apperr port code }

unfoldable pub inc_port_apperr : ℕ → Rs485Stats → Rs485Stats
unfolding set_port_apperr
inc_port_apperr port s = set_port_apperr port 1 s

pub clear_errors : ℕ → Rs485Stats → Rs485Stats
clear_errors port s = record s {
  port_comerr = set s.port_comerr port 0;
  port_apperr = set s.port_apperr port 0;
}

unfoldable pub mark_port_ok : ℕ → ℕ → Rs485Stats → Rs485Stats
unfolding clear_errors
mark_port_ok port now_ms s =
    clear_errors port (record s { port_last_ok_ms = set s.port_last_ok_ms port (max now_ms 1) })

pub activity_is_recent : ℕ → ℕ → Bool
activity_is_recent last_ms now_ms =
    last_ms != 0 && leb (wrapping_sub32 now_ms last_ms) rs485_activity_window_ms

unfoldable pub port_active : Rs485Stats → ℕ → ℕ → Bool
unfolding activity_is_recent
port_active s port now_ms = activity_is_recent (get_or s.port_last_ok_ms port 0) now_ms
