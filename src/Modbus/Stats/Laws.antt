-- ===== src/Modbus/Stats/Laws.antt =====
-- The port states of `Rs485Stats` after an event.
use idf.Base.{
  ℕ, ◌+◌, ◌%◌, ◌≤◌, ◌<◌, ◌≡◌, ◌≢◌, ◌↔◌, true, get_or, length, length-set, get_or-set_self,
  get_or-set_ne, max, arith,
}
use idf.Modbus.Stats.{
  Rs485Stats, comerr, apperr, inc_port_comerr, set_port_apperr, mark_port_ok, port_active,
}

-- Three ports.
pub record IsStats (s : Rs485Stats) : Type 0 where
  pub comerr_ports : length s.port_comerr ≡ 3
  pub apperr_ports : length s.port_apperr ≡ 3
  pub last_ports : length s.port_last_ok_ms ≡ 3

pub mark_port_ok-IsStats :
    (port now_ms : ℕ) {s : Rs485Stats} → IsStats s → IsStats (mark_port_ok port now_ms s)
unfolding mark_port_ok
mark_port_ok-IsStats port now_ms {s} v = ground (
  arith,
  length-set s.port_comerr port 0,
  length-set s.port_apperr port 0,
  length-set s.port_last_ok_ms port (max now_ms 1),
)

-- What every reader shows of a port.
abbrev pub view : Rs485Stats → ℕ → ℕ × ℕ × ℕ
view s port = (comerr s port, apperr s port, get_or s.port_last_ok_ms port 0)

-- With three counters of each kind, a valid frame on one of the three ports clears the
-- communication and the application error of that port.
pub mark_port_ok-clears :
    (s : Rs485Stats) (port now_ms : ℕ)
    → IsStats s
    → port < 3
    → (comerr (mark_port_ok port now_ms s) port ≡ 0)
      × (apperr (mark_port_ok port now_ms s) port ≡ 0)
unfolding mark_port_ok comerr apperr
mark_port_ok-clears s port now_ms v h =
    ground (arith, get_or-set_self s.port_comerr port 0 0, get_or-set_self s.port_apperr port 0 0)

-- With three counters of each kind, after a valid frame at a 32-bit time above 0, its port, one
-- of the three, is shown active exactly while at most 1000 ms have passed, for any time passed
-- below 2^32 ms, also where the clock wraps.
pub port_active-mark :
    (s : Rs485Stats) (port t elapsed : ℕ)
    → IsStats s
    → port < 3
    → 0 < t
    → t < 4294967296
    → elapsed < 4294967296
    → (port_active (mark_port_ok port t s) port ((t + elapsed) % 4294967296) ≡ true)
      ↔ (elapsed ≤ 1000)
unfolding mark_port_ok port_active
port_active-mark s port t elapsed v h pos small short =
    ground (arith, get_or-set_self s.port_last_ok_ms port (max t 1) 0)

-- An error, an exception or a valid frame on one port leaves the errors and the activity of
-- another as they were.
pub other_port_untouched :
    (s : Rs485Stats) (port other code now_ms : ℕ)
    → port ≢ other
    → (view (inc_port_comerr port s) other ≡ view s other)
      × (view (set_port_apperr port code s) other ≡ view s other)
      × (view (mark_port_ok port now_ms s) other ≡ view s other)
unfolding inc_port_comerr set_port_apperr mark_port_ok comerr apperr
other_port_untouched s port other code now_ms h = ground (
  arith,
  get_or-set_ne s.port_comerr port other 4 0 h,
  get_or-set_ne s.port_comerr port other 0 0 h,
  get_or-set_ne s.port_apperr port other code 0 h,
  get_or-set_ne s.port_apperr port other 0 0 h,
  get_or-set_ne s.port_last_ok_ms port other (max now_ms 1) 0 h,
)
