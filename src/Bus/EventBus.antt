-- ===== src/Bus/EventBus.antt =====
-- The event bus of src/bus/event_bus.rs. Sample events are merged into four flag bits; a critical
-- event has a slot of its own. The state is that of the three statics; each call is one atomic step.
pub mod Laws
use idf.Base.{
  ℕ, zero, suc, ◌+◌, ◌/◌, ◌%◌, ◌≡◌, Bool, true, false, ◌&&◌, ◌||◌, Option, none, some, List, [],
  ◌∷◌, ◌==◌, ◌!=◌, if◌then◌else◌, bit_and, bit_or, bit_xor, wrapping_add32,
}

-- `[u8; 4]`
abbrev pub Ip4 : Type 0
Ip4 = ℕ × ℕ × ℕ × ℕ

pub data IoEvent : Type 0 where
  di_changed do_changed ai_sampled ao_updated reset_requested : IoEvent
  ip_assigned : Ip4 → Ip4 → Ip4 → ℕ → IoEvent
  ethernet_link : Bool → ℕ → IoEvent

pub data CriticalEvent : Type 0 where
  reset_requested : CriticalEvent
  ip_assigned : Ip4 → Ip4 → Ip4 → ℕ → CriticalEvent
  ethernet_link : Bool → ℕ → CriticalEvent

abbrev pub flag_di_changed : ℕ
flag_di_changed = 1

abbrev pub flag_do_changed : ℕ
flag_do_changed = 2

abbrev pub flag_ai_sampled : ℕ
flag_ai_sampled = 4

abbrev pub flag_ao_updated : ℕ
flag_ao_updated = 8

-- `COALESCED_FLAGS`, `CRITICAL_EVENT` and `CRITICAL_OVERWRITES`.
pub record Bus : Type 0 where
  pub flags : ℕ
  pub critical : Option CriticalEvent
  pub overwrites : ℕ

-- `slot.replace(critical).is_some()` and the count of overwrites.
pub put_critical : CriticalEvent → Bus → Bus
put_critical e bus = record bus {
  critical = some e;
  overwrites = elim bus.critical [
    | none ↦ bus.overwrites
    | some _ ↦ wrapping_add32 bus.overwrites 1
  ];
}

unfoldable pub send_event : IoEvent → Bus → Bus
unfolding put_critical
send_event IoEvent.di_changed bus = record bus { flags = bit_or bus.flags flag_di_changed }
send_event IoEvent.do_changed bus = record bus { flags = bit_or bus.flags flag_do_changed }
send_event IoEvent.ai_sampled bus = record bus { flags = bit_or bus.flags flag_ai_sampled }
send_event IoEvent.ao_updated bus = record bus { flags = bit_or bus.flags flag_ao_updated }
send_event IoEvent.reset_requested bus = put_critical CriticalEvent.reset_requested bus
send_event (IoEvent.ip_assigned ip mask gw event_ms) bus =
    put_critical (CriticalEvent.ip_assigned ip mask gw event_ms) bus
send_event (IoEvent.ethernet_link up event_ms) bus =
    put_critical (CriticalEvent.ethernet_link up event_ms) bus

-- The `match` of `recv_event` on a critical event.
pub of_critical : CriticalEvent → IoEvent
of_critical CriticalEvent.reset_requested = IoEvent.reset_requested
of_critical (CriticalEvent.ip_assigned ip mask gw event_ms) =
    IoEvent.ip_assigned ip mask gw event_ms
of_critical (CriticalEvent.ethernet_link up event_ms) = IoEvent.ethernet_link up event_ms

-- `flags & !flag` on a byte.
abbrev pub clear_flag : ℕ → ℕ → ℕ
clear_flag flags flag = bit_and flags (bit_xor 255 flag)

-- The loop of `recv_event` over the flags, in order; no other call intervenes, so the compare and
-- exchange succeeds.
pub recv_sample : Bus → Option IoEvent × Bus
recv_sample bus =
    if bit_and bus.flags flag_di_changed != 0
    then (some IoEvent.di_changed, record bus { flags = clear_flag bus.flags flag_di_changed })
    else if bit_and bus.flags flag_do_changed != 0
    then (some IoEvent.do_changed, record bus { flags = clear_flag bus.flags flag_do_changed })
    else if bit_and bus.flags flag_ai_sampled != 0
    then (some IoEvent.ai_sampled, record bus { flags = clear_flag bus.flags flag_ai_sampled })
    else if bit_and bus.flags flag_ao_updated != 0
    then (some IoEvent.ao_updated, record bus { flags = clear_flag bus.flags flag_ao_updated })
    else (none, bus)

unfoldable pub recv_event : Bus → Option IoEvent × Bus
unfolding of_critical recv_sample
recv_event bus = elim bus.critical [
  | some e ↦ (some (of_critical e), record bus { critical = none })
  | none ↦ recv_sample bus
]

abbrev is_some {ℓ} : {A : Type ℓ} → Option A → Bool
is_some none = false
is_some (some _) = true

unfoldable pub has_event : Bus → Bool
has_event bus = bus.flags != 0 || is_some bus.critical

-- `u8::count_ones`
count_ones : ℕ → ℕ → ℕ
count_ones zero x = 0
count_ones (suc n) x = x % 2 + count_ones n (x / 2)

unfoldable pub event_count : Bus → ℕ
unfolding count_ones
event_count bus = count_ones 8 bus.flags + (if is_some bus.critical then 1 else 0)
