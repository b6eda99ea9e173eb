-- ===== src/Bus/EventBus/Laws.antt =====
-- The event bus (src/bus/event_bus.rs) against the list of the events that wait.
use idf.Base.{
  ℕ, zero, suc, ◌+◌, ◌-◌, ◌*◌, ◌/◌, ◌%◌, ◌≤◌, ◌<◌, ◌≡◌, ◌≢◌, ◌↔◌, refl, subst, Bool, true, false,
  not, leb, ◌&&◌, ◌||◌, Option, none, some, List, [], ◌∷◌, ◌==◌, if◌then◌else◌, bit_and, bit_or,
  all_below, all_below_sound, ==→eq, arith, length, and-true,
}
use native.Mathlib.Decide.{dec_lt}
use idf.Bus.EventBus.{
  IoEvent, CriticalEvent, Bus, send_event, recv_event, recv_sample, of_critical, has_event,
  event_count, clear_flag, put_critical,
}

-- Only the four declared bits are ever set.
pub record IsBus (bus : Bus) : Type 0 where
  pub four_flags : bus.flags < 16

-- The operations on a flag `m` of four bits, as arithmetic.
flag_row : ℕ → ℕ → Bool
flag_row m f =
    (bit_and f m == f / m % 2 * m)
    && (clear_flag f m == f - f / m % 2 * m)
    && (bit_or f m == f + (1 - f / m % 2) * m)

flag_table :
    (all_below 16 (flag_row 1) ≡ true)
    × (all_below 16 (flag_row 2) ≡ true)
    × (all_below 16 (flag_row 4) ≡ true)
    × (all_below 16 (flag_row 8) ≡ true)
unfolding all_below flag_row
flag_table = (refl, refl, refl, refl)

abbrev FlagFacts : ℕ → ℕ → Type 0
FlagFacts m f =
    (bit_and f m ≡ f / m % 2 * m)
    × (clear_flag f m ≡ f - f / m % 2 * m)
    × (bit_or f m ≡ f + (1 - f / m % 2) * m)

flag_facts : (m f : ℕ) → all_below 16 (flag_row m) ≡ true → f < 16 → FlagFacts m f
unfolding flag_row
flag_facts m f table h =
    let (both, third) = and-true _ _ (all_below_sound 16 (flag_row m) f table h) in
    let (first, second) = and-true _ _ both in (==→eq _ _ first, ==→eq _ _ second, ==→eq _ _ third)

all_flags : (f : ℕ) → f < 16 → FlagFacts 1 f × FlagFacts 2 f × FlagFacts 4 f × FlagFacts 8 f
all_flags f h = (
  flag_facts 1 f flag_table.0 h,
  flag_facts 2 f flag_table.1 h,
  flag_facts 4 f flag_table.2 h,
  flag_facts 8 f flag_table.3 h,
)

-- The events that are waiting, in the order in which they will be received.
abbrev when : ℕ → IoEvent → List IoEvent → List IoEvent
when bit e rest = if bit == 1 then e ∷ rest else rest

abbrev samples : ℕ → List IoEvent
samples f = when (f % 2) IoEvent.di_changed (
    when (f / 2 % 2) IoEvent.do_changed
      (when (f / 4 % 2) IoEvent.ai_sampled (when (f / 8 % 2) IoEvent.ao_updated [])))

abbrev critical_part : Option CriticalEvent → List IoEvent → List IoEvent
critical_part none rest = rest
critical_part (some e) rest = of_critical e ∷ rest

unfoldable pub pending : Bus → List IoEvent
pending bus = critical_part bus.critical (samples bus.flags)

-- Every call keeps the flags to the four bits.
pub send_event-IsBus : (e : IoEvent) (bus : Bus) → IsBus bus → IsBus (send_event e bus)
unfolding send_event
send_event-IsBus e bus v = ground (arith, all_flags bus.flags v.four_flags)

abbrev pub head_of : List IoEvent → Option IoEvent
head_of [] = none
head_of (e ∷ es) = some e

abbrev pub tail_of : List IoEvent → List IoEvent
tail_of [] = []
tail_of (e ∷ es) = es

-- What holds of every number below a bound, as a product.
EachBelow : (ℕ → Type 0) → ℕ → Type 0
EachBelow P zero = Unit {0}
EachBelow P (suc n) = P n × EachBelow P n

EachBelow_sound : (P : ℕ → Type 0) (n f : ℕ) → EachBelow P n → f < n → P f
unfolding EachBelow
EachBelow_sound P zero f all h = ground arith
EachBelow_sound P (suc n) f all h = elim (dec_lt f n) [
  | yes p ↦ EachBelow_sound P n f all.1 p
  | no p ↦ subst P (last p) all.0
]
  where
    last : ¬ (f < n) → n ≡ f
    last p = omega arith

-- What `recv_sample` does when the flags are `f`.
abbrev Sampled : Option CriticalEvent → ℕ → ℕ → Type 0
Sampled c o f =
    let r = recv_sample (record { flags = f; critical = c; overwrites = o }) in
    (r.1.flags < 16)
    × (r.0 ≡ head_of (samples f))
    × (samples r.1.flags ≡ tail_of (samples f))
    × (r.1.critical ≡ c)

sampled : (c : Option CriticalEvent) (o : ℕ) → EachBelow (Sampled c o) 16
unfolding EachBelow recv_sample
sampled c o = (
  (omega arith, refl, refl, refl),
  (
    (omega arith, refl, refl, refl),
    (
      (omega arith, refl, refl, refl),
      (
        (omega arith, refl, refl, refl),
        (
          (omega arith, refl, refl, refl),
          (
            (omega arith, refl, refl, refl),
            (
              (omega arith, refl, refl, refl),
              (
                (omega arith, refl, refl, refl),
                (
                  (omega arith, refl, refl, refl),
                  (
                    (omega arith, refl, refl, refl),
                    (
                      (omega arith, refl, refl, refl),
                      (
                        (omega arith, refl, refl, refl),
                        (
                          (omega arith, refl, refl, refl),
                          (
                            (omega arith, refl, refl, refl),
                            (
                              (omega arith, refl, refl, refl),
                              ((omega arith, refl, refl, refl), tt),
                            ),
                          ),
                        ),
                      ),
                    ),
                  ),
                ),
              ),
            ),
          ),
        ),
      ),
    ),
  ),
)

recv_sample_lem : (bus : Bus) → IsBus bus → Sampled bus.critical bus.overwrites bus.flags
recv_sample_lem bus v =
    EachBelow_sound (Sampled bus.critical bus.overwrites) 16 bus.flags
      (sampled bus.critical bus.overwrites) v.four_flags

-- With no flag set but the four declared ones, recv_event returns the first of the waiting
-- events (a critical event, then the samples in their fixed order) or none if none waits, leaves
-- exactly the others waiting, and keeps the flags in range.
pub recv_event_lem :
    (bus : Bus)
    → IsBus bus
    → IsBus (recv_event bus).1
      × ((recv_event bus).0 ≡ head_of (pending bus))
      × (pending (recv_event bus).1 ≡ tail_of (pending bus))
unfolding recv_event pending
recv_event_lem bus v = ground (arith, recv_sample_lem bus v, v.four_flags)

-- With no flag set but the four declared ones, event_count is the number of waiting events, and
-- at most five wait.
pub event_count-pending :
    (bus : Bus) → IsBus bus → (event_count bus ≡ length (pending bus)) × (length (pending bus) ≤ 5)
unfolding event_count pending
event_count-pending bus v = ground arith

-- With no flag set but the four declared ones, has_event is true exactly when some event waits.
pub has_event-pending : (bus : Bus) → IsBus bus → (has_event bus ≡ true) ↔ (pending bus ≢ [])
unfolding has_event pending
has_event-pending bus v = ground arith

-- The seven kinds of event; those from 4 on are critical.
abbrev pub kind : IoEvent → ℕ
kind IoEvent.di_changed = 0
kind IoEvent.do_changed = 1
kind IoEvent.ai_sampled = 2
kind IoEvent.ao_updated = 3
kind IoEvent.reset_requested = 4
kind (IoEvent.ip_assigned ip mask gw event_ms) = 5
kind (IoEvent.ethernet_link up event_ms) = 6

-- Whether an event of kind `k` waits.
abbrev pub waits : ℕ → List IoEvent → Bool
waits k [] = false
waits k (e ∷ es) = kind e == k || waits k es

abbrev agree : Bool → Bool → Bool
agree true b = b
agree false b = not b

agree_sound : (a b : Bool) → agree a b ≡ true → a ≡ b
agree_sound a b h = ground arith

-- What is to wait of kind `k` once `e` is sent.
abbrev expected : IoEvent → ℕ → List IoEvent → Bool
expected e k before = kind e == k || (waits k before && not (leb 4 (kind e) && leb 4 k))

abbrev send_row : IoEvent → Option CriticalEvent → ℕ → ℕ → ℕ → Bool
send_row e c o f k =
    let bus : Bus = record { flags = f; critical = c; overwrites = o } in
    agree (waits k (pending (send_event e bus))) (expected e k (pending bus))

send_table :
    (e : IoEvent) (c : Option CriticalEvent) (o : ℕ)
    → all_below 16 (λ f. all_below 7 (send_row e c o f)) ≡ true
unfolding all_below pending send_event put_critical of_critical
send_table e c o = ground arith

-- With no flag set but the four declared ones: after an event is sent, an event of its kind
-- waits; of the other kinds the same ones wait as before, save that a critical event takes the
-- place of the critical event that waited.
pub send_event-pending :
    (e : IoEvent) (bus : Bus) (k : ℕ)
    → IsBus bus
    → k < 7
    → waits k (pending (send_event e bus))
      ≡ (kind e == k || (waits k (pending bus) && not (leb 4 (kind e) && leb 4 k)))
send_event-pending e bus k v h = agree_sound _ _ (
    all_below_sound 7 (send_row e bus.critical bus.overwrites bus.flags) k
      (all_below_sound 16 (λ f. all_below 7 (send_row e bus.critical bus.overwrites f)) bus.flags
        (send_table e bus.critical bus.overwrites) v.four_flags)
      h)
