-- ===== src/Bus/Tests.antt =====
-- The theorems of the event bus at one state: two samples and a link event wait.
use idf.Base.{◌≡◌, refl, true, some, arith}
use idf.Bus.EventBus.{CriticalEvent, IoEvent, Bus, recv_event, send_event}
use idf.Bus.EventBus.Laws.{IsBus, pending, head_of, tail_of, recv_event_lem}

abbrev busy : Bus
busy = record { flags = 5; critical = some (CriticalEvent.ethernet_link true 40); overwrites = 0 }

busy-IsBus : IsBus busy
busy-IsBus = record { four_flags = omega arith }

recv_event_lem_example :
    IsBus (recv_event busy).1
    × ((recv_event busy).0 ≡ head_of (pending busy))
    × (pending (recv_event busy).1 ≡ tail_of (pending busy))
recv_event_lem_example = recv_event_lem busy busy-IsBus

-- A second critical event takes the place of the first and is counted.
overwritten : (send_event IoEvent.reset_requested busy).overwrites ≡ 1
unfolding send_event
overwritten = refl

-- The link event comes before the samples.
link_first : (recv_event busy).0 ≡ some (IoEvent.ethernet_link true 40)
unfolding recv_event
link_first = refl
