-- ===== src/BleAt/Tests.antt =====
-- The theorems of the advertising lease at concrete states.
use idf.Base.{◌≡◌, ◌≢◌, true, false, none, some, arith}
use idf.BleAt.AdvertisingHealth.{AdvertisingHealth, Operation, Recovery, new, begin, recovery}
use idf.BleAt.AdvertisingHealth.Laws.{Step, Reachable, IsHealth, Reachable-IsHealth, recovery_acts}

abbrev starting : AdvertisingHealth
starting = record {
  active = false;
  pending = some Operation.start;
  last_attempt_ms = 100;
  last_confirmed_ms = 0;
  retry_backoff = false;
}

Reachable-IsHealth_example : IsHealth (begin Operation.name 5 new).1
Reachable-IsHealth_example =
    Reachable-IsHealth (Reachable.next Reachable.initial (Step.began Operation.name 5))

recovery_acts_example :
    ((recovery 70000 true false false starting).0 ≢ Recovery.nothing)
    × ((recovery 70000 true false false starting).1.pending ≡ none)
recovery_acts_example = recovery_acts 70000 starting (omega arith) (omega arith)
