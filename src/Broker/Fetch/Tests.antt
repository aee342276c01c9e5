-- ===== src/Broker/Fetch/Tests.antt =====
-- The theorems on fetchAvailable at a log with two records.
use tumbleweed.Base.{
  ℕ, zero, suc, ◌+◌, ◌≤◌, ◌≡◌, ◌⊎◌, refl, none, List, [], ◌∷◌, true, false, Result, ok, err, io,
  arith,
}
use tumbleweed.Protocol.FetchResponse.{Message}
use tumbleweed.Wal.Samples.{sum32, sum32_fits, first, second}
use tumbleweed.Wal.{read}
use tumbleweed.Broker.Samples.{a_log, a_log-Logs}
use tumbleweed.Broker.Leases.{lookup}
use tumbleweed.Broker.Group.{Group}
use tumbleweed.Broker.Group.Order.{InOrder}
use tumbleweed.Broker.Fetch.{FetchCall, is_full, fetch_available}
use tumbleweed.Broker.Fetch.Delivered.{Delivered}
use tumbleweed.Broker.Fetch.OnLog.{fetch_available-OnLog}

-- the first record is under a lease that is over
abbrev a_group : Group
a_group = record {
  committed_offset = 0;
  leases =
      (
        0,
        record { offset = 0; consumer_id = 99 ∷ []; expiry = 10; redeliveries = 1; acked = false },
      )
      ∷ [];
  saved = none;
}

a_group-InOrder : InOrder a_group 1
unfolding lookup
a_group-InOrder = record {
  behind = omega arith;
  unique = (refl, tt);
  leased = elim [ zero ↦ λ low high. (_, refl) | suc o ↦ λ low high. absurd (omega arith) ];
  free = elim [ zero ↦ λ high. absurd (omega arith) | suc o ↦ λ high. ground arith ];
  done = λ o low. absurd (omega arith);
  counted = omega arith;
}

abbrev a_call : FetchCall
a_call = record {
  consumer_id = 100 ∷ [];
  max_count = 5;
  ack_timeout = 30;
  now = 50;
  max_redeliveries = 5;
  save_ok = true;
}

-- a broker that counts the messages which go to the dead letter topic, and fails to write them
abbrev counting : ℕ → List ℕ → List ℕ → ℕ × Result ℕ
counting n key value = (n + 1, err io)

fetch_available-OnLog_example :
    (s : ℕ × Group × List Message) × (next' : ℕ) × (fetch_available
        (read sum32 a_log)
        counting
        a_call
        2
        0
        a_group
      ≡ ok s)
    × Delivered (read sum32 a_log) a_call a_group next' s.1 s.2
    × (1 ≤ next')
    × (next' ≤ 2)
    × ((is_full a_call s.2 ≡ true) ⊎ (next' ≡ 2))
fetch_available-OnLog_example =
    fetch_available-OnLog sum32 sum32_fits a_log (first ∷ second ∷ []) a_log-Logs counting a_call
      a_group 1 0 (λ b key value. (none, refl)) a_group-InOrder (omega arith) (omega arith)
      (omega arith)
