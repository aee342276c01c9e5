-- ===== src/Broker/Tests.antt =====
-- The theorems on consumer groups at concrete groups.
use mathlib.Core.List.{Perm}
use tumbleweed.Base.{ℕ, [], ◌∷◌, Bool, true, false, some, arith}
use tumbleweed.Broker.Leases.{Lease}
use tumbleweed.Broker.Group.{Group, PendingFetch, slide_window, ack_group, nack_group}
use tumbleweed.Broker.Group.Window.{Slid, slide_window-Slid}
use tumbleweed.Broker.Group.Settled.{Acks, ack_group-Acks, Nacks, nack_group-Nacks}
use tumbleweed.Broker.Sort.{IsSorted, sort_offsets, sort_offsets-sorts}

abbrev lease_of : ℕ → Bool → Lease
lease_of o acked = record {
  offset = o;
  consumer_id = 99 ∷ [];
  expiry = 1000;
  redeliveries = 0;
  acked = acked;
}

-- offsets 3 to 6 are leased, of which 4 and 5 are acknowledged
abbrev a_group : Group
a_group = record {
  committed_offset = 3;
  leases =
      (6, lease_of 6 false)
      ∷ (4, lease_of 4 true)
      ∷ (3, lease_of 3 false)
      ∷ (5, lease_of 5 true)
      ∷ [];
  saved = some 3;
}

abbrev a_fetch : PendingFetch
a_fetch = record {
  consumer_id = 100 ∷ [];
  max_messages = 1;
  ack_timeout = 30;
  chan = 1;
  expiry = 0;
}

slide_window-Slid_example : Slid a_group (slide_window true a_group)
slide_window-Slid_example = slide_window-Slid true a_group (omega arith)

ack_group-Acks_example : Acks a_group 3 (ack_group true a_group 3)
ack_group-Acks_example = ack_group-Acks true a_group 3 (omega arith)

nack_group-Nacks_example :
    Nacks 500 a_group (a_fetch ∷ []) 6 (nack_group 500 a_group (a_fetch ∷ []) 6)
nack_group-Nacks_example = nack_group-Nacks 500 a_group (a_fetch ∷ []) 6

sort_offsets-sorts_example :
    IsSorted (sort_offsets (6 ∷ 3 ∷ 5 ∷ [])) × Perm (sort_offsets (6 ∷ 3 ∷ 5 ∷ [])) (6 ∷ 3 ∷ 5 ∷ [])
sort_offsets-sorts_example = sort_offsets-sorts (6 ∷ 3 ∷ 5 ∷ [])
