-- ===== src/Broker/Fetch/Delivered.antt =====
-- pkg/broker/coordinator.go, fetchAvailable: what the messages that it returns and the leases that it
-- makes have in common, and the loop over the expired leases.
use tumbleweed.Base.{
  ℕ, ◌+◌, ◌^◌, ◌≤◌, ◌<◌, ◌≡◌, sym, ap, ◌∙◌, ◌⊎◌, inl, inr, some, List, [], ◌∷◌, length, true, false,
  ◌||◌, Bool-cases, leb, ltb, ◌==◌, All, Result, ok, arith,
}
use tumbleweed.Protocol.FetchResponse.{Message}
use tumbleweed.Wal.Encoding.{Record}
use tumbleweed.Broker.Leases.{Lease, lookup, lookup-insert, length-insert}
use tumbleweed.Broker.Group.{Group, slide_window, is_acked}
use tumbleweed.Broker.Group.Window.{Slid, slide_window-Slid, IsSavedBehind}
use tumbleweed.Broker.Group.Settled.{settled, Slid-settled, insert-settled}
use tumbleweed.Broker.Group.Order.{InOrder}
use tumbleweed.Broker.Fetch.{FetchCall, is_expired, message_of, set_lease}
use tumbleweed.Broker.Fetch.Expired.{Apart}

-- A lease for this consumer, to the end of the timeout.
abbrev pub Held : FetchCall → Group → ℕ → Type 0
Held c g o =
    (l : Lease) × (lookup o g.leases ≡ some l)
    × (l.acked ≡ false)
    × (l.consumer_id ≡ c.consumer_id)
    × (l.expiry ≡ c.now + c.ack_timeout)

-- A lease that is expired, as often as a message may be delivered.
abbrev pub Exhausted : FetchCall → Group → ℕ → Type 0
Exhausted c g o =
    (l : Lease) × (lookup o g.leases ≡ some l)
    × (is_expired c.now l ≡ true)
    × (leb c.max_redeliveries l.redeliveries ≡ true)

abbrev pub offsets_of : List Message → List ℕ
offsets_of [] = []
offsets_of (m ∷ msgs) = m.offset ∷ offsets_of msgs

-- What a fetch has done to the group `start`: the messages are records of the log, each under a lease of
-- this consumer; and it settled the exhausted offsets at most.
pub record Delivered (read : ℕ → Result Record) (c : FetchCall) (start : Group) (next : ℕ)
    (g : Group) (msgs : List Message) : Type 0 where
  pub order : InOrder g next
  pub short : length msgs ≤ c.max_count
  pub held : All (Held c g) (offsets_of msgs)
  pub sent : All (λ m. (rec : Record) × (read m.offset ≡ ok rec) × (m ≡ message_of rec)) msgs
  pub kept : (o : ℕ) → settled start o ≡ true → settled g o ≡ true
  pub only : (o : ℕ) → settled g o ≡ true → (settled start o ≡ true) ⊎ Exhausted c start o
  pub saved : IsSavedBehind start → IsSavedBehind g

-- What waits for an acknowledgement at another offset stays.
abbrev pub Keeps : ℕ → Group → Group → Type 0
Keeps o g g' =
    (k : ℕ) (l : Lease)
    → Apart o k
    → lookup k g.leases ≡ some l
    → l.acked ≡ false
    → lookup k g'.leases ≡ some l

pub set_lease-Keeps : (g : Group) (o : ℕ) (x : Lease) → Keeps o g (set_lease g o x)
set_lease-Keeps g o x k l other at waits = lookup-insert o k x g.leases ∙ rw other at

Slid-keeps :
    (g g' : Group) (k : ℕ) (l : Lease)
    → Slid g g'
    → lookup k g.leases ≡ some l
    → l.acked ≡ false
    → lookup k g'.leases ≡ some l
Slid-keeps g g' k l s at waits = elim (Bool-cases (ltb k g.committed_offset)) [
  | inl e ↦ s.below k (ground (arith, e)) ∙ at
  | inr e ↦ elim (Bool-cases (ltb k g'.committed_offset)) [
    | inr f ↦ s.kept k (ground (arith, f)) ∙ at
    | inl f ↦
        let passed = (s.passed k (ground (arith, e)) (ground (arith, f))).0 in
        let acked : l.acked ≡ true = sym (ap is_acked at) ∙ passed in absurd (cc)
  ]
]

abbrev pub set_aside : FetchCall → Group → ℕ → Lease → Group
set_aside c g o l = slide_window c.save_ok (set_lease g o (record l { acked = true }))

pub set_aside-Keeps :
    (c : FetchCall) (g : Group) (o next : ℕ) (l : Lease)
    → InOrder g next
    → next < 2 ^ 64
    → lookup o g.leases ≡ some l
    → Keeps o g (set_aside c g o l)
set_aside-Keeps c g o next l h small at k x other there waits =
    let marked = set_lease g o (record l { acked = true }) in
    let s =
      slide_window-Slid c.save_ok marked
        (omega (arith, h.counted, length-insert o (record l { acked = true }) g.leases l at)) in
    Slid-keeps marked (set_aside c g o l) k x s
      (set_lease-Keeps g o (record l { acked = true }) k x other there waits) waits

pub set_aside-settled :
    (c : FetchCall) (g : Group) (o next : ℕ) (l : Lease)
    → InOrder g next
    → next < 2 ^ 64
    → lookup o g.leases ≡ some l
    → (k : ℕ) → settled (set_aside c g o l) k ≡ (o == k || settled g k)
set_aside-settled c g o next l h small at k =
    let marked = set_lease g o (record l { acked = true }) in
    let s =
      slide_window-Slid c.save_ok marked
        (omega (arith, h.counted, length-insert o (record l { acked = true }) g.leases l at)) in
    Slid-settled marked (set_aside c g o l) s k ∙ insert-settled g o l k

pub All-Held :
    (c : FetchCall) (g g' : Group) (o : ℕ) (os : List ℕ)
    → Keeps o g g'
    → All (λ k. Apart k o) os
    → All (Held c g) os
    → All (Held c g') os
All-Held c g g' o [] keeps a h = tt
All-Held c g g' o (k ∷ os) keeps (a, rest) ((l, at, waits, who, till), h) = (
  (l, keeps k l (ground (arith, a)) at waits, waits, who, till),
  All-Held c g g' o os keeps rest h,
)
