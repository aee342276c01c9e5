-- ===== src/Broker/Fetch/Next.antt =====
-- pkg/broker/coordinator.go, fetchAvailable: which offset is the next to hand out, and how far the loop over
-- the leases goes.
use tumbleweed.Base.{
  ℕ, ◌+◌, ◌%◌, ◌^◌, ◌≤◌, ◌<◌, ◌≡◌, inl, inr, none, some, [], ◌∷◌, false, Bool-cases, leb, ltb, ◌==◌,
  if◌then◌else◌, arith,
}
use tumbleweed.Broker.Leases.{Lease, Leases, lookup, Unique}
use tumbleweed.Broker.Group.{Group}
use tumbleweed.Broker.Group.Order.{InOrder}
use tumbleweed.Broker.Fetch.{next_expected}

-- A key of the tail is one of the whole map.
lookup-tail :
    (k j : ℕ) (x : Lease) (m : Leases) (l : Lease)
    → lookup j m ≡ none
    → lookup k m ≡ some l
    → (j == k) ≡ false
lookup-tail k j x m l absent at = elim (Bool-cases (j == k)) [
  | inr e ↦ e
  | inl e ↦ let z : j ≡ k = ground (arith, e) in absurd (cc)
]

-- The loop ends behind every lease, and no further than the offset where the leases end.
next_expected_bounds :
    (m : Leases) (n next : ℕ)
    → Unique m
    → ((k : ℕ) (l : Lease) → lookup k m ≡ some l → k < next)
    → next < 2 ^ 64
    → n ≤ next
    → (n ≤ next_expected n m)
      × (next_expected n m ≤ next)
      × ((k : ℕ) (l : Lease) → lookup k m ≡ some l → k < next_expected n m)
unfolding next_expected lookup
next_expected_bounds [] n next u below small h = (omega arith, h, λ k l e. absurd (cc))
next_expected_bounds ((j, x) ∷ m) n next (absent, u) below small h =
    let j_below : j < next = below j x (ground arith) in
    let n' = if leb n j then (j + 1) % 2 ^ 64 else n in
    let n'_is : (n ≤ n') × (j < n') × (n' ≤ next) = ground (arith) in
    let tail : (k : ℕ) (l : Lease) → lookup k m ≡ some l → k < next =
      λ k l at. below k l (rw (lookup-tail k j x m l absent at) at) in
    let (low, high, all) = next_expected_bounds m n' next u tail small n'_is.2 in
    (
      omega (arith, low, n'_is),
      high,
      λ k l at. elim (Bool-cases (j == k)) [
        | inl e ↦ ground (arith, e, n'_is, low)
        | inr e ↦ all k l (rw e at at)
      ],
    )

-- In a group that hands out its offsets without a gap, the loop finds where they end.
pub next_expected-InOrder :
    (g : Group) (next : ℕ)
    → InOrder g next
    → next < 2 ^ 64
    → next_expected g.committed_offset g.leases ≡ next
next_expected-InOrder g next h small =
    let below : (k : ℕ) (l : Lease) → lookup k g.leases ≡ some l → k < next = λ k l at.
      elim (Bool-cases (ltb k next)) [
        | inl e ↦ ground (arith, e)
        | inr e ↦ let f = h.free k (ground (arith, e)) in absurd (cc)
      ] in
    let (low, high, all) =
      next_expected_bounds g.leases g.committed_offset next h.unique below small h.behind in
    let r = next_expected g.committed_offset g.leases in
    elim (Bool-cases (ltb r next)) [
      | inl e ↦
          let (l, at) = h.leased r low (ground (arith, e)) in
          let self = all r l at in absurd (omega arith)
      | inr e ↦ ground (arith, e, high)
    ]
