-- ===== src/Broker/Group.antt =====
-- pkg/broker/coordinator.go: the state of a ConsumerGroup, slideWindow, and Ack and Nack on a group.
-- Each runs under the group's mutex. `saved` is the offset in the group's state file, and `save_ok`
-- says whether persistState succeeds; its errors are ignored.
pub mod Window
pub mod Settled
pub mod Order
use tumbleweed.Base.{
  ℕ, zero, suc, ◌+◌, ◌%◌, ◌^◌, Option, none, some, List, [], ◌∷◌, ◌++◌, Bool, true, false, not,
  ◌&&◌, ◌||◌, length, ltb, leb, ◌==◌, if◌then◌else◌, Result, ok, err, lease_not_found, ◌>>=◌,
}
use tumbleweed.Broker.Leases.{Lease, Leases, lookup, insert, delete}

pub record Group : Type 0 where
  pub committed_offset : ℕ
  pub leases : Leases
  pub saved : Option ℕ

unfoldable pub persist_state : Bool → Group → Group
persist_state save_ok g = if save_ok then record g { saved = some g.committed_offset } else g

abbrev pub is_acked : Option Lease → Bool
is_acked none = false
is_acked (some l) = l.acked

-- The loop of slideWindow. A round that goes on deletes a lease, so as many rounds as there are
-- leases are enough.
unfoldable pub slide_loop : ℕ → Group → Group
slide_loop zero g = g
slide_loop (suc fuel) g =
    let next = record g {
      leases = delete g.committed_offset g.leases;
      committed_offset = (g.committed_offset + 1) % 2 ^ 64;
    } in
    elim (is_acked (lookup g.committed_offset g.leases)) [ true ↦ slide_loop fuel next | false ↦ g ]

unfoldable pub slide_window : Bool → Group → Group
slide_window save_ok g =
    let advanced = is_acked (lookup g.committed_offset g.leases) in
    let g' = slide_loop (length g.leases) g in if advanced then persist_state save_ok g' else g'

-- Ack, once the topic and the group are found
unfoldable pub ack_group : Bool → Group → ℕ → Group × Result (Unit {0})
ack_group save_ok g offset =
    if ltb offset g.committed_offset then (g, ok tt) else elim (lookup offset g.leases) [
      | none ↦ (g, err lease_not_found)
      | some lease ↦ (
        slide_window save_ok
            (record g { leases = insert offset (record lease { acked = true }) g.leases }),
        ok tt,
      )
    ]

-- A waiting fetch. Its channel is a number, which also stands for the pointer to the fetch; `expiry` is
-- read nowhere.
pub record PendingFetch : Type 0 where
  pub consumer_id : List ℕ
  pub max_messages : ℕ
  pub ack_timeout : ℕ
  pub chan : ℕ
  pub expiry : ℕ

-- What a Nack did with the waiting fetches: the fetch that is served with the offset, if there is one
abbrev pub nack_lease :
    ℕ → ℕ → Group → Lease → List PendingFetch → Group × List PendingFetch × Option PendingFetch
nack_lease now offset g lease [] =
    (record g { leases = insert offset (record lease { expiry = now }) g.leases }, [], none)
nack_lease now offset g lease (pf ∷ rest) = (
  record g {
    leases =
        insert offset
          (record lease {
            consumer_id = pf.consumer_id;
            expiry = now + pf.ack_timeout;
            redeliveries = lease.redeliveries + 1;
          })
          g.leases;
  },
  rest,
  some pf,
)

-- Nack, once the topic and the group are found: the group, the fetches that still wait, and the
-- fetch to which the record at the offset is sent, if the log can read it
unfoldable pub nack_group :
    ℕ → Group → List PendingFetch → ℕ → Group × List PendingFetch × Result (Option PendingFetch)
nack_group now g fetches offset = elim (lookup offset g.leases) [
  | none ↦ (g, fetches, err lease_not_found)
  | some lease ↦
      if lease.acked
      then (g, fetches, err lease_not_found)
      else let (g', rest, served) = nack_lease now offset g lease fetches in (g', rest, ok served)
]
