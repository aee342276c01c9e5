-- ===== src/Broker/Sound/Answers.antt =====
-- pkg/broker/coordinator.go: Ack and Nack keep the broker sound.
use tumbleweed.Base.{
  ℕ, ◌^◌, ◌<◌, ◌≡◌, refl, ◌>>=◌, Bool, inl, inr, Option, none, some, List, Option-cases, Result, ok,
  err, attempt, arith,
}
use tumbleweed.Wal.Encoding.{Record}
use tumbleweed.Wal.{read}
use tumbleweed.Broker.Names.{Name, find, put}
use tumbleweed.Broker.Group.{Group, PendingFetch, ack_group, nack_group}
use tumbleweed.Broker.Group.Order.{ack_group-InOrder, nack_group-InOrder}
use tumbleweed.Broker.History.Safety.{ack_group-IsSavedBehind, nack_group-IsSavedBehind}
use tumbleweed.Broker.Topics.{Topic, BrokerState, World, new_group, found_group}
use tumbleweed.Broker.Requests.{
  pending_of, send_record, send_to, nack_sent, nacked, nack_on, nack, ack_on, ack,
}
use tumbleweed.Broker.Sound.{
  SoundGroup, SoundTopic, SoundBroker, group-SoundTopic, topic-SoundBroker, new_group-SoundGroup,
}

-- The group that getOrCreateGroup returns, and its topic.
pub found_group-Sound :
    (crc : List ℕ → ℕ) (n : ℕ) (w : World) (t : Topic) (name : Name)
    → SoundTopic crc n t
    → let (t', g) = found_group w t name (find name t.groups) in
      SoundTopic crc n t' × SoundGroup t'.wal.next_offset g × (t'.wal ≡ t.wal)
found_group-Sound crc n w t name h = elim (Option-cases (find name t.groups)) [
  | inl absent ↦
      let g = new_group-SoundGroup w t.wal.next_offset in
      rw absent (group-SoundTopic crc n t name (new_group w) t.pending_fetches h g, g, refl)
  | inr (g, there) ↦ rw there (h, h.groups name g there, refl)
]

ack_group-SoundGroup :
    (save_ok : Bool) (g : Group) (offset log_end : ℕ)
    → log_end < 2 ^ 60
    → SoundGroup log_end g
    → SoundGroup log_end (ack_group save_ok g offset).0
ack_group-SoundGroup save_ok g offset log_end small h = record {
  until = h.until;
  order = ack_group-InOrder save_ok g offset h.until h.order (omega (arith, h.within, small));
  within = h.within;
  saved =
      ack_group-IsSavedBehind save_ok g offset (omega (arith, h.order.counted, h.within, small))
        h.saved;
}

nack_group-SoundGroup :
    (now : ℕ) (g : Group) (fetches : List PendingFetch) (offset log_end : ℕ)
    → SoundGroup log_end g
    → SoundGroup log_end (nack_group now g fetches offset).0
nack_group-SoundGroup now g fetches offset log_end h = record {
  until = h.until;
  order = nack_group-InOrder now g fetches offset h.until h.order;
  within = h.within;
  saved = nack_group-IsSavedBehind now g fetches offset h.saved;
}

module _ (crc : List ℕ → ℕ) (n : ℕ) (w : World) (b : BrokerState) (topic group : Name) (offset : ℕ)
    (h : SoundBroker crc n b) where
  ack_on-Sound :
      (p : Topic × Group)
      → SoundTopic crc n p.0
      → SoundGroup p.0.wal.next_offset p.1
      → SoundBroker crc n (ack_on w b topic group offset p).0
  ack_on-Sound (t, g) s k = topic-SoundBroker crc n b topic _ h (
      group-SoundTopic crc n t group (ack_group w.save_ok g offset).0 t.pending_fetches s (
        ack_group-SoundGroup w.save_ok g offset t.wal.next_offset (omega (arith, s.space.offsets))
          k))

  pub ack-SoundBroker : SoundBroker crc n (ack w b topic group offset).0
  unfolding ack
  ack-SoundBroker = elim (Option-cases (find topic b.topics)) [
    | inl absent ↦ rw (absent, ack) h
    | inr (t, there) ↦
        let (s, k, same) = found_group-Sound crc n w t group (h topic t there) in
        rw (there, ack) (ack_on-Sound (found_group w t group (find group t.groups)) s k)
  ]

  send_to-Sound :
      (b' : BrokerState) (t : Topic) (served : Option PendingFetch)
      → SoundBroker crc n b'
      → SoundBroker crc n (nack_sent b' (send_to w b' t offset served)).0
  send_to-Sound b' t none k = k
  send_to-Sound b' t (some pf) k = sent (attempt (read w.crc t.wal offset))
    where
      sent :
          (r : Result (Option Record))
          → SoundBroker crc n
              (nack_sent b'
                (r >>= λ found. ok (record b' { sent = send_record b'.sent pf found }))).0
      sent (ok found) = k
      sent (err e) = k

  nacked-Sound :
      (t : Topic) (p : Group × List PendingFetch × Result (Option PendingFetch))
      → SoundTopic crc n t
      → SoundGroup t.wal.next_offset p.0
      → SoundBroker crc n (nacked w b topic group offset t p).0
  nacked-Sound t (g, rest, err e) s k =
      topic-SoundBroker crc n b topic _ h (group-SoundTopic crc n t group g t.pending_fetches s k)
  nacked-Sound t (g, rest, ok none) s k =
      topic-SoundBroker crc n b topic _ h (group-SoundTopic crc n t group g t.pending_fetches s k)
  nacked-Sound t (g, rest, ok (some pf)) s k =
      let pending = put group rest t.pending_fetches in
      let t' = record t { groups = put group g t.groups; pending_fetches = pending } in
      send_to-Sound (record b { topics = put topic t' b.topics }) t' (some pf)
        (topic-SoundBroker crc n b topic t' h (group-SoundTopic crc n t group g pending s k))

  nack_on-Sound :
      (p : Topic × Group)
      → SoundTopic crc n p.0
      → SoundGroup p.0.wal.next_offset p.1
      → SoundBroker crc n (nack_on w b topic group offset p).0
  nack_on-Sound (t, g) s k =
      nacked-Sound t (nack_group w.now g (pending_of t group) offset) s
        (nack_group-SoundGroup w.now g (pending_of t group) offset t.wal.next_offset k)

  pub nack-SoundBroker : SoundBroker crc n (nack w b topic group offset).0
  unfolding nack
  nack-SoundBroker = elim (Option-cases (find topic b.topics)) [
    | inl absent ↦ rw (absent, nack) h
    | inr (t, there) ↦
        let (s, k, same) = found_group-Sound crc n w t group (h topic t there) in
        rw (there, nack) (nack_on-Sound (found_group w t group (find group t.groups)) s k)
  ]
