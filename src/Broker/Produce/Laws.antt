-- ===== src/Broker/Produce/Laws.antt =====
-- pkg/broker/coordinator.go, Produce on a topic whose log is in order.

use tumbleweed.Base.{
  ℕ, ◌+◌, ◌^◌, ◌<◌, ◌≡◌, refl, sym, ap, subst, ◌∙◌, ◌⊎◌, inl, inr, some, List, [], ◌∷◌, ◌++◌,
  length, false, Result, ok, err, io, blocked, attempt, arith,
}
use tumbleweed.Protocol.FetchResponse.{Message}
use tumbleweed.Wal.Encoding.Layout.{Entry}
use tumbleweed.Wal.SegmentFile.Read.{record_of}
use tumbleweed.Wal.{Wal, append, read}
use tumbleweed.Wal.Log.{Logs}
use tumbleweed.Wal.Log.Find.{read-Logs}
use tumbleweed.Wal.Log.Append.{Appended, Room, append-Appended}
use tumbleweed.Broker.Names.{Name, find, put, same_name, find-put_self, find-put_other}
use tumbleweed.Broker.Group.{PendingFetch}
use tumbleweed.Broker.Fetch.{message_of}
use tumbleweed.Broker.Topics.{Topic, BrokerState, World, create_topic, get_or_create_group}
use tumbleweed.Broker.Produce.{Sending, dispatch_loop, dispatch_message, dispatch_appended, produce}

-- Some fetch waits, and none does.
abbrev pub IsAwaited : List (Name × List PendingFetch) → Type 0
IsAwaited [] = ⊥
IsAwaited ((name, []) ∷ more) = IsAwaited more
IsAwaited ((name, pf ∷ rest) ∷ more) = Unit {0}

abbrev pub IsQuiet : List (Name × List PendingFetch) → Type 0
IsQuiet [] = Unit {0}
IsQuiet ((name, []) ∷ more) = IsQuiet more
IsQuiet ((name, pf ∷ rest) ∷ more) = ⊥

dispatch_loop-IsAwaited :
    (w : World) (msg : Message) (pending : List (Name × List PendingFetch)) (s : Sending)
    → IsAwaited pending
    → dispatch_loop w msg pending s ≡ err blocked
unfolding dispatch_loop get_or_create_group
dispatch_loop-IsAwaited w msg [] s h = absurd h
dispatch_loop-IsAwaited w msg ((name, []) ∷ more) s h = dispatch_loop-IsAwaited w msg more s h
dispatch_loop-IsAwaited w msg ((name, pf ∷ rest) ∷ more) (t, sent) h = refl

dispatch_loop-IsQuiet :
    (w : World) (msg : Message) (pending : List (Name × List PendingFetch)) (s : Sending)
    → IsQuiet pending
    → dispatch_loop w msg pending s ≡ ok s
unfolding dispatch_loop
dispatch_loop-IsQuiet w msg [] s h = refl
dispatch_loop-IsQuiet w msg ((name, []) ∷ more) s h = dispatch_loop-IsQuiet w msg more s h
dispatch_loop-IsQuiet w msg ((name, pf ∷ rest) ∷ more) s h = absurd h

create_topic-found :
    (w : World) (b : BrokerState) (name : Name) (t : Topic)
    → find name b.topics ≡ some t
    → create_topic w b name ≡ (b, ok t)
unfolding create_topic
create_topic-found w b name t e = rw (e, create_topic) refl

-- A topic that is there and whose log is in order and open, with a positive limit of a segment and
-- room for the message: its fields fit, offsets stay below 2 ^ 60 and a file below 2 ^ 63 bytes.
pub record Writable (w : World) (b : BrokerState) (name : Name) (t : Topic) (es : List Entry)
    (e : Entry) : Type 0 where
  pub there : find name b.topics ≡ some t
  pub logs : Logs w.crc t.wal 0 es
  pub opened : t.wal.closed ≡ false
  pub segment_size : 0 < t.wal.max_segment_bytes
  pub room : Room w.crc t.wal 0 es e
  pub crc_fits : (bytes : List ℕ) → w.crc bytes < 2 ^ 32

abbrev pub entry_of : World → List ℕ → List ℕ → Entry
entry_of w key value = record { timestamp = w.timestamp; key = key; value = value }

-- Where the log's Append succeeds, the new record is read back.
appended_read :
    (crc : List ℕ → ℕ) (wal : Wal) (es : List Entry) (e : Entry) (offset : ℕ)
    → ((bytes : List ℕ) → crc bytes < 2 ^ 32)
    → Logs crc wal 0 (es ++ (e ∷ []))
    → 0 + length es ≡ offset
    → read crc wal offset ≡ ok (record_of crc offset e)
appended_read crc wal es e offset fits h at =
    subst (λ n. read crc wal n ≡ ok (record_of crc n e)) at (read-Logs crc fits wal 0 es [] e h)

module _ (w : World) (b : BrokerState) (name : Name) (t : Topic) (es : List Entry) (e : Entry)
    (h : Writable w b name t es e) where
  -- What the dispatch reads behind a successful Append.
  attempt-read :
      (wal : Wal) (offset : ℕ)
      → ok offset ≡ ok t.wal.next_offset
      → Logs w.crc wal 0 (es ++ (e ∷ []))
      → attempt (read w.crc wal offset) ≡ ok (some (record_of w.crc offset e))
  attempt-read wal offset r logs =
      let at : offset ≡ t.wal.next_offset = cc in
      ap attempt
        (appended_read w.crc wal es e offset h.crc_fits logs (omega (arith, at, h.logs.next_is)))

  blocked_after :
      (p : Wal × Result ℕ)
      → IsAwaited t.pending_fetches
      → Appended w.crc 0 t.wal.next_offset es e p
      → ((dispatch_appended w b name t p).1 ≡ err io)
        ⊎ ((dispatch_appended w b name t p).1 ≡ err blocked)
  unfolding dispatch_message
  blocked_after (wal, ok offset) awaited (inl (r, logs)) =
      let found = attempt-read wal offset r logs in
      let waits =
        dispatch_loop-IsAwaited w (message_of (record_of w.crc offset e)) t.pending_fetches
          (record t { wal = wal }, b.sent) awaited in
      inr (rw (found, waits) refl)
  blocked_after (wal, ok offset) awaited (inr (r, _)) = absurd (cc)
  blocked_after (wal, err x) awaited (inl (r, _)) = absurd (cc)
  blocked_after (wal, err x) awaited (inr (r, _)) = inl r

  -- What a Produce comes to: the offset, and the topic's log with the message; or an error, and a log
  -- with the old messages, or with the new one too. Nothing else changes.
  abbrev pub Produces : BrokerState × Result ℕ → Type 0
  Produces (b', r) =
      (t' : Topic) × (find name b'.topics ≡ some t')
      × (t'.groups ≡ t.groups)
      × (t'.pending_fetches ≡ t.pending_fetches)
      × ((k : Name) → same_name name k ≡ false → find k b'.topics ≡ find k b.topics)
      × (((r ≡ ok t.wal.next_offset) × Logs w.crc t'.wal 0 (es ++ (e ∷ [])))
          ⊎ ((r ≡ err io) × (Logs w.crc t'.wal 0 es ⊎ Logs w.crc t'.wal 0 (es ++ (e ∷ [])))))

  twice_other :
      (x y : Topic) (k : Name)
      → same_name name k ≡ false
      → find k (put name y (put name x b.topics)) ≡ find k b.topics
  twice_other x y k other =
      find-put_other name k y (put name x b.topics) other ∙ find-put_other name k x b.topics other

  produced_after :
      (p : Wal × Result ℕ)
      → IsQuiet t.pending_fetches
      → Appended w.crc 0 t.wal.next_offset es e p
      → Produces (dispatch_appended w b name t p)
  unfolding dispatch_message
  produced_after (wal, ok offset) quiet (inl (r, logs)) =
      let t' = record t { wal = wal } in
      let found = attempt-read wal offset r logs in
      let passes =
        dispatch_loop-IsQuiet w (message_of (record_of w.crc offset e)) t.pending_fetches
          (t', b.sent) quiet in
      let topics = put name t' (put name t' b.topics) in
      let same : dispatch_appended w b name t (wal, ok offset)
          ≡ (record b { topics = topics }, ok offset) =
        rw (found, passes) refl in
      subst Produces (sym same) (
        t',
        find-put_self name t' (put name t' b.topics),
        refl,
        refl,
        twice_other t' t',
        inl (r, logs),
      )
  produced_after (wal, ok offset) quiet (inr (r, _)) = absurd (cc)
  produced_after (wal, err x) quiet (inl (r, _)) = absurd (cc)
  produced_after (wal, err x) quiet (inr (r, logs)) =
      let t' = record t { wal = wal } in
      (
        t',
        find-put_self name t' b.topics,
        refl,
        refl,
        λ k other. find-put_other name k t' b.topics other,
        inr (r, logs),
      )

module _ (w : World) (b : BrokerState) (name : Name) (key value : List ℕ) (t : Topic)
    (es : List Entry) (h : Writable w b name t es (entry_of w key value)) where
  abbrev message : Entry
  message = entry_of w key value

  appended :
      Appended w.crc 0 t.wal.next_offset es message
        (append w.crc w.disk w.timestamp t.wal key value)
  appended = append-Appended w.crc w.disk t.wal 0 es message h.logs h.opened h.segment_size h.room

  -- On a topic that is there, whose log is in order and open, with a positive limit of a segment and
  -- room for the message, with a checksum of 32 bits, and where a fetch waits: Produce never returns an
  -- offset. It fails to write, or it waits for ever, for the mutex of the topic that it holds itself.
  pub produce-IsAwaited :
      IsAwaited t.pending_fetches
      → ((produce w b name key value).1 ≡ err io) ⊎ ((produce w b name key value).1 ≡ err blocked)
  unfolding produce
  produce-IsAwaited awaited =
      rw (create_topic-found w b name t h.there)
        (blocked_after w b name t es message h _ awaited appended)

  -- On a topic that is there, whose log is in order and open, with a positive limit of a segment and
  -- room for the message, with a checksum of 32 bits, where no fetch waits, and whichever system calls
  -- fail: Produce returns the next offset and the topic's log holds the old messages and then the new
  -- one; or it returns an I/O error and the log holds the old messages, or those and the new one.
  -- Groups, waiting fetches and the other topics stay as they were.
  pub produce-Produces :
      IsQuiet t.pending_fetches → Produces w b name t es message h (produce w b name key value)
  unfolding produce
  produce-Produces quiet =
      rw (create_topic-found w b name t h.there)
        (produced_after w b name t es message h _ quiet appended)
