-- ===== src/Broker/Fetch/OnLog.antt =====
-- pkg/broker/coordinator.go, fetchAvailable on a topic whose log is in order.
use native.Mathlib.Nat.{zero-add}
use tumbleweed.Base.{
  ℕ, zero, suc, ◌+◌, ◌^◌, ◌≤◌, ◌<◌, ◌≡◌, refl, sym, ap, subst, ◌∙◌, ◌⊎◌, inl, inr, none, some, List,
  [], ◌∷◌, ◌++◌, length, true, Bool-cases, ltb, Result, ok, err, offset_not_found, attempt, arith,
}
use tumbleweed.Protocol.FetchResponse.{Message}
use tumbleweed.Wal.Encoding.{Record}
use tumbleweed.Wal.Encoding.Layout.{Entry, EntryFits}
use tumbleweed.Wal.Log.Entries.{All-middle, Logs-EntryFits}
use tumbleweed.Wal.SegmentFile.Read.{record_of}
use tumbleweed.Wal.{Wal, read}
use tumbleweed.Wal.Log.{Logs}
use tumbleweed.Wal.Log.Find.{read-Logs, read-past_end}
use tumbleweed.Broker.Group.{Group}
use tumbleweed.Broker.Group.Order.{InOrder}
use tumbleweed.Broker.Fetch.{FetchCall, is_full, fetch_available}
use tumbleweed.Broker.Fetch.Delivered.{Delivered}
use tumbleweed.Broker.Fetch.Again.{IsCalm}
use tumbleweed.Broker.Fetch.Fetched.{fetch_available-Delivered}

-- The entry at an index, with what stands before and behind it.
cut_at :
    (es : List Entry) (i : ℕ)
    → i < length es
    → (front : List Entry) × (e : Entry) × (back : List Entry) × (es ≡ front ++ (e ∷ back))
      × (length front ≡ i)
cut_at [] i h = absurd (omega arith)
cut_at (e ∷ es) zero h = ([], e, es, refl, refl)
cut_at (e ∷ es) (suc i) h =
    let (front, x, back, split, size) = cut_at es i (omega arith) in
    (e ∷ front, x, back, ap (λ t. e ∷ t) split, ap suc size)

-- The lengths of key and value fit their fields.
abbrev pub Short : Record → Type 0
Short rec = (length rec.key < 2 ^ 32) × (length rec.value < 2 ^ 32)

module _ (crc : List ℕ → ℕ) (crc_fits : (bytes : List ℕ) → crc bytes < 2 ^ 32) (wal : Wal)
    (es : List Entry) (logs : Logs crc wal 0 es) where
  -- Each offset of the log reads as a record with that offset, and no other is found.
  read_cases :
      (o : ℕ)
      → ((o < wal.next_offset)
          × ((rec : Record) × (read crc wal o ≡ ok rec) × (rec.offset ≡ o) × Short rec))
        ⊎ ((wal.next_offset ≤ o) × (read crc wal o ≡ err offset_not_found))
  read_cases o = elim (Bool-cases (ltb o (length es))) [
    | inl inside ↦
        let (front, e, back, split, size) = cut_at es o (ground (arith, inside)) in
        let at : 0 + length front ≡ o = zero-add (length front) ∙ size in
        let logs' = subst (Logs crc wal 0) split logs in
        let fits = All-middle EntryFits front e back (Logs-EntryFits crc wal 0 _ logs') in
        inl (
          ground (arith, logs.next_is, inside),
          (
            record_of crc o e,
            subst (λ n. read crc wal n ≡ ok (record_of crc n e)) at
                (read-Logs crc crc_fits wal 0 front back e logs'),
            refl,
            (fits.key_fits, fits.value_fits),
          ),
        )
    | inr outside ↦
        let past : wal.next_offset ≤ o = ground (arith, logs.next_is, outside) in
        inr (past, read-past_end crc wal 0 es o logs (omega (arith, logs.next_is, past)))
  ]

  pub read-IsCalm : (o : ℕ) → IsCalm (read crc wal o)
  read-IsCalm o = elim (read_cases o) [
    | inl (_, (rec, found, _, _)) ↦ (some rec, rw found refl)
    | inr (_, missing) ↦ (none, rw missing refl)
  ]

  pub read-Short : (o : ℕ) (rec : Record) → read crc wal o ≡ ok rec → Short rec
  read-Short o rec found = elim (read_cases o) [
    | inl (_, (rec', found', _, short)) ↦ let e : rec' ≡ rec = cc in subst Short e short
    | inr (_, missing) ↦ absurd (cc)
  ]

  pub read_offset : (o : ℕ) (rec : Record) → read crc wal o ≡ ok rec → rec.offset ≡ o
  read_offset o rec found = elim (read_cases o) [
    | inl (_, (rec', found', same, _)) ↦
        let e : rec' ≡ rec = cc in ap (λ (r : Record). r.offset) (sym e) ∙ same
    | inr (_, missing) ↦ absurd (cc)
  ]

  -- A topic's log is in order from offset 0 on, with a checksum of 32 bits; the group hands out its
  -- offsets without a gap and is not ahead of the log; and Produce on the dead letter topic neither
  -- panics nor blocks. Then fetchAvailable returns. Its messages are at most as many as asked for;
  -- each is the log's record at its offset, under an unacknowledged lease of this consumer to the end
  -- of the timeout. The group still hands out without a gap; where the fetch is not full, it has
  -- handed out the whole log. What was settled stays so, and besides it only an expired lease that was
  -- delivered as often as allowed is settled.
  pub fetch_available-OnLog :
      {B : Type 0} (produce : B → List ℕ → List ℕ → B × Result ℕ) (c : FetchCall) (g : Group)
      (next : ℕ) (b : B)
      → ((b : B) (key value : List ℕ) → IsCalm (produce b key value).1)
      → InOrder g next
      → next ≤ wal.next_offset
      → wal.next_offset < 2 ^ 64
      → c.max_count < 2 ^ 32
      → (s : B × Group × List Message) × (next' : ℕ) × (fetch_available
            (read crc wal)
            produce
            c
            wal.next_offset
            b
            g
          ≡ ok s)
        × Delivered (read crc wal) c g next' s.1 s.2
        × (next ≤ next')
        × (next' ≤ wal.next_offset)
        × ((is_full c s.2 ≡ true) ⊎ (next' ≡ wal.next_offset))
  fetch_available-OnLog produce c g next b calm_produce h low wide countable =
      let (s, next', returns, delivered, up, high, ended) =
        fetch_available-Delivered (read crc wal) produce c read-IsCalm calm_produce read_offset g
          next wal.next_offset b h low wide countable in
      (
        s,
        next',
        returns,
        delivered,
        up,
        high,
        elim ended [
          | inl full ↦ inl full
          | inr (inl end) ↦ inr end
          | inr (inr unread) ↦ elim (read_cases next') [
            | inl (_, (rec, found, _, _)) ↦ let e = ap attempt found in absurd (cc)
            | inr (past, _) ↦ inr (omega (arith, past, high))
          ]
        ],
      )
