-- ===== src/Wal/Log/Append.antt =====
-- pkg/wal/wal.go, Append and roll on a log in order: every system call may fail.
use tumbleweed.Base.{
  ℕ, ◌+◌, ◌%◌, ◌^◌, ◌<◌, ◌≡◌, refl, sym, ap, subst, ◌∙◌, ◌⊎◌, inl, inr, List, [], ◌∷◌, ◌++◌, false,
  ◌==◌, not, length, length-append, All, append_assoc, append-nil, leb, if_cases, if_holds, Result,
  ok, err, io, arith,
}
use tumbleweed.Wal.Encoding.Layout.{Entry, EntryFits, record_layout, encode_record-layout}
use tumbleweed.Wal.SegmentFile.{
  Segment, Disk, write_segment, roll_log_sync, roll_idx_sync, open_files, log_sync, idx_sync,
}
use tumbleweed.Wal.SegmentFile.Holds.{Holds, record_size, Holds-empty, some_entry}
use tumbleweed.Wal.SegmentFile.Append.{Wrote, write_segment-Wrote}
use tumbleweed.Wal.{
  Wal, segments, last_with, open_segment, roll, finish_append, append_active, append, count_append,
  append_rolled,
}
use tumbleweed.Wal.Log.{Chain, Logs, Last, Chain-Last, Last-Chain}

module _ (crc : List ℕ → ℕ) where
  -- What an append of `e` may come to: the offset, and a log with the entry; or an error, and a log
  -- with the old entries, or with the new one too, where only the sync failed.
  abbrev pub Appended : ℕ → ℕ → List Entry → Entry → Wal × Result ℕ → Type 0
  Appended start offset es e (w, r) =
      ((r ≡ ok offset) × Logs crc w start (es ++ (e ∷ [])))
      ⊎ ((r ≡ err io) × (Logs crc w start es ⊎ Logs crc w start (es ++ (e ∷ []))))

  finish_append-Appended :
      (disk : Disk) (w : Wal) (start offset : ℕ) (es : List Entry) (e : Entry)
      → Logs crc w start (es ++ (e ∷ []))
      → Appended start offset es e (finish_append disk w offset)
  unfolding finish_append
  finish_append-Appended disk w start offset es e h =
      let P = Appended start offset es e in
      let done : P (w, ok offset) = inl (refl, h) in
      let failed : P (w, err io) = inr (refl, inr h) in
      if_holds P w.sync_every_write _ _
        (if_holds P (not (disk.succeeds log_sync)) _ _ failed
          (if_holds P (not (disk.succeeds idx_sync)) _ _ failed done))
        done

  -- A log whose active segment is replaced by one that holds `late`.
  replace_active :
      (w : Wal) (seg : Segment) (start n : ℕ) (es more : List Entry)
      → (l : Last crc start w.sealed w.active es) → seg.base_offset ≡ w.active.base_offset
      → Holds crc seg (l.late ++ more)
      → n ≡ start + length (es ++ more)
      → Logs crc (record w { active = seg; next_offset = n }) start (es ++ more)
  replace_active w seg start n es more l b h q = record {
    chain = Last-Chain crc start w.sealed seg (es ++ more) (record {
      early = l.early;
      late = l.late ++ more;
      split = ap (λ t. t ++ more) l.split ∙ append_assoc l.early l.late more;
      chain = l.chain;
      base = b ∙ l.base;
      holds = h;
    });
    next_is = q;
  }

  -- The bounds that the machine numbers need.
  pub record Room (w : Wal) (start : ℕ) (es : List Entry) (e : Entry) : Type 0 where
    pub entry_fits : EntryFits e
    pub offset_free : start + length es + 1 < 2 ^ 60
    pub file_free : w.active.size + record_size e < 2 ^ 63

  counted :
      (disk : Disk) (w : Wal) (start : ℕ) (es : List Entry) (e : Entry)
      → (l : Last crc start w.sealed w.active es) → Logs crc w start es
      → Room w start es e
      → (p : Segment × Result (Unit {0})) → Wrote crc w.active l.late e p
      → Appended start w.next_offset es e (count_append disk w w.next_offset p)
  counted disk w start es e l h room (seg, ok u) (b, inl (r, hs)) =
      finish_append-Appended disk
        (record w { active = seg; next_offset = (w.next_offset + 1) % 2 ^ 64 }) start w.next_offset
        es e
        (replace_active w seg start ((w.next_offset + 1) % 2 ^ 64) es (e ∷ []) l b hs
          (omega (arith, h.next_is, room.offset_free, length-append es (e ∷ []))))
  counted disk w start es e l h room (seg, ok u) (b, inr (r, hs)) = absurd (cc)
  counted disk w start es e l h room (seg, err x) (b, inl (r, hs)) = absurd (cc)
  counted disk w start es e l h room (seg, err x) (b, inr (r, hs)) = inr (
    cc,
    inl (
        rw append-nil at (
          replace_active w seg start w.next_offset es [] l b (rw append-nil hs)
            (rw append-nil h.next_is))),
  )

  pub append_active-Appended :
      (disk : Disk) (w : Wal) (start : ℕ) (es : List Entry) (e : Entry)
      → Logs crc w start es
      → Room w start es e
      → Appended start w.next_offset es e (append_active crc disk e.timestamp w e.key e.value)
  unfolding append_active
  append_active-Appended disk w start es e h room =
      let l = Chain-Last crc start w.sealed w.active es h.chain in
      let size = ap (λ (t : List Entry). length t) l.split ∙ length-append l.early l.late in
      let here : w.next_offset ≡ w.active.base_offset + length l.late =
        omega (arith, h.next_is, l.base, size) in
      rw (encode_record-layout crc w.next_offset e) (
        counted disk w start es e l h room _ (
          subst
            (λ n. Wrote crc w.active l.late e (write_segment disk w.active (record_layout crc n e)))
            (sym here)
            (write_segment-Wrote crc w.active l.late l.holds disk e room.entry_fits
              (omega (arith, room.offset_free, l.base, size)) room.file_free)))

  -- Every segment before the active one starts below the next offset, if the active one is not empty.
  starts_below :
      (start n : ℕ) (segs : List Segment) (es : List Entry)
      → Chain crc start segs es
      → start + length es < n
      → All (λ s. s.base_offset < n) segs
  starts_below start n [] es c h = tt
  starts_below start n (s ∷ segs) es (xs, ys, e, b, hs, c) h =
      let size = ap (λ (t : List Entry). length t) e ∙ length-append xs ys in
      (omega (arith, size), starts_below (start + length xs) n segs ys c (omega (arith, size)))

  last_with-absent :
      (found : Segment) (segs : List Segment) (seg : Segment) (n : ℕ)
      → All (λ s. s.base_offset < n) segs
      → seg.base_offset < n
      → last_with found (segs ++ (seg ∷ [])) n ≡ found
  last_with-absent found [] seg n a h =
      let other : (seg.base_offset == n) ≡ false = ground (arith, h) in rw other refl
  last_with-absent found (s ∷ segs) seg n a h =
      let other : (s.base_offset == n) ≡ false = ground (arith, a.0) in
      rw (other, last_with) (last_with-absent found segs seg n a.1 h)

  open_segment-fresh :
      (segs : List Segment) (seg : Segment) (n : ℕ)
      → All (λ s. s.base_offset < n) segs
      → seg.base_offset < n
      → open_segment (segs ++ (seg ∷ [])) n
        ≡ record { base_offset = n; log = []; index = []; size = 0; idx_size = 0 }
  unfolding open_segment
  open_segment-fresh segs seg n a h = last_with-absent _ segs seg n a h

  abbrev pub Rolled : Wal → ℕ → List Entry → Wal × Result (Unit {0}) → Type 0
  Rolled w start es (w', r) =
      Logs crc w' start es
      × (w'.next_offset ≡ w.next_offset)
      × (((r ≡ ok tt) × (w'.active.size ≡ 0)) ⊎ (r ≡ err io))

  -- On a log in order whose active segment is not empty, with room for the offsets and whichever
  -- system calls fail: roll leaves a log with the same entries and the same next offset. It fails with
  -- an I/O error, or the active segment is then empty.
  pub roll-Rolled :
      (disk : Disk) (w : Wal) (start : ℕ) (es : List Entry)
      → Logs crc w start es
      → 0 < w.active.size
      → start + length es < 2 ^ 60
      → Rolled w start es (roll disk w)
  unfolding roll
  roll-Rolled disk w start es h full room =
      let P = Rolled w start es in
      let l = Chain-Last crc start w.sealed w.active es h.chain in
      let kept : P (w, err io) = (h, refl, inr refl) in
      let size = ap (λ (t : List Entry). length t) l.split ∙ length-append l.early l.late in
      let some_late : 0 < length l.late = some_entry l.late (rw l.holds.size_is at full) in
      let fresh : open_segment (segments w) w.next_offset ≡ _ =
        open_segment-fresh w.sealed w.active w.next_offset
          (starts_below start w.next_offset w.sealed l.early l.chain
            (omega (arith, h.next_is, size)))
          (omega (arith, h.next_is, size, l.base)) in
      if_holds P (not (disk.succeeds roll_log_sync)) _ _ kept (
        if_holds P (not (disk.succeeds roll_idx_sync)) _ _ kept (
          if_holds P (not (disk.succeeds open_files)) _ _ kept (
            rw fresh (
              record {
                chain = Last-Chain crc start (segments w) _ es (record {
                  early = es;
                  late = [];
                  split = sym (append-nil es);
                  chain = h.chain;
                  base = h.next_is;
                  holds = Holds-empty crc w.next_offset (omega (arith, h.next_is));
                });
                next_is = h.next_is;
              },
              refl,
              inl (refl, refl),
            ))))

  rolled :
      (disk : Disk) (w : Wal) (start : ℕ) (es : List Entry) (e : Entry)
      → Room w start es e
      → (p : Wal × Result (Unit {0})) → Rolled w start es p
      → Appended start w.next_offset es e (append_rolled crc disk e.timestamp e.key e.value p)
  rolled disk w start es e room (w', ok u) (g, n, inl (r, z)) =
      subst (λ k. Appended start k es e (append_active crc disk e.timestamp w' e.key e.value)) n
        (append_active-Appended disk w' start es e g (record {
          entry_fits = room.entry_fits;
          offset_free = room.offset_free;
          file_free = omega (arith, room.file_free);
        }))
  rolled disk w start es e room (w', ok u) (g, n, inr r) = absurd (cc)
  rolled disk w start es e room (w', err x) (g, n, inl (r, z)) = absurd (cc)
  rolled disk w start es e room (w', err x) (g, n, inr r) = inr (cc, inl g)

  -- On an open log in order whose limit of a segment is positive, with room for the entry (its fields
  -- fit, offsets stay below 2 ^ 60, a file below 2 ^ 63 bytes), and whichever system calls of Append
  -- and roll fail: Append returns the next offset and the log holds the old entries and then the new one; or
  -- it returns an error and the log holds the old entries, or those and the new one.
  pub append-Appended :
      (disk : Disk) (w : Wal) (start : ℕ) (es : List Entry) (e : Entry)
      → Logs crc w start es
      → w.closed ≡ false
      → 0 < w.max_segment_bytes
      → Room w start es e
      → Appended start w.next_offset es e (append crc disk e.timestamp w e.key e.value)
  unfolding append
  append-Appended disk w start es e h opened max room =
      let P = Appended start w.next_offset es e in
      if_cases P w.closed _ _ (λ shut. cc)
        λ _.
          if_cases P (leb w.max_segment_bytes w.active.size) _ _
            (λ full.
              rolled disk w start es e room _
                (roll-Rolled disk w start es h (ground arith) (omega (arith, room.offset_free))))
            (λ fits. append_active-Appended disk w start es e h room)
