-- ===== src/Wal/Log/Grown.antt =====
-- pkg/wal/wal.go: how large Append lets the active segment grow.
use tumbleweed.Base.{
  ℕ, ◌+◌, ◌^◌, ◌≤◌, ◌<◌, ◌≡◌, refl, inl, inr, List, not, length, if_holds, if_cases, leb, Result,
  ok, err, io, ◌∙◌, arith,
}
use tumbleweed.Wal.Encoding.Layout.{Entry, record_layout, encode_record-layout}
use tumbleweed.Wal.SegmentFile.{
  Segment, Disk, roll_log_sync, roll_idx_sync, open_files, log_seek, log_write, idx_seek, idx_write,
  log_sync, idx_sync, write_segment,
}
use tumbleweed.Wal.SegmentFile.Holds.{record_size, length-record}
use tumbleweed.Wal.{Wal, roll, finish_append, count_append, append_active, append_rolled, append}
use tumbleweed.Wal.Log.{Logs}
use tumbleweed.Wal.Log.Append.{Rolled, roll-Rolled}

write_segment-size :
    (disk : Disk) (seg : Segment) (buf : List ℕ)
    → (write_segment disk seg buf).0.size ≤ seg.size + length buf
unfolding write_segment
write_segment-size disk seg buf =
    let P = λ (p : Segment × Result (Unit {0})). p.0.size ≤ seg.size + length buf in
    if_holds P (not (disk.succeeds log_seek)) _ _ (omega arith) (
      if_holds P (not (disk.succeeds log_write)) _ _ (omega arith) (
        if_holds P (not (disk.succeeds idx_seek)) _ _ (omega arith)
          (if_holds P (not (disk.succeeds idx_write)) _ _ (omega arith) (omega arith))))

-- What Append does not touch, and a bound on the active segment.
pub record Grown (w : Wal) (n : ℕ) (w' : Wal) : Type 0 where
  pub same_max : w'.max_segment_bytes ≡ w.max_segment_bytes
  pub same_closed : w'.closed ≡ w.closed
  pub size : w'.active.size ≤ n

finish_append-Grown :
    (disk : Disk) (w w' : Wal) (offset n : ℕ)
    → Grown w n w'
    → Grown w n (finish_append disk w' offset).0
unfolding finish_append
finish_append-Grown disk w w' offset n h =
    let P = λ (p : Wal × Result ℕ). Grown w n p.0 in
    if_holds P w'.sync_every_write _ _
      (if_holds P (not (disk.succeeds log_sync)) _ _ h
        (if_holds P (not (disk.succeeds idx_sync)) _ _ h h))
      h

count_append-Grown :
    (disk : Disk) (w : Wal) (offset n : ℕ) (p : Segment × Result (Unit {0}))
    → p.0.size ≤ n
    → Grown w n (count_append disk w offset p).0
count_append-Grown disk w offset n (seg, ok u) h =
    finish_append-Grown disk w _ offset n (record { same_max = refl; same_closed = refl; size = h })
count_append-Grown disk w offset n (seg, err e) h = record {
  same_max = refl;
  same_closed = refl;
  size = h;
}

roll_keeps :
    (disk : Disk) (w : Wal)
    → ((roll disk w).0.max_segment_bytes ≡ w.max_segment_bytes)
      × ((roll disk w).0.closed ≡ w.closed)
unfolding roll
roll_keeps disk w =
    let P = λ (p : Wal × Result (Unit {0})).
      (p.0.max_segment_bytes ≡ w.max_segment_bytes) × (p.0.closed ≡ w.closed) in
    if_holds P (not (disk.succeeds roll_log_sync)) _ _ (refl, refl)
      (if_holds P (not (disk.succeeds roll_idx_sync)) _ _ (refl, refl)
        (if_holds P (not (disk.succeeds open_files)) _ _ (refl, refl) (refl, refl)))

module _ (crc : List ℕ → ℕ) (disk : Disk) (e : Entry) where
  append_active-Grown :
      (w : Wal) (n : ℕ)
      → w.active.size + record_size e ≤ n
      → Grown w n (append_active crc disk e.timestamp w e.key e.value).0
  unfolding append_active
  append_active-Grown w n h =
      let buf = record_layout crc w.next_offset e in
      let small : (write_segment disk w.active buf).0.size ≤ n =
        omega (arith, write_segment-size disk w.active buf, length-record crc w.next_offset e, h) in
      rw (encode_record-layout crc w.next_offset e)
        (count_append-Grown disk w w.next_offset n (write_segment disk w.active buf) small)

  append_rolled-Grown :
      (w : Wal) (start n : ℕ) (es : List Entry) (p : Wal × Result (Unit {0}))
      → Rolled crc w start es p
      → (p.0.max_segment_bytes ≡ w.max_segment_bytes) × (p.0.closed ≡ w.closed)
      → (p.1 ≡ err io → p.0.active.size ≤ n)
      → record_size e ≤ n
      → Grown w n (append_rolled crc disk e.timestamp e.key e.value p).0
  append_rolled-Grown w start n es (w', ok u) (_, _, inl (_, zero)) (m, c) failed fits =
      let g = append_active-Grown w' n (omega (arith, zero, fits)) in
      record { same_max = g.same_max ∙ m; same_closed = g.same_closed ∙ c; size = g.size }
  append_rolled-Grown w start n es (w', ok u) (_, _, inr r) kept failed fits = absurd (cc)
  append_rolled-Grown w start n es (w', err x) (_, _, inl (r, _)) kept failed fits = absurd (cc)
  append_rolled-Grown w start n es (w', err x) (_, _, inr r) (m, c) failed fits = record {
    same_max = m;
    same_closed = c;
    size = failed r;
  }

roll_failed :
    (disk : Disk) (w : Wal) (n : ℕ)
    → w.active.size ≤ n
    → (roll disk w).1 ≡ err io
    → (roll disk w).0.active.size ≤ n
unfolding roll
roll_failed disk w n h =
    let P = λ (p : Wal × Result (Unit {0})). p.1 ≡ err io → p.0.active.size ≤ n in
    if_holds P (not (disk.succeeds roll_log_sync)) _ _ (λ _. h)
      (if_holds P (not (disk.succeeds roll_idx_sync)) _ _ (λ _. h)
        (if_holds P (not (disk.succeeds open_files)) _ _ (λ _. h) (λ e. absurd (cc))))

-- On a log in order whose limit of a segment is positive, with offsets below 2 ^ 60, and whichever
-- system calls fail: if the active segment
-- is not larger than `n`, and the limit of a segment plus the record is not, then after Append the
-- active segment is still not larger than `n`, and the limit and the closed flag are as they were.
pub append-Grown :
    (crc : List ℕ → ℕ) (disk : Disk) (w : Wal) (start n : ℕ) (es : List Entry) (e : Entry)
    → Logs crc w start es
    → 0 < w.max_segment_bytes
    → start + length es < 2 ^ 60
    → w.active.size ≤ n
    → w.max_segment_bytes + record_size e ≤ n
    → Grown w n (append crc disk e.timestamp w e.key e.value).0
unfolding append
append-Grown crc disk w start n es e h positive room low fits =
    let P = λ (p : Wal × Result ℕ). Grown w n p.0 in
    if_holds P w.closed _ _ (record { same_max = refl; same_closed = refl; size = low })
      (if_cases P (leb w.max_segment_bytes w.active.size) _ _
        (λ full.
          append_rolled-Grown crc disk e w start n es (roll disk w)
            (roll-Rolled crc disk w start es h (ground (arith, full, positive)) room)
            (roll_keeps disk w) (roll_failed disk w n low) (omega (arith, fits)))
        (λ small. append_active-Grown crc disk e w n (ground (arith, small, fits))))
