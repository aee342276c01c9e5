-- ===== src/Wal/Recovery/Reopened.antt =====
-- pkg/wal/wal.go, NewWAL on the files of a log.
use tumbleweed.Base.{
  ℕ, ◌+◌, ◌^◌, ◌≤◌, ◌<◌, ◌≡◌, refl, sym, ap, subst, ◌∙◌, ◌⊎◌, inl, inr, List, [], ◌∷◌, ◌++◌, Bool,
  true, false, length, length-append, All, append_assoc, ltb-false, ◌==◌, Result, ok, arith,
}
use tumbleweed.Bytes.{IsByte}
use tumbleweed.Wal.Encoding.Layout.{Entry}
use tumbleweed.Wal.SegmentFile.{Segment}
use tumbleweed.Wal.SegmentFile.Holds.{records, log_size}
use tumbleweed.Wal.{Wal, last_with, open_segment}
use tumbleweed.Wal.Log.{Chain, Logs}
use tumbleweed.Wal.Recovery.{
  recover_next_offset, verify_or_rebuild_index, open_all, insert_base, sort_bases, bases_of,
  split_last, new_wal,
}
use tumbleweed.Wal.Recovery.Steps.{healthy, IsSmall, IsTorn}
use tumbleweed.Wal.Recovery.Rebuilt.{whole_segment, verify_or_rebuild_index-whole}
use tumbleweed.Wal.Recovery.NextOffset.{whole_segment-Holds, recover_next_offset-whole}

-- What is on disk for one segment, as some crashes leave it: the records of the entries and then a torn tail in
-- the log, and any bytes in the index.
pub record FileHolds (crc : List ℕ → ℕ) (seg : Segment) (es : List Entry) : Type 0 where
  pub spare : List ℕ
  pub log_is : seg.log ≡ records crc seg.base_offset es ++ spare
  pub torn : IsTorn spare
  pub index_bytes : All IsByte seg.index
  pub small : All IsSmall es
  -- no machine number overflows
  pub offsets_fit : seg.base_offset + length es < 2 ^ 60
  pub log_fits : log_size es < 2 ^ 63

module _ (crc : List ℕ → ℕ) where
  -- Files in order hold the entries one after the other, from the offset `start` on; all but the last
  -- have some.
  abbrev pub Files : ℕ → List Segment → List Entry → Type 0
  Files start [] es = es ≡ []
  Files start (seg ∷ segs) es =
      (xs : List Entry) × (ys : List Entry) × (es ≡ xs ++ ys)
      × (seg.base_offset ≡ start)
      × FileHolds crc seg xs
      × ((segs ≡ []) ⊎ (0 < length xs))
      × Files (start + length xs) segs ys

  verified :
      (seg : Segment) (xs : List Entry)
      → FileHolds crc seg xs
      → verify_or_rebuild_index healthy
          (record seg { size = length seg.log; idx_size = length seg.index })
        ≡ ok (whole_segment crc seg.base_offset xs)
  verified seg xs h =
      verify_or_rebuild_index-whole crc
        (record seg { size = length seg.log; idx_size = length seg.index })
        (record { size_is = refl; idx_size_is = refl; idx_bytes = h.index_bytes }) xs h.spare
        h.log_is h.small h.torn

  sorted_bases :
      (segs : List Segment) (start : ℕ) (es : List Entry)
      → Files start segs es
      → sort_bases (bases_of segs) ≡ bases_of segs
  unfolding sort_bases insert_base
  sorted_bases [] start es h = refl
  sorted_bases (seg ∷ []) start es (xs, ys, e, b, h, some, rest) = refl
  sorted_bases (seg ∷ s ∷ segs) start es (xs, ys, e, b, h, some, rest) =
      let (xs', ys', e', b', h', some', rest') = rest in
      rw
        (
          sorted_bases (s ∷ segs) (start + length xs) ys rest,
          ltb-false s.base_offset seg.base_offset (omega arith),
        )
        refl

-- No segment behind these files begins before them.
module _ (crc : List ℕ → ℕ) where
  Files-later :
      (start low : ℕ) (segs : List Segment) (es : List Entry)
      → Files crc start segs es
      → low < start
      → All (λ s. low < s.base_offset) segs
  Files-later start low [] es h le = tt
  Files-later start low (s ∷ segs) es (xs, ys, e, b, h, some, rest) le =
      (omega (arith, b, le), Files-later (start + length xs) low segs ys rest (omega (arith, le)))

  -- nor behind the first of them, if it is not the last
  Files-behind :
      (start : ℕ) (segs : List Segment) (xs ys : List Entry)
      → ((segs ≡ []) ⊎ (0 < length xs))
      → Files crc (start + length xs) segs ys
      → All (λ s. start < s.base_offset) segs
  Files-behind start [] xs ys some rest = tt
  Files-behind start (s ∷ segs) xs ys (inl none_left) rest = absurd (cc)
  Files-behind start (s ∷ segs) xs ys (inr some) rest =
      Files-later (start + length xs) start (s ∷ segs) ys rest (omega (arith, some))

last_with-absent :
    (found : Segment) (n : ℕ) (segs : List Segment)
    → All (λ s. n < s.base_offset) segs
    → last_with found segs n ≡ found
last_with-absent found n [] h = refl
last_with-absent found n (s ∷ segs) h =
    let other : (s.base_offset == n) ≡ false = ground (arith, h.0) in
    rw other (last_with-absent found n segs h.1)

-- A base offset that no other segment has is found.
last_with-found :
    (found : Segment) (before : List Segment) (seg : Segment) (after : List Segment)
    → All (λ s. s.base_offset < seg.base_offset) before
    → All (λ s. seg.base_offset < s.base_offset) after
    → last_with found (before ++ (seg ∷ after)) seg.base_offset
      ≡ record seg { size = length seg.log; idx_size = length seg.index }
last_with-found found [] seg after h k =
    let same : (seg.base_offset == seg.base_offset) ≡ true = ground arith in
    rw (same, last_with)
      (last_with-absent (record seg { size = length seg.log; idx_size = length seg.index })
        seg.base_offset after k)
last_with-found found (s ∷ before) seg after h k =
    let other : (s.base_offset == seg.base_offset) ≡ false = ground (arith, h.0) in
    rw (other, last_with) (last_with-found found before seg after h.1 k)

open_segment-found :
    (before : List Segment) (seg : Segment) (after : List Segment)
    → All (λ s. s.base_offset < seg.base_offset) before
    → All (λ s. seg.base_offset < s.base_offset) after
    → open_segment (before ++ (seg ∷ after)) seg.base_offset
      ≡ record seg { size = length seg.log; idx_size = length seg.index }
unfolding open_segment
open_segment-found before seg after h k = last_with-found _ before seg after h k

All-snoc :
    (start next : ℕ) (before : List Segment) (seg : Segment)
    → All (λ (s : Segment). s.base_offset < start) before
    → start ≤ next
    → seg.base_offset < next
    → All (λ (s : Segment). s.base_offset < next) (before ++ (seg ∷ []))
All-snoc start next [] seg h k l = (l, tt)
All-snoc start next (s ∷ before) seg h k l =
    (omega (arith, h.0), All-snoc start next before seg h.1 k l)

split_last-append :
    (seg : Segment) (segs : List Segment)
    → (split_last seg segs).0 ++ ((split_last seg segs).1 ∷ []) ≡ seg ∷ segs
split_last-append seg [] = refl
split_last-append seg (s ∷ segs) = ap (λ t. seg ∷ t) (split_last-append s segs)

module _ (crc : List ℕ → ℕ) where
  -- The segments that come back, and the next offset of the last one.
  abbrev Reopens : ℕ → List Entry → Result (List Segment) → Type 0
  Reopens start es r =
      (s : Segment) × (ss : List Segment) × (r ≡ ok (s ∷ ss))
      × Chain crc start (s ∷ ss) es
      × (recover_next_offset healthy (split_last s ss).1 ≡ ok (start + length es))

  opened_segment :
      (dir before : List Segment) (seg : Segment) (segs : List Segment) (start : ℕ)
      (xs : List Entry)
      → dir ≡ before ++ (seg ∷ segs)
      → All (λ (s : Segment). s.base_offset < start) before
      → All (λ (s : Segment). start < s.base_offset) segs
      → seg.base_offset ≡ start
      → FileHolds crc seg xs
      → verify_or_rebuild_index healthy (open_segment dir seg.base_offset)
        ≡ ok (whole_segment crc seg.base_offset xs)
  opened_segment dir before seg segs start xs e earlier later b h =
      ap (λ d. verify_or_rebuild_index healthy (open_segment d seg.base_offset)) e
      ∙ ap (verify_or_rebuild_index healthy) (
          open_segment-found before seg segs
            (subst (λ n. All (λ (s : Segment). s.base_offset < n) before) (sym b) earlier)
            (subst (λ n. All (λ (s : Segment). n < s.base_offset) segs) (sym b) later))
      ∙ verified crc seg xs h

  open_all-Files :
      (segs : List Segment) (dir before : List Segment) (seg : Segment) (start : ℕ)
      (es : List Entry)
      → dir ≡ before ++ (seg ∷ segs)
      → All (λ (s : Segment). s.base_offset < start) before
      → Files crc start (seg ∷ segs) es
      → Reopens start es (open_all healthy dir (bases_of (seg ∷ segs)))
  unfolding open_all
  open_all-Files [] dir before seg start es e earlier (xs, ys, q, b, h, some, rest) =
      let w = whole_segment crc seg.base_offset xs in
      let held = whole_segment-Holds crc seg.base_offset xs h.small h.offsets_fit h.log_fits in
      (
        w,
        [],
        rw (opened_segment dir before seg [] start xs e earlier tt b h) refl,
        (xs, ys, q, b, held, rest),
        recover_next_offset-whole crc seg.base_offset xs h.small h.offsets_fit h.log_fits
            ∙ ap ok (
                omega (
                  arith,
                  b,
                  ap (λ (t : List Entry). length t) q,
                  length-append xs ys,
                  ap (λ (t : List Entry). length t) rest,
                )),
      )
  open_all-Files (s ∷ segs) dir before seg start es e earlier
        (xs, ys, q, b, h, inl none_left, rest) =
      absurd (cc)
  open_all-Files (s ∷ segs) dir before seg start es e earlier (xs, ys, q, b, h, inr some, rest) =
      let w = whole_segment crc seg.base_offset xs in
      let later = Files-behind crc start (s ∷ segs) xs ys (inr some) rest in
      let held = whole_segment-Holds crc seg.base_offset xs h.small h.offsets_fit h.log_fits in
      let (s', ss, opened, chain, next) =
        open_all-Files segs dir (before ++ (seg ∷ [])) s (start + length xs) ys
          (e ∙ sym (append_assoc before (seg ∷ []) (s ∷ segs)))
          (All-snoc start (start + length xs) before seg earlier (omega arith) (omega arith))
          rest in
      (
        w,
        s' ∷ ss,
        rw (opened_segment dir before seg (s ∷ segs) start xs e earlier later b h, opened) refl,
        (xs, ys, q, b, held, chain),
        next ∙ ap ok (omega (arith, ap (λ (t : List Entry). length t) q, length-append xs ys)),
      )

  -- On a disk where every call succeeds: the files of segments that follow one another, all but the
  -- last with some records, of sizes that do not wrap; behind them a tail that is shorter than a header
  -- or does not begin as a record, and any bytes in the index. They are opened as a log in order of the
  -- same entries, which is not closed.
  pub new_wal-Logs :
      (sync : Bool) (max start : ℕ) (seg : Segment) (segs : List Segment) (es : List Entry)
      → Files crc start (seg ∷ segs) es
      → (w : Wal) × (new_wal healthy sync max (seg ∷ segs) ≡ ok w)
        × Logs crc w start es
        × (w.closed ≡ false)
        × (w.max_segment_bytes ≡ max)
  unfolding new_wal
  new_wal-Logs sync max start seg segs es files =
      let dir = seg ∷ segs in
      let (s, ss, opened, chain, next) = open_all-Files segs dir [] seg start es refl tt files in
      let w : Wal = record {
        sync_every_write = sync;
        max_segment_bytes = max;
        sealed = (split_last s ss).0;
        active = (split_last s ss).1;
        next_offset = start + length es;
        closed = false;
      } in
      (
        w,
        rw (sorted_bases crc dir start es files, opened, next) refl,
        record {
          chain = subst (λ t. Chain crc start t es) (sym (split_last-append s ss)) chain;
          next_is = refl;
        },
        refl,
        refl,
      )
