-- ===== src/Wal/Recovery/Scanned.antt =====
-- pkg/wal/wal.go, the scan of verifyOrRebuildIndex on a log of records and a torn tail.
use native.Mathlib.Nat.{add-zero}
use tumbleweed.Base.{
  ℕ, zero, suc, ◌+◌, ◌*◌, ◌<◌, ◌≡◌, refl, sym, ap, ◌∙◌, inl, inr, List, [], ◌∷◌, ◌++◌, Bool, true,
  false, not, ◌||◌, Bool-cases, if_cases, length, drop, drop-append, All, append_assoc, leb,
  leb-false, ◌==◌, Error, eof, unexpected_eof, Result, ok, err, arith,
}
use tumbleweed.Bytes.{put_uint}
use tumbleweed.Bytes.Buffer.{sizes, length_bytes-append}
use tumbleweed.Bytes.Stream.{read_full, read_full-append}
use tumbleweed.Wal.Encoding.{magic_byte}
use tumbleweed.Wal.Encoding.Layout.{Entry, record_layout}
use tumbleweed.Wal.SegmentFile.{Segment}
use tumbleweed.Wal.SegmentFile.Holds.{records, positions, log_size, record_size, length-record}
use tumbleweed.Wal.Recovery.{Scan, scan, scan_record}
use tumbleweed.Wal.Recovery.Steps.{
  healthy, IsSmall, IsTorn, header_bytes, body_bytes, record_split, record_step-header, at_pos,
  Indexed, Opened, index_agrees-lem,
}

-- What the scan comes to where `es` lie ahead: the position behind them and their number; and it asks
-- for no rebuild only where the index has their positions.
abbrev pub Scanned : Segment → ℕ → ℕ → List Entry → Bool → Result Scan → Type 0
Scanned seg n pos es rebuild r =
    (b : Bool) × (r ≡ ok (at_pos (pos + log_size es) (n + length es) b))
    × (b ≡ false → (rebuild ≡ false) × Indexed seg pos n es)

short_header : (n : ℕ) (rest : List ℕ) → length rest < n → (e : Error) × (read_full n rest ≡ err e)
unfolding read_full
short_header n rest h = elim (Bool-cases (length rest == 0)) [
  | inl z ↦ (eof, rw (leb-false n (length rest) h, z) refl)
  | inr z ↦ (unexpected_eof, rw (leb-false n (length rest) h, z) refl)
]

-- On a torn tail the scan stops where it is.
scan_record-IsTorn :
    (next : Scan → Result Scan) (seg : Segment) (s : Scan) (spare : List ℕ)
    → IsTorn spare
    → (b : Bool) × (scan_record healthy next seg s spare ≡ ok (record s { rebuild = b }))
      × (b ≡ false → s.rebuild ≡ false)
scan_record-IsTorn next seg s [] h = (s.rebuild, refl, λ e. e)
scan_record-IsTorn next seg s (m ∷ rest) (inl short) =
    let (e, failed) = short_header 24 rest (omega arith) in
    (
      true,
      if_cases (λ r. r ≡ ok (record s { rebuild = true })) (not (m == magic_byte)) _ _ (λ _. refl)
          (λ _. rw failed refl),
      λ e. absurd (cc),
    )
scan_record-IsTorn next seg s (m ∷ rest) (inr (m', rest', same, other)) =
    let differs : (m == magic_byte) ≡ false = cc in (true, rw differs refl, λ e. absurd (cc))

same_scan :
    (pos pos' n n' : ℕ) (b : Bool)
    → pos ≡ pos'
    → n ≡ n'
    → ◌≡◌ {A = Result Scan} (ok (at_pos pos n b)) (ok (at_pos pos' n' b))
same_scan pos pos' n n' b p q = ap (λ t. ok (at_pos t n b)) p ∙ ap (λ t. ok (at_pos pos' t b)) q

-- The bytes at the position of the scan, and the position behind a record.
pub drop_at : (pre post file : List ℕ) → file ≡ pre ++ post → drop (length pre) file ≡ post
drop_at pre post file e = rw e (drop-append pre post)

pub or_false : (a b : Bool) → (a || not b) ≡ false → (a ≡ false) × (b ≡ true)
or_false true b e = absurd (cc)
or_false false true e = (refl, refl)
or_false false false e = absurd (cc)

module _ (crc : List ℕ → ℕ) (seg : Segment) (opened : Opened seg) where
  scan-tail :
      (fuel n : ℕ) (pre spare : List ℕ) (rebuild : Bool)
      → seg.log ≡ pre ++ spare
      → IsTorn spare
      → Scanned seg n
          (length pre)
          []
          rebuild
          (scan healthy (suc fuel) seg (at_pos (length pre) n rebuild))
  unfolding scan log_size positions
  scan-tail fuel n pre spare rebuild split torn =
      let idx : Indexed seg (length pre) n [] =
        ap (λ k. drop (k * 8) seg.index) (sym (add-zero n)) in
      let zeros = λ (b : Bool).
        same_scan (length pre) (length pre + 0) n (n + 0) b (sym (add-zero _)) (sym (add-zero n)) in
      if_cases (Scanned seg n (length pre) [] rebuild) (leb seg.size (length pre)) _ _
        (λ done. (rebuild, zeros rebuild, λ e. (e, idx)))
        (λ more.
          let s = at_pos (length pre) n rebuild in
          let next = scan healthy fuel seg in
          let (b, ends, k) = scan_record-IsTorn next seg s spare torn in
          (
            b,
            ap (scan_record healthy next seg s) (drop_at pre spare seg.log split) ∙ ends ∙ zeros b,
            λ e. (k e, idx),
          ))

  -- One round at a record goes on behind it.
  scan-round :
      (fuel n offset : ℕ) (e : Entry) (pre more : List ℕ) (rebuild : Bool)
      → IsSmall e
      → seg.log ≡ pre ++ (record_layout crc offset e ++ more)
      → (a : Bool) × (scan healthy (suc fuel) seg (at_pos (length pre) n rebuild)
          ≡ scan healthy fuel seg (at_pos (length pre + record_size e) (n + 1) (rebuild || not a)))
        × (a ≡ true
            → drop (n * 8) seg.index ≡ put_uint 8 (length pre) ++ drop ((n + 1) * 8) seg.index)
  unfolding scan
  scan-round fuel n offset e pre more rebuild small split =
      let s = at_pos (length pre) n rebuild in
      let header = header_bytes offset e in
      let body = body_bytes crc offset e small in
      let (a, tested, k) = index_agrees-lem seg s opened in
      let inside : leb seg.size (length pre) ≡ false = leb-false seg.size (length pre) (
        omega (
          arith,
          opened.size_is,
          ap (λ (t : List ℕ). length t) split,
          length_bytes-append pre (record_layout crc offset e ++ more),
          length_bytes-append (record_layout crc offset e) more,
          length-record crc offset e,
        )) in
      let there = drop_at pre _ seg.log split ∙ record_split crc offset e small more in
      let whole : read_full 24 (header ++ (body ++ more)) ≡ ok (header, body ++ more) =
        read_full-append 24 header (body ++ more) (omega sizes) in
      (a, rw (inside, there, whole, record_step-header crc offset e small, tested) refl, k)

  -- The scan of a log of records and a torn tail, with more fuel than there are records, stops behind
  -- the last record.
  pub scan-Scanned :
      (es : List Entry) (fuel n offset : ℕ) (pre spare : List ℕ) (rebuild : Bool)
      → seg.log ≡ pre ++ (records crc offset es ++ spare)
      → IsTorn spare
      → All IsSmall es
      → length es < fuel
      → Scanned seg n
          (length pre)
          es
          rebuild
          (scan healthy fuel seg (at_pos (length pre) n rebuild))
  unfolding records log_size positions
  scan-Scanned es zero n offset pre spare rebuild split torn small enough = absurd (omega arith)
  scan-Scanned [] (suc fuel) n offset pre spare rebuild split torn small enough =
      scan-tail fuel n pre spare rebuild split torn
  scan-Scanned (e ∷ es) (suc fuel) n offset pre spare rebuild split torn small enough =
      let entry = record_layout crc offset e in
      let after = pre ++ entry in
      let split' : seg.log ≡ pre ++ (entry ++ (records crc (offset + 1) es ++ spare)) =
        split ∙ ap (λ t. pre ++ t) (append_assoc entry (records crc (offset + 1) es) spare) in
      let (a, round, agrees) = scan-round fuel n offset e pre _ rebuild small.0 split' in
      let size : length after ≡ length pre + record_size e =
        omega (arith, length_bytes-append pre entry, length-record crc offset e) in
      let (b, ends, k) =
        scan-Scanned es fuel (n + 1) (offset + 1) after spare (rebuild || not a)
          (split' ∙ sym (append_assoc pre entry _)) torn small.1 (omega arith) in
      (
        b,
        round
            ∙ ap (λ p. scan healthy fuel seg (at_pos p (n + 1) (rebuild || not a))) (sym size)
            ∙ ends
            ∙ same_scan _ _ _ _ b (omega (arith, size)) (omega arith),
        λ z.
            let (kept, rest) = k z in
            let (r, t) = or_false rebuild a kept in
            (
              r,
              agrees t
                  ∙ ap (λ t. put_uint 8 (length pre) ++ t)
                      (rest
                        ∙ ap (λ p. positions p es ++ drop ((n + 1 + length es) * 8) seg.index) size
                        ∙ ap
                            (λ m.
                              positions (length pre + record_size e) es ++ drop (m * 8) seg.index)
                            (omega arith))
                  ∙ sym (append_assoc (put_uint 8 (length pre)) _ _),
            ),
      )
