-- ===== src/Wal/Recovery/Rebuilt.antt =====
-- pkg/wal/wal.go, verifyOrRebuildIndex on a log of records and a torn tail.
use native.Mathlib.Nat.{zero-add}
use tumbleweed.Base.{
  ℕ, zero, suc, ◌+◌, ◌-◌, ◌*◌, ◌≤◌, ◌<◌, ◌≡◌, refl, sym, ap, subst, ◌∙◌, List, [], ◌∷◌, ◌++◌, Bool,
  false, not, ◌||◌, if_cases, length, take, take-append, drop, length-drop, All, append_assoc,
  append-nil, ltb, ltb-false, lt→ltb, ◌==◌, Result, ok, arith,
}
use tumbleweed.Bytes.{make}
use tumbleweed.Bytes.Buffer.{sizes, length_bytes-append}
use tumbleweed.Bytes.Stream.{read_full, read_full-append}
use tumbleweed.Wal.Encoding.{magic_byte}
use tumbleweed.Wal.Encoding.Layout.{Entry, record_layout}
use tumbleweed.Wal.SegmentFile.{Segment}
use tumbleweed.Wal.SegmentFile.Holds.{
  records, positions, log_size, record_size, length-record, length-records,
}
use tumbleweed.Wal.Recovery.{
  scan, truncate, truncate_tail, rebuild_loop, rebuild_index, verify_or_rebuild_index,
}
use tumbleweed.Wal.Recovery.Steps.{
  healthy, IsSmall, IsTorn, header_bytes, body_bytes, record_split, record_step-magic, at_pos,
  Opened,
}
use tumbleweed.Wal.Recovery.Scanned.{drop_at, or_false, scan-Scanned}

nil_of_length : (xs : List ℕ) → length xs ≡ 0 → xs ≡ []
nil_of_length [] h = refl
nil_of_length (x ∷ xs) h = absurd (omega arith)

length-le-log_size : (es : List Entry) → length es ≤ log_size es
unfolding log_size
length-le-log_size [] = omega arith
length-le-log_size (e ∷ es) = omega (arith, length-le-log_size es)

module _ (crc : List ℕ → ℕ) where
  -- The rebuilding loop writes the positions of the records that lie ahead.
  rebuild_loop-records :
      (es : List Entry) (fuel offset : ℕ) (pre log : List ℕ)
      → log ≡ pre ++ records crc offset es
      → All IsSmall es
      → length es < fuel
      → rebuild_loop healthy fuel log (length log) (length pre) ≡ ok (positions (length pre) es)
  unfolding rebuild_loop records positions
  rebuild_loop-records es zero offset pre log split small enough = absurd (omega arith)
  rebuild_loop-records [] (suc fuel) offset pre log split small enough =
      let at_end =
        ltb-false (length pre) (length log) (omega (sizes, ap (λ (t : List ℕ). length t) split)) in
      rw at_end refl
  rebuild_loop-records (e ∷ es) (suc fuel) offset pre log split small enough =
      let entry = record_layout crc offset e in
      let more = records crc (offset + 1) es in
      let head : List ℕ = magic_byte ∷ header_bytes offset e in
      let body = body_bytes crc offset e small.0 in
      let inside = lt→ltb (length pre) (length log) (
        omega (
          arith,
          ap (λ (t : List ℕ). length t) split,
          length_bytes-append pre (entry ++ more),
          length_bytes-append entry more,
          length-record crc offset e,
        )) in
      let there : drop (length pre) log ≡ head ++ (body ++ more) =
        drop_at pre _ log split ∙ record_split crc offset e small.0 more in
      let whole : read_full 25 (head ++ (body ++ more)) ≡ ok (head, body ++ more) =
        read_full-append 25 head (body ++ more) (omega sizes) in
      let size : length (pre ++ entry) ≡ length pre + record_size e =
        omega (arith, length_bytes-append pre entry, length-record crc offset e) in
      let rest : rebuild_loop healthy fuel log (length log) (length pre + record_size e)
          ≡ ok (positions (length pre + record_size e) es) =
        subst (λ p. rebuild_loop healthy fuel log (length log) p ≡ ok (positions p es)) size
          (rebuild_loop-records es fuel (offset + 1) (pre ++ entry) log
            (split ∙ sym (append_assoc pre entry more)) small.1 (omega arith)) in
      rw (inside, there, whole, record_step-magic crc offset e small.0, rest) refl

  -- A segment whose files hold the entries and nothing else.
  abbrev pub whole_segment : ℕ → List Entry → Segment
  whole_segment base es = record {
    base_offset = base;
    log = records crc base es;
    index = positions 0 es;
    size = log_size es;
    idx_size = length es * 8;
  }

module _ (crc : List ℕ → ℕ) (seg : Segment) (opened : Opened seg) (es : List Entry) (spare : List ℕ)
    (split : seg.log ≡ records crc seg.base_offset es ++ spare) (small : All IsSmall es) where
  log_length : seg.size ≡ log_size es + length spare
  log_length = omega (
    arith,
    opened.size_is,
    ap (λ (t : List ℕ). length t) split,
    length_bytes-append (records crc seg.base_offset es) spare,
    length-records crc seg.base_offset es,
  )

  scan_start :
      IsTorn spare
      → (b : Bool) × (scan healthy (seg.size + 1) seg (at_pos 0 0 false)
          ≡ ok (at_pos (log_size es) (length es) b))
        × (b ≡ false → seg.index ≡ positions 0 es ++ drop (length es * 8) seg.index)
  scan_start torn =
      let (b, ends, k) =
        scan-Scanned crc seg opened es (seg.size + 1) 0 seg.base_offset [] spare false split torn
          small (omega (arith, log_length, length-le-log_size es)) in
      (
        b,
        ends
            ∙ ap (λ p. ok (at_pos p (0 + length es) b)) (zero-add _)
            ∙ ap (λ n. ok (at_pos (log_size es) n b)) (zero-add _),
        λ z. (k z).1 ∙ ap (λ n. positions 0 es ++ drop (n * 8) seg.index) (zero-add _),
      )

  abbrev cut_segment : Segment
  cut_segment = record seg { log = records crc seg.base_offset es; size = log_size es }

  truncate_tail-cut :
      (b : Bool) → truncate_tail healthy (at_pos (log_size es) (length es) b) seg ≡ ok cut_segment
  unfolding truncate_tail truncate
  truncate_tail-cut b =
      let rs = records crc seg.base_offset es in
      let n = log_size es in
      let pad = make (n - length seg.log) in
      let cut : take n (seg.log ++ pad) ≡ rs =
        ap (λ t. take n (t ++ pad)) split
        ∙ ap (take n) (append_assoc rs spare pad)
        ∙ ap (λ k. take k (rs ++ (spare ++ pad))) (sym (length-records crc seg.base_offset es))
        ∙ take-append rs (spare ++ pad) in
      if_cases (λ r. r ≡ ok cut_segment) (ltb n seg.size) _ _
        (λ longer. ap (λ t. ok (record seg { log = t; size = n })) cut)
        (λ whole.
          let none_left : spare ≡ [] = nil_of_length spare (ground (arith, whole, log_length)) in
          ap (λ t. ok (record seg { log = t }))
            (split ∙ ap (λ t. rs ++ t) none_left ∙ append-nil rs)
          ∙ ap (λ k. ok (record seg { log = rs; size = k }))
              (omega (arith, log_length, ap (λ (t : List ℕ). length t) none_left)))

  rebuild_index-whole :
      rebuild_index healthy (length es) cut_segment ≡ ok (whole_segment crc seg.base_offset es)
  unfolding rebuild_index
  rebuild_index-whole =
      let rs = records crc seg.base_offset es in
      let size = length-records crc seg.base_offset es in
      let written : rebuild_loop healthy (log_size es + 1) rs (log_size es) 0
          ≡ ok (positions 0 es) =
        subst (λ n. rebuild_loop healthy (log_size es + 1) rs n 0 ≡ ok (positions 0 es)) size
          (rebuild_loop-records crc es (log_size es + 1) seg.base_offset [] rs refl small
            (omega (arith, length-le-log_size es))) in
      rw written refl

  -- On a disk where every call succeeds: a log of records whose sizes do not wrap, with a tail that is
  -- shorter than a header or does not begin as a record, is cut behind the last record; and whatever
  -- bytes the index held, it has the records' positions afterwards.
  pub verify_or_rebuild_index-whole :
      IsTorn spare → verify_or_rebuild_index healthy seg ≡ ok (whole_segment crc seg.base_offset es)
  unfolding verify_or_rebuild_index
  verify_or_rebuild_index-whole torn =
      let (b, scanned, k) = scan_start torn in
      let P = λ (r : Result Segment). r ≡ ok (whole_segment crc seg.base_offset es) in
      rw (scanned, truncate_tail-cut b)
        (if_cases P (b || not (seg.idx_size == length es * 8)) _ _ (λ again. rebuild_index-whole)
          (λ kept.
            let (not_asked, same) = or_false b (seg.idx_size == length es * 8) kept in
            let size : seg.idx_size ≡ length es * 8 = ground (arith, same) in
            let all : drop (length es * 8) seg.index ≡ [] =
              nil_of_length _
                (omega (arith, length-drop (length es * 8) seg.index, size, opened.idx_size_is)) in
            let index : seg.index ≡ positions 0 es =
              k not_asked ∙ ap (λ t. positions 0 es ++ t) all ∙ append-nil (positions 0 es) in
            ap (λ t. ok (record cut_segment { index = t })) index
            ∙ ap (λ n. ok (record cut_segment { index = positions 0 es; idx_size = n })) size))
