-- ===== src/Wal/Log/Find.antt =====
-- pkg/wal/wal.go, findSegment and Read on a log in order.
use tumbleweed.Base.{
  ℕ, zero, suc, ◌+◌, ◌-◌, ◌^◌, ◌≤◌, ◌<◌, ◌≡◌, refl, sym, ap, ◌∙◌, ◌⊎◌, inl, inr, List, [], ◌∷◌,
  ◌++◌, true, false, some, length, length-append, ltb, lt→ltb, ltb-false, le→leb, leb-false, Bool,
  Result, ok, err, offset_not_found, ◌>>=◌, arith,
}
use tumbleweed.Wal.Encoding.Layout.{Entry}
use tumbleweed.Wal.SegmentFile.{Segment}
use tumbleweed.Wal.SegmentFile.Holds.{Holds}
use tumbleweed.Wal.SegmentFile.Read.{record_of, read_segment-Holds}
use tumbleweed.Wal.Search.{nth, search-boundary}
use tumbleweed.Wal.{Wal, segments, find_segment, read}
use tumbleweed.Wal.Log.{Chain, Logs}

suc_pred : (n : ℕ) → suc n - 1 ≡ n
suc_pred n = omega arith

-- Two ways to cut a list: the element stands in the first part or in the second.
cut :
    (front back xs ys : List Entry) (e : Entry)
    → front ++ (e ∷ back) ≡ xs ++ ys
    → ((b : List Entry) × (xs ≡ front ++ (e ∷ b)))
      ⊎ ((f : List Entry) × (front ≡ xs ++ f) × (ys ≡ f ++ (e ∷ back)))
cut front back [] ys e h = inr (front, refl, sym h)
cut [] back (x ∷ xs) ys e h = inl (xs, cc)
cut (z ∷ front) back (x ∷ xs) ys e h = elim (cut front back xs ys e (cc)) [
  | inl (b, p) ↦ inl (b, cc)
  | inr (f, p, q) ↦ inr (f, cc, q)
]

-- The segment at an index starts at an offset with a property.
abbrev At : List Segment → ℕ → (ℕ → Type 0) → Type 0
At segs i P = (s : Segment) × (nth segs i ≡ ok s) × P s.base_offset

At-cases :
    (s : Segment) (segs : List Segment) (i : ℕ) (P : ℕ → Type 0)
    → (i ≡ 0 → P s.base_offset)
    → ((j : ℕ) → i ≡ suc j → At segs j P)
    → At (s ∷ segs) i P
unfolding nth
At-cases s segs zero P first more = (s, refl, first refl)
At-cases s segs (suc j) P first more = more j refl

module _ (crc : List ℕ → ℕ) where
  starts_later :
      (start : ℕ) (segs : List Segment) (es : List Entry) (i : ℕ)
      → Chain crc start segs es
      → i < length segs
      → At segs i (λ b. start ≤ b)
  unfolding nth
  starts_later start [] es i c h = absurd (omega arith)
  starts_later start (s ∷ segs) es zero (xs, ys, e, b, h, c) l = (s, refl, omega arith)
  starts_later start (s ∷ segs) es (suc i) (xs, ys, e, b, h, c) l =
      let (t, at, le) = starts_later (start + length xs) segs ys i c (omega arith) in
      (t, at, omega arith)

  -- Where the entry with an offset is.
  record Located (segs : List Segment) (offset : ℕ) (e : Entry) : Type 0 where
    k : ℕ
    seg : Segment
    front : List Entry
    back : List Entry
    inside : k < length segs
    at : nth segs k ≡ ok seg
    holds : Holds crc seg (front ++ (e ∷ back))
    here : seg.base_offset + length front ≡ offset
    before : (i : ℕ) → i < suc k → At segs i (λ b. b ≤ offset)
    after : (i : ℕ) → suc k ≤ i → i < length segs → At segs i (λ b. offset < b)

  locate :
      (start : ℕ) (segs : List Segment) (es front back : List Entry) (e : Entry)
      → Chain crc start segs es
      → es ≡ front ++ (e ∷ back)
      → Located segs (start + length front) e
  unfolding nth
  locate start [] es front back e c split = absurd (
      omega
        (arith, ap (λ (t : List Entry). length t) (sym c ∙ split), length-append front (e ∷ back)))
  locate start (s ∷ segs) es front back e (xs, ys, q, b, h, c) split =
      elim (cut front back xs ys e (sym split ∙ q)) [
        | inl (b', p) ↦ record {
          k = 0;
          seg = s;
          front = front;
          back = b';
          inside = omega arith;
          at = refl;
          holds = rw p at h;
          here = ap (λ n. n + length front) b;
          before =
              λ i l. At-cases s segs i _ (λ _. omega (arith, b)) (λ j z. absurd (omega (arith, z)));
          after = λ i l m.
              At-cases s segs i _ (λ z. absurd (omega (arith, z)))
                (λ j z.
                  let (t, at, le) =
                    starts_later (start + length xs) segs ys j c (omega (arith, z)) in
                  (
                    t,
                    at,
                    omega
                        (arith, ap (λ (u : List Entry). length u) p, length-append front (e ∷ b')),
                  ));
        }
        | inr (f, p, r) ↦
            let rec = locate (start + length xs) segs ys f back e c r in
            let same : start + length xs + length f ≡ start + length front =
              omega (arith, ap (λ (u : List Entry). length u) p, length-append xs f) in
            record {
              k = suc rec.k;
              seg = rec.seg;
              front = rec.front;
              back = rec.back;
              inside = omega (arith, rec.inside);
              at = rec.at;
              holds = rec.holds;
              here = rec.here ∙ same;
              before = λ i l.
                  At-cases s segs i _ (λ _. omega (arith, b))
                    (λ j z.
                      let (t, at, le) = rec.before j (omega (arith, z)) in
                      (t, at, omega (arith, same)));
              after = λ i l m.
                  At-cases s segs i _ (λ z. absurd (omega (arith, z)))
                    (λ j z.
                      let (t, at, le) = rec.after j (omega (arith, z)) (omega (arith, z)) in
                      (t, at, omega (arith, same)));
            }
      ]

  find_segment-Located :
      (segs : List Segment) (offset : ℕ) (e : Entry) (l : Located segs offset e)
      → find_segment segs offset ≡ ok (some l.seg)
  unfolding find_segment
  find_segment-Located segs offset e l =
      let test : ℕ → Result Bool = λ i. nth segs i >>= λ s. ok (ltb offset s.base_offset) in
      let fails : (i : ℕ) → i < suc l.k → test i ≡ ok false = λ i h.
        let (s, at, le) = l.before i h in rw at (ap ok (ltb-false offset s.base_offset le)) in
      let passes : (i : ℕ) → suc l.k ≤ i → i < length segs → test i ≡ ok true = λ i h m.
        let (s, at, lt) = l.after i h m in rw at (ap ok (lt→ltb offset s.base_offset lt)) in
      rw (
        search-boundary test (length segs) (suc l.k) fails passes l.inside,
        lt→ltb 0 (suc l.k) (omega arith),
        suc_pred l.k,
        l.at,
      )

  module _ (crc_fits : (bytes : List ℕ) → crc bytes < 2 ^ 32) where
    -- With a checksum of 32 bits: in a log in order Read returns, at each offset that is taken, the
    -- entry that was appended there.
    pub read-Logs :
        (w : Wal) (start : ℕ) (front back : List Entry) (e : Entry)
        → Logs crc w start (front ++ (e ∷ back))
        → read crc w (start + length front) ≡ ok (record_of crc (start + length front) e)
    unfolding read
    read-Logs w start front back e h =
        let o = start + length front in
        let l = locate start (segments w) _ front back e h.chain refl in
        rw
          (
            leb-false w.next_offset o (omega (arith, h.next_is, length-append front (e ∷ back))),
            find_segment-Located (segments w) o e l,
            ← l.here,
          )
          (read_segment-Holds crc crc_fits l.seg l.front l.back e l.holds)

  -- In a log in order Read answers, at an offset that is not yet taken, that it is not found.
  pub read-past_end :
      (w : Wal) (start : ℕ) (es : List Entry) (offset : ℕ)
      → Logs crc w start es
      → start + length es ≤ offset
      → read crc w offset ≡ err offset_not_found
  unfolding read
  read-past_end w start es offset h p = rw (le→leb w.next_offset offset (omega (arith, h.next_is)))
