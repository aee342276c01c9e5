-- ===== src/Wal/Log.antt =====
-- pkg/wal/wal.go: what a log in order holds, for Append and Read.
pub mod Find
pub mod Append
pub mod Grown
pub mod Entries
use tumbleweed.Base.{
  ℕ, ◌+◌, ◌≤◌, ◌<◌, ◌^◌, ◌≡◌, refl, sym, ap, ◌∙◌, List, [], ◌∷◌, ◌++◌, length, length-append,
  append_assoc, append-nil, subst, arith,
}
use native.Mathlib.Nat.{add-zero, add_assoc}
use tumbleweed.Wal.Encoding.Layout.{Entry}
use tumbleweed.Wal.SegmentFile.{Segment}
use tumbleweed.Wal.SegmentFile.Holds.{Holds}
use tumbleweed.Wal.{Wal, segments}

module _ (crc : List ℕ → ℕ) where
  -- Segments in order hold the entries one after the other, from the offset `start` on.
  abbrev pub Chain : ℕ → List Segment → List Entry → Type 0
  Chain start [] es = es ≡ []
  Chain start (seg ∷ segs) es =
      (xs : List Entry) × (ys : List Entry) × (es ≡ xs ++ ys)
      × (seg.base_offset ≡ start)
      × Holds crc seg xs
      × Chain (start + length xs) segs ys

  -- The log holds the entries `es` at the offsets from `start` on, and the next one is free.
  pub record Logs (w : Wal) (start : ℕ) (es : List Entry) : Type 0 where
    pub chain : Chain start (segments w) es
    pub next_is : w.next_offset ≡ start + length es

  -- The entries of the segments before the last one, and those of the last.
  pub record Last (start : ℕ) (segs : List Segment) (seg : Segment) (es : List Entry) : Type 0 where
    pub early : List Entry
    pub late : List Entry
    pub split : es ≡ early ++ late
    pub chain : Chain start segs early
    pub base : seg.base_offset ≡ start + length early
    pub holds : Holds crc seg late

  pub Chain-Last :
      (start : ℕ) (segs : List Segment) (seg : Segment) (es : List Entry)
      → Chain start (segs ++ (seg ∷ [])) es
      → Last start segs seg es
  Chain-Last start [] seg es (xs, ys, e, b, h, c) = record {
    early = [];
    late = xs;
    split = rw (e, c) (append-nil xs);
    chain = refl;
    base = rw add-zero b;
    holds = h;
  }
  Chain-Last start (s ∷ segs) seg es (xs, ys, e, b, h, c) =
      let l = Chain-Last (start + length xs) segs seg ys c in
      record {
        early = xs ++ l.early;
        late = l.late;
        split = e ∙ ap (λ t. xs ++ t) l.split ∙ sym (append_assoc xs l.early l.late);
        chain = (xs, l.early, refl, b, h, l.chain);
        base = omega (arith, l.base, length-append xs l.early);
        holds = l.holds;
      }

  pub Last-Chain :
      (start : ℕ) (segs : List Segment) (seg : Segment) (es : List Entry)
      → Last start segs seg es
      → Chain start (segs ++ (seg ∷ [])) es
  Last-Chain start [] seg es l = (
    l.late,
    [],
    l.split ∙ ap (λ t. t ++ l.late) l.chain ∙ sym (append-nil l.late),
    omega (arith, l.base, ap (λ (t : List Entry). length t) l.chain),
    l.holds,
    refl,
  )
  Last-Chain start (s ∷ segs) seg es l =
      let (xs, ys, e, b, h, c) = l.chain in
      (
        xs,
        ys ++ l.late,
        l.split ∙ ap (λ t. t ++ l.late) e ∙ append_assoc xs ys l.late,
        b,
        h,
        Last-Chain (start + length xs) segs seg (ys ++ l.late) (record {
          early = ys;
          late = l.late;
          split = refl;
          chain = c;
          base = omega (arith, l.base, ap (λ (t : List Entry). length t) e, length-append xs ys);
          holds = l.holds;
        }),
      )
