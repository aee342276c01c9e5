-- ===== src/Wal/Log/Entries.antt =====
-- pkg/wal/wal.go: the entries that a log in order holds.
use tumbleweed.Base.{ℕ, ◌+◌, sym, subst, List, [], ◌∷◌, ◌++◌, length, All}
use tumbleweed.Wal.Encoding.Layout.{Entry, EntryFits}
use tumbleweed.Wal.SegmentFile.{Segment}
use tumbleweed.Wal.{Wal, segments}
use tumbleweed.Wal.Log.{Chain, Logs}

module _ {A : Type 0} (P : A → Type 0) where
  append-All : (xs ys : List A) → All P xs → All P ys → All P (xs ++ ys)
  append-All [] ys h k = k
  append-All (x ∷ xs) ys h k = (h.0, append-All xs ys h.1 k)

  pub All-middle : (front : List A) (x : A) (back : List A) → All P (front ++ (x ∷ back)) → P x
  All-middle [] x back h = h.0
  All-middle (y ∷ front) x back h = All-middle front x back h.1

module _ (crc : List ℕ → ℕ) where
  Chain-EntryFits :
      (start : ℕ) (segs : List Segment) (es : List Entry)
      → Chain crc start segs es
      → All EntryFits es
  Chain-EntryFits start [] es e = subst (All EntryFits) (sym e) tt
  Chain-EntryFits start (seg ∷ segs) es (xs, ys, e, b, h, c) =
      subst (All EntryFits) (sym e)
        (append-All EntryFits xs ys h.entries_fit (Chain-EntryFits (start + length xs) segs ys c))

  pub Logs-EntryFits :
      (w : Wal) (start : ℕ) (es : List Entry) → Logs crc w start es → All EntryFits es
  Logs-EntryFits w start es h = Chain-EntryFits start (segments w) es h.chain
