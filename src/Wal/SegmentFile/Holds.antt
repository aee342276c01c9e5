-- ===== src/Wal/SegmentFile/Holds.antt =====
-- pkg/wal/wal.go: what a segment in order looks like on disk.
use tumbleweed.Base.{
  ℕ, ◌+◌, ◌*◌, ◌^◌, ◌<◌, ◌≡◌, refl, ap, ◌∙◌, List, [], ◌∷◌, ◌++◌, length, All, append_assoc,
  append-nil, arith,
}
use native.Mathlib.Nat.{add-zero, zero-add}
use tumbleweed.Bytes.{put_uint, length-put_uint}
use tumbleweed.Bytes.Buffer.{sizes, length_bytes-append}
use tumbleweed.Wal.Encoding.Layout.{Entry, EntryFits, covered_layout, record_layout, length-covered}
use tumbleweed.Wal.SegmentFile.{Segment}

-- the bytes of a record with this key and value
abbrev pub record_size : Entry → ℕ
record_size e = 25 + length e.key + length e.value + 4

unfoldable pub log_size : List Entry → ℕ
log_size [] = 0
log_size (e ∷ es) = record_size e + log_size es

-- The index of records that stand one after the other from `pos` on.
unfoldable pub positions : ℕ → List Entry → List ℕ
positions pos [] = []
positions pos (e ∷ es) = put_uint 8 pos ++ positions (pos + record_size e) es

module _ (crc : List ℕ → ℕ) where
  -- Records with the offsets `offset`, `offset + 1`, …, one after the other.
  unfoldable pub records : ℕ → List Entry → List ℕ
  records offset [] = []
  records offset (e ∷ es) = record_layout crc offset e ++ records (offset + 1) es

  pub length-record : (offset : ℕ) (e : Entry) → length (record_layout crc offset e) ≡ record_size e
  length-record offset e =
      let c = covered_layout offset e in
      omega (
        arith,
        length_bytes-append c (put_uint 4 (crc c)),
        length-covered offset e,
        length-put_uint 4 (crc c),
      )

  pub length-records : (offset : ℕ) (es : List Entry) → length (records offset es) ≡ log_size es
  unfolding records log_size
  length-records offset [] = refl
  length-records offset (e ∷ es) = omega (
    arith,
    length_bytes-append (record_layout crc offset e) (records (offset + 1) es),
    length-record offset e,
    length-records (offset + 1) es,
  )

  pub records-append :
      (offset : ℕ) (xs ys : List Entry)
      → records offset (xs ++ ys) ≡ records offset xs ++ records (offset + length xs) ys
  unfolding records
  records-append offset [] ys = rw add-zero
  records-append offset (x ∷ xs) ys =
      rw (records-append (offset + 1) xs ys, append_assoc)
        (ap (λ n. record_layout crc offset x ++ (records (offset + 1) xs ++ records n ys))
          (omega arith))

  -- The files hold the records of `es` and then bytes that the sizes in memory do not count, such as
  -- what a failed write left.
  pub record Holds (seg : Segment) (es : List Entry) : Type 0 where
    pub spare : List ℕ
    pub log_is : seg.log ≡ records seg.base_offset es ++ spare
    pub size_is : seg.size ≡ log_size es
    pub idx_spare : List ℕ
    pub index_is : seg.index ≡ positions 0 es ++ idx_spare
    pub idx_size_is : seg.idx_size ≡ 8 * length es
    pub entries_fit : All EntryFits es
    -- no machine number overflows
    pub offsets_fit : seg.base_offset + length es < 2 ^ 60
    pub log_fits : log_size es < 2 ^ 63

pub length-positions : (pos : ℕ) (es : List Entry) → length (positions pos es) ≡ 8 * length es
unfolding positions
length-positions pos [] = refl
length-positions pos (e ∷ es) = omega (sizes, length-positions (pos + record_size e) es)

pub log_size-append : (xs ys : List Entry) → log_size (xs ++ ys) ≡ log_size xs + log_size ys
unfolding log_size
log_size-append [] ys = omega arith
log_size-append (x ∷ xs) ys = omega (arith, log_size-append xs ys)

pub positions-append :
    (pos : ℕ) (xs ys : List Entry)
    → positions pos (xs ++ ys) ≡ positions pos xs ++ positions (pos + log_size xs) ys
unfolding positions log_size
positions-append pos [] ys = rw add-zero
positions-append pos (x ∷ xs) ys =
    rw (positions-append (pos + record_size x) xs ys, append_assoc)
      (ap (λ n. put_uint 8 pos ++ (positions (pos + record_size x) xs ++ positions n ys))
        (omega arith))

-- The files around one entry.
pub positions-at :
    (front back : List Entry) (e : Entry) (spare : List ℕ)
    → positions 0 (front ++ (e ∷ back)) ++ spare
      ≡ positions 0 front
        ++ (put_uint 8 (log_size front)
            ++ (positions (log_size front + record_size e) back ++ spare))
unfolding positions
positions-at front back e spare =
    rw (positions-append 0 front (e ∷ back), zero-add (log_size front)) (simp append_assoc)

pub records-at :
    (crc : List ℕ → ℕ) (base : ℕ) (front back : List Entry) (e : Entry) (spare : List ℕ)
    → records crc base (front ++ (e ∷ back)) ++ spare
      ≡ records crc base front
        ++ (record_layout crc (base + length front) e
            ++ (records crc (base + length front + 1) back ++ spare))
unfolding records
records-at crc base front back e spare = rw (records-append crc base front (e ∷ back)) (
    append_assoc (records crc base front) _ spare
    ∙ ap (λ t. records crc base front ++ t)
        (append_assoc (record_layout crc (base + length front) e) _ spare))

pub All-at :
    (P : Entry → Type 0) (front back : List Entry) (e : Entry) → All P (front ++ (e ∷ back)) → P e
All-at P [] back e h = h.0
All-at P (x ∷ front) back e h = All-at P front back e h.1

-- One entry more.
pub last_position :
    (es : List Entry) (e : Entry)
    → positions 0 (es ++ (e ∷ [])) ≡ positions 0 es ++ put_uint 8 (log_size es)
unfolding positions
last_position es e = rw (positions-append 0 es (e ∷ []), zero-add (log_size es)) (simp append-nil)

pub last_record :
    (crc : List ℕ → ℕ) (base : ℕ) (es : List Entry) (e : Entry)
    → records crc base (es ++ (e ∷ []))
      ≡ records crc base es ++ record_layout crc (base + length es) e
unfolding records
last_record crc base es e =
    records-append crc base es (e ∷ [])
    ∙ ap (λ t. records crc base es ++ t) (append-nil (record_layout crc (base + length es) e))

pub last_size :
    (es : List Entry) (e : Entry) → log_size (es ++ (e ∷ [])) ≡ log_size es + record_size e
unfolding log_size
last_size es e = omega (arith, log_size-append es (e ∷ []))

-- A new pair of files holds nothing.
pub Holds-empty :
    (crc : List ℕ → ℕ) (base : ℕ)
    → base < 2 ^ 60
    → Holds crc (record { base_offset = base; log = []; index = []; size = 0; idx_size = 0 }) []
unfolding records positions log_size
Holds-empty crc base h = record {
  spare = [];
  log_is = refl;
  size_is = refl;
  idx_spare = [];
  index_is = refl;
  idx_size_is = refl;
  entries_fit = tt;
  offsets_fit = omega arith;
  log_fits = omega arith;
}

pub some_entry : (es : List Entry) → 0 < log_size es → 0 < length es
unfolding log_size
some_entry [] h = h
some_entry (e ∷ es) h = omega arith
