-- ===== src/Bytes/Stream.antt =====
-- io.ReadFull on the bytes that a reader still has.
use tumbleweed.Base.{
  ℕ, ◌≡◌, List, ◌++◌, length, take, drop, take-append, drop-append, leb, le→leb, ◌==◌,
  if◌then◌else◌, Result, ok, err, eof, unexpected_eof, ◌>>=◌,
}
use tumbleweed.Bytes.Buffer.{sizes}

-- `io.ReadFull` for `n` bytes: what was read, and what still arrives
unfoldable pub read_full : ℕ → List ℕ → Result (List ℕ × List ℕ)
read_full n stream =
    if leb n (length stream)
    then ok (take n stream, drop n stream)
    else if length stream == 0
    then err eof
    else err unexpected_eof

pub read_full-append :
    (n : ℕ) (xs ys : List ℕ) → n ≡ length xs → read_full n (xs ++ ys) ≡ ok (xs, ys)
unfolding read_full
read_full-append n xs ys e =
    rw (
      e,
      le→leb (length xs) (length (xs ++ ys)) (omega sizes),
      take-append xs ys,
      drop-append xs ys,
    )

pub read_full_passes {ℓ} :
    {A : Type ℓ} (n : ℕ) (xs ys : List ℕ) (f : List ℕ × List ℕ → Result A)
    → n ≡ length xs
    → (read_full n (xs ++ ys) >>= f) ≡ f (xs, ys)
read_full_passes n xs ys f e = rw (read_full-append n xs ys e)
