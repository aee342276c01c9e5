-- ===== src/Bytes/BigEndian.antt =====
-- encoding/binary's big-endian integers: `put_uint n v` is the `n` bytes that PutUint16, PutUint32
-- and PutUint64 write (n = 2, 4, 8), and `uint bs` is what Uint16, Uint32 and Uint64 read.
use native.Mathlib.Nat.{
  one-le-pow, mul-add-div_right, mul-add-mod_self_right, div-eq_of_lt, div-add-mod,
  div-div-eq-div-mul, mod-eq_of_lt, pow-suc, mul-le-mul_right, le-pred_of_lt,
}
use tumbleweed.Base.{
  ℕ, zero, suc, ◌+◌, ◌*◌, ◌/◌, ◌%◌, ◌^◌, ◌<◌, ◌≡◌, refl, ap, ◌∙◌, List, [], ◌∷◌, length, All, arith,
}

abbrev pub IsByte : ℕ → Type 0
IsByte b = b < 256

unfoldable pub put_uint : ℕ → ℕ → List ℕ
put_uint zero v = []
put_uint (suc n) v = (v / 256 ^ n % 256) ∷ put_uint n v

unfoldable pub uint : List ℕ → ℕ
uint [] = 0
uint (b ∷ bs) = b * 256 ^ length bs + uint bs

pub length-put_uint : (n v : ℕ) → length (put_uint n v) ≡ n
unfolding put_uint
length-put_uint zero v = refl
length-put_uint (suc n) v = ap suc (length-put_uint n v)

pub put_uint-IsByte : (n v : ℕ) → All IsByte (put_uint n v)
unfolding put_uint
put_uint-IsByte zero v = tt
put_uint-IsByte (suc n) v = (omega arith, put_uint-IsByte n v)

split_top : (m v : ℕ) → v / m % 256 * m + v % m ≡ v % (m * 256)
split_top m v = omega (
  arith,
  div-add-mod v m,
  ap (λ (t : ℕ). m * t) (div-add-mod (v / m) 256),
  div-add-mod v (m * 256),
  ap (λ (t : ℕ). m * 256 * t) (div-div-eq-div-mul v m 256),
)

-- `n` bytes hold a number modulo 256 ^ n.
pub uint-put_uint : (n v : ℕ) → uint (put_uint n v) ≡ v % 256 ^ n
unfolding uint put_uint
uint-put_uint zero v = omega arith
uint-put_uint (suc n) v =
    rw (length-put_uint n v, uint-put_uint n v, pow-suc 256 n) (split_top (256 ^ n) v)

-- A number that fits is read back.
pub uint-put_uint_fits : (n v : ℕ) → v < 256 ^ n → uint (put_uint n v) ≡ v
uint-put_uint_fits n v h = uint-put_uint n v ∙ mod-eq_of_lt h

-- What `n` bytes hold is below 256 ^ n.
pub uint-lt : (bs : List ℕ) → All IsByte bs → uint bs < 256 ^ length bs
unfolding uint
uint-lt [] h = omega arith
uint-lt (b ∷ bs) h =
    rw (pow-suc 256 (length bs))
      (grind (arith, uint-lt bs h.1, mul-le-mul_right (256 ^ length bs) (le-pred_of_lt h.0)))

pow_pos : (n : ℕ) → 0 < 256 ^ n
pow_pos n = one-le-pow n 256 (omega arith)

shift_digits : (n a : ℕ) → a * 256 ^ suc n ≡ a * 256 * 256 ^ n
shift_digits n a = rw (pow-suc 256 n) (omega arith)

-- Only the low `n` bytes of a number are written.
put_uint-add : (n a u : ℕ) → put_uint n (a * 256 ^ n + u) ≡ put_uint n u
unfolding put_uint
put_uint-add zero a u = refl
put_uint-add (suc n) a u = rw (
  shift_digits n a,
  put_uint-add n (a * 256) u,
  mul-add-div_right (pow_pos n) (a * 256) u,
  ← mul-add-mod_self_right a 256 (u / 256 ^ n),
)

-- Writing what was read gives the bytes back.
pub put_uint-uint : (bs : List ℕ) → All IsByte bs → put_uint (length bs) (uint bs) ≡ bs
unfolding uint put_uint
put_uint-uint [] h = refl
put_uint-uint (b ∷ bs) h =
    rw
      (
        put_uint-add (length bs) b (uint bs),
        put_uint-uint bs h.1,
        mul-add-div_right (pow_pos (length bs)) b (uint bs),
        div-eq_of_lt (uint-lt bs h.1),
      )
      (ap (λ t. t ∷ bs) (omega (arith, h.0)))
