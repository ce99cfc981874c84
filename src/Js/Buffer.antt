-- ===== src/Js/Buffer.antt =====
-- Node's `Buffer`, a list of bytes: little-endian reads and writes, and `slice`.
use native.Mathlib.Nat.{mul-div_cancel}
use app_flow.Prelude.{
  ℕ, zero, suc, ◌+◌, ◌-◌, ◌*◌, ◌/◌, ◌%◌, ◌^◌, ◌≤◌, ◌<◌, ◌≡◌, false, ◌||◌, [], ◌∷◌, arith,
  if◌then◌else◌, Bytes, IsByte, All, set, take, drop, Result, ok, err,
}
use app_flow.Js.Number.{JsNumber, finite, unit, unit-pos, gt, gt-of_ℕ, is_negative, of_ℕ}

-- The value is out of the range of the field.
pub data RangeError : Type 0 where
  out_of_range : RangeError

-- `n` in `k` bytes, the lowest first.
abbrev pub le_bytes : ℕ → ℕ → Bytes
le_bytes zero n = []
le_bytes (suc k) n = n % 256 ∷ le_bytes k (n / 256)

abbrev pub from_le : Bytes → ℕ
from_le [] = 0
from_le (b ∷ bs) = b + 256 * from_le bs

-- What a number stores: NaN counts as 0, and a fraction is cut off.
unfoldable pub truncated : JsNumber → ℕ
truncated (finite false u) = u / unit
truncated _ = 0

abbrev pub store : Bytes → ℕ → Bytes → Bytes
store buf i [] = buf
store buf i (b ∷ bs) = store (set buf i b) (suc i) bs

-- `buf.writeUInt16LE(x, i)` is `write_uint_le 2`, `buf.writeUInt32LE(x, i)` is `write_uint_le 4`.
unfoldable pub write_uint_le : ℕ → Bytes → JsNumber → ℕ → Result RangeError Bytes
write_uint_le k buf x i =
    if gt x (256 ^ k - 1) || is_negative x
    then err out_of_range
    else ok (store buf i (le_bytes k (truncated x)))

-- `buf.slice(start, end)`
abbrev pub slice : Bytes → ℕ → ℕ → Bytes
slice buf start end = take (end - start) (drop start buf)

-- `buf.readUInt32LE(i)` where the four bytes are there.
unfoldable pub read_uint32_le : Bytes → ℕ → ℕ
read_uint32_le buf i = from_le (slice buf i (i + 4))

pub truncated-of_ℕ : (n : ℕ) → truncated (of_ℕ n) ≡ n
unfolding truncated
truncated-of_ℕ n = mul-div_cancel n unit-pos

pub write_uint_le_whole :
    (k : ℕ) (buf : Bytes) (n i : ℕ)
    → n ≤ 256 ^ k - 1
    → write_uint_le k buf (of_ℕ n) i ≡ ok (store buf i (le_bytes k n))
unfolding write_uint_le is_negative
write_uint_le_whole k buf n i h = rw (gt-of_ℕ (256 ^ k - 1) n h, truncated-of_ℕ n)

pub from_le-le_bytes : (n : ℕ) → n < 2 ^ 32 → from_le (le_bytes 4 n) ≡ n
from_le-le_bytes n h = omega arith

pub le_bytes-IsByte : (k n : ℕ) → All IsByte (le_bytes k n)
le_bytes-IsByte zero n = tt
le_bytes-IsByte (suc k) n = (omega arith, le_bytes-IsByte k (n / 256))
