-- ===== src/Path/Failures.antt =====
-- When `serializePath` accepts its arguments.
use app_flow.Prelude.{
  ℕ, zero, suc, ◌+◌, ◌-◌, ◌*◌, ◌^◌, ◌≡◌, ◌↔◌, refl, ap, ◌∙◌, true, false, List, [], ◌∷◌, arith,
  Text, Bytes, All, length, drop, set, Result, ok, ◌>>=◌, >>=-eq-ok, ok-injective, sym, replicate,
}
use app_flow.Js.Number.{JsNumber, gt, is_negative}
use app_flow.Js.Strings.{split, starts_with}
use app_flow.Js.Buffer.{le_bytes, store, write_uint_le, truncated}
use app_flow.Path.{
  PathArg, text, not_text, PathError, child_value, write_children, serialize_path, lift,
}

-- The value fits an unsigned field of `k` bytes.
abbrev pub InRange : ℕ → JsNumber → Type 0
InRange k x = (gt x (256 ^ k - 1) ≡ false) × (is_negative x ≡ false)

-- The item is read as a value that fits four bytes.
abbrev pub IsWritable : Text → Type 0
IsWritable child = (x : JsNumber) × (child_value child ≡ ok x) × InRange 4 x

pub write_uint_le_fits :
    (k : ℕ) (buf : Bytes) (x : JsNumber) (i : ℕ)
    → InRange k x
    → write_uint_le k buf x i ≡ ok (store buf i (le_bytes k (truncated x)))
unfolding write_uint_le
write_uint_le_fits k buf x i h = rw (h.0, h.1)

write_uint_le-InRange :
    (k : ℕ) (buf : Bytes) (x : JsNumber) (i : ℕ) {b : Bytes}
    → lift (write_uint_le k buf x i) ≡ ok b
    → InRange k x
unfolding write_uint_le
write_uint_le-InRange k buf x i h = ground arith

length-set : (xs : Bytes) (i v : ℕ) → length (set xs i v) ≡ length xs
length-set [] i v = refl
length-set (x ∷ xs) zero v = refl
length-set (x ∷ xs) (suc i) v = ap suc (length-set xs i v)

length-store : (buf : Bytes) (i : ℕ) (bs : Bytes) → length (store buf i bs) ≡ length buf
length-store buf i [] = refl
length-store buf i (b ∷ bs) = length-store (set buf i b) (suc i) bs ∙ length-set buf i b

write_children-IsWritable :
    (children : List Text) (i : ℕ) (buf : Bytes) {b : Bytes}
    → write_children children i buf ≡ ok b
    → All IsWritable children
unfolding write_children
write_children-IsWritable [] i buf h = tt
write_children-IsWritable (child ∷ rest) i buf h =
    let (x, hx, k) = >>=-eq-ok (child_value child) _ h in
    let (buf', w, k') = >>=-eq-ok (lift (write_uint_le 4 buf x (4 * (i - 1)))) _ k in
    ((x, hx, write_uint_le-InRange 4 buf x _ w), write_children-IsWritable rest (i + 1) buf' k')

write_children_total :
    (children : List Text) (i : ℕ) (buf : Bytes)
    → All IsWritable children
    → (b : Bytes) × (write_children children i buf ≡ ok b) × (length b ≡ length buf)
unfolding write_children
write_children_total [] i buf _ = (buf, refl, refl)
write_children_total (child ∷ rest) i buf ((x, hx, hr), hs) =
    let b' = store buf (4 * (i - 1)) (le_bytes 4 (truncated x)) in
    let (b, e, l) = write_children_total rest (i + 1) b' hs in
    (
      b,
      rw (hx, write_uint_le_fits 4 buf x (4 * (i - 1)) hr) e,
      l ∙ length-store buf (4 * (i - 1)) (le_bytes 4 (truncated x)),
    )

-- What the text and the options must be.
abbrev pub IsAccepted : Text → JsNumber → Type 0
IsAccepted path options =
    (starts_with b'm' path ≡ true)
    × (length (split b'/' path) ≡ 6)
    × InRange 2 options
    × All IsWritable (drop 1 (split b'/' path))

-- What `serialize_path` does behind its two tests.
abbrev written : Text → JsNumber → Result PathError Bytes
written path options =
    lift (write_uint_le 2 (replicate 22 0) options 20)
    >>= write_children (drop 1 (split b'/' path)) 1

serialize_path-guards :
    (path : Text) (options : JsNumber) {buf : Bytes}
    → serialize_path (text path) options ≡ ok buf
    → (starts_with b'm' path ≡ true)
      × (length (split b'/' path) ≡ 6)
      × (written path options ≡ ok buf)
unfolding serialize_path
serialize_path-guards path options h = ground arith

serialize_path-written :
    (path : Text) (options : JsNumber)
    → starts_with b'm' path ≡ true
    → length (split b'/' path) ≡ 6
    → serialize_path (text path) options ≡ written path options
unfolding serialize_path
serialize_path-written path options hm h6 = rw (hm, h6)

serialize_path-IsAccepted :
    (path : Text) (options : JsNumber) {buf : Bytes}
    → serialize_path (text path) options ≡ ok buf
    → IsAccepted path options
serialize_path-IsAccepted path options h =
    let (hm, h6, w) = serialize_path-guards path options h in
    let (first, f, rest) = >>=-eq-ok (lift (write_uint_le 2 (replicate 22 0) options 20)) _ w in
    (hm, h6, write_uint_le-InRange 2 _ options 20 f, write_children-IsWritable _ 1 first rest)

-- `serializePath` returns 22 bytes exactly on a text that starts with `m` and has six parts, of which
-- each after the first is read as a value that fits 32 bits, and on options that fit 16 bits.
pub serialize_path_iff :
    (path : Text) (options : JsNumber)
    → ((buf : Bytes) × (serialize_path (text path) options ≡ ok buf) × (length buf ≡ 22))
      ↔ IsAccepted path options
serialize_path_iff path options = (
  λ (buf, h, _). serialize_path-IsAccepted path options h,
  λ (hm, h6, fits, writable).
      let first = store (replicate 22 0) 20 (le_bytes 2 (truncated options)) in
      let (buf, e, l) = write_children_total (drop 1 (split b'/' path)) 1 first writable in
      (
        buf,
        serialize_path-written path options hm h6
            ∙ rw (write_uint_le_fits 2 (replicate 22 0) options 20 fits) e,
        l,
      ),
)

-- A path that is serialized has 22 bytes.
pub length-serialize_path :
    (path : PathArg) (options : JsNumber) (buf : Bytes)
    → serialize_path path options ≡ ok buf
    → length buf ≡ 22
unfolding serialize_path
length-serialize_path not_text options buf h = absurd (ground arith)
length-serialize_path (text path) options buf h =
    let accepted = serialize_path-IsAccepted path options h in
    let (same, e, size) = (serialize_path_iff path options).1 accepted in
    ap length (ok-injective (sym h ∙ e)) ∙ size
