-- ===== src/Common/ErrorCodes.antt =====
-- Status words of responses and their texts.
use app_flow.Prelude.{
  ℕ, ◌+◌, ◌-◌, ◌*◌, ◌≡◌, ap, ◌∙◌, some, [], ◌∷◌, ◌++◌, arith, Bytes, length, drop, drop-append,
  length-append,
}
use app_flow.Common.{return_code, last_two, word_of}

pub last_two-append : (body : Bytes) (a b : ℕ) → last_two (body ++ a ∷ b ∷ []) ≡ a ∷ b ∷ []
last_two-append body a b =
    let e : length (body ++ a ∷ b ∷ []) - 2 ≡ length body =
      omega (arith, length-append body (a ∷ b ∷ [])) in
    ap (λ n. drop n (body ++ a ∷ b ∷ [])) e ∙ drop-append body (a ∷ b ∷ [])

-- The status word of a response is its last two bytes, the high one first.
pub return_code-append :
    (body : Bytes) (a b : ℕ) → return_code (body ++ a ∷ b ∷ []) ≡ some (a * 256 + b)
unfolding return_code
return_code-append body a b = ap word_of (last_two-append body a b)
