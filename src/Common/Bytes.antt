-- ===== src/Common/Bytes.antt =====
-- common/src/lib.rs: messages as bytes. `serde_json` and the check for UTF-8 are not the
-- program's: a `Codec` states what it relies on.
use kollaps.Prelude.{
  ℕ, ◌+◌, ◌*◌, ◌/◌, ◌%◌, ◌<◌, ◌≡◌, ◌≢◌, refl, Bool, true, Option, none, some, List, [], ◌∷◌, arith,
  if◌then◌else◌,
}

-- `ErrorKind::OpcodeNotRecognized`, the error of a payload that does not parse, and a panic.
pub data Failure : Type 0 where
  opcode_not_recognized not_deserialized panic : Failure

pub data Result {ℓ} (A : Type ℓ) : Type ℓ where
  ok : A → Result A
  err : Failure → Result A

-- A value is written as text in UTF-8 that is not empty. The values in `IsKept` are read back; a
-- value with a float that is infinite or no number, which is written as `null`, is not.
pub record PartialCodec (is_utf8 : List ℕ → Bool) (A : Type 0) (IsKept : A → Type 0) : Type 0 where
  pub encode : A → List ℕ
  pub decode : List ℕ → Option A
  pub decode-encode : (a : A) → IsKept a → decode (encode a) ≡ some a
  pub encode-utf8 : (a : A) → is_utf8 (encode a) ≡ true
  pub encode-nonempty : (a : A) → encode a ≢ []

-- Every value of a type without floats is read back.
abbrev pub Codec : (List ℕ → Bool) → Type 0 → Type 0
Codec is_utf8 A = PartialCodec is_utf8 A (λ _. Unit)

-- `put_u16`: the more significant byte first.
unfoldable pub put_u16 : ℕ → List ℕ → List ℕ
put_u16 n rest = n / 256 % 256 ∷ n % 256 ∷ rest

-- `deserialize::<A>(data)?`, and the constructor of the message.
unfoldable pub deserialized {ℓ} :
    {u : List ℕ → Bool} {A : Type 0} {K : A → Type 0} {B : Type ℓ}
    → PartialCodec u A K
    → (A → B)
    → Option (List ℕ)
    → Result B
deserialized c f none = err opcode_not_recognized
deserialized c f (some payload) = elim (c.decode payload) [
  | none ↦ err not_deserialized
  | some a ↦ ok (f a)
]

-- `from_bytes`: the opcode, and the payload if there is one. `get_u16` panics on fewer than two
-- bytes, and `unwrap` on a payload that is not UTF-8.
unfoldable pub from_bytes_with {ℓ} :
    {B : Type ℓ} → (List ℕ → Bool) → (ℕ → Option (List ℕ) → Result B) → List ℕ → Result B
from_bytes_with is_utf8 f (hi ∷ lo ∷ []) = f (hi * 256 + lo) none
from_bytes_with is_utf8 f (hi ∷ lo ∷ b ∷ bs) =
    if is_utf8 (b ∷ bs) then f (hi * 256 + lo) (some (b ∷ bs)) else err panic
from_bytes_with is_utf8 f _ = err panic

module _ {ℓ} {B : Type ℓ} (is_utf8 : List ℕ → Bool) (f : ℕ → Option (List ℕ) → Result B) where
  pub from_bytes-bare : (n : ℕ) → n < 65536 → from_bytes_with is_utf8 f (put_u16 n []) ≡ f n none
  unfolding from_bytes_with put_u16
  from_bytes-bare n h = let e : n / 256 % 256 * 256 + n % 256 ≡ n = omega arith in rw e

  full :
      (n : ℕ) (payload : List ℕ)
      → n < 65536
      → payload ≢ []
      → is_utf8 payload ≡ true
      → from_bytes_with is_utf8 f (put_u16 n payload) ≡ f n (some payload)
  unfolding from_bytes_with put_u16
  full n [] h some_byte text = absurd (some_byte refl)
  full n (b ∷ bs) h some_byte text =
      let e : n / 256 % 256 * 256 + n % 256 ≡ n = omega arith in rw (text, e)

  -- A message with a payload reaches the decoder as it was written.
  pub from_bytes-full :
      {A : Type 0} {K : A → Type 0} (c : PartialCodec is_utf8 A K) (n : ℕ) (a : A)
      → n < 65536
      → from_bytes_with is_utf8 f (put_u16 n (c.encode a)) ≡ f n (some (c.encode a))
  from_bytes-full c n a h = full n (c.encode a) h (c.encode-nonempty a) (c.encode-utf8 a)

pub deserialized-encode {ℓ} :
    {u : List ℕ → Bool} {A : Type 0} {K : A → Type 0} {B : Type ℓ} (c : PartialCodec u A K)
    (f : A → B) (a : A)
    → K a
    → deserialized c f (some (c.encode a)) ≡ ok (f a)
unfolding deserialized
deserialized-encode c f a kept = rw (deserialized, c.decode-encode a kept)
