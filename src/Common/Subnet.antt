-- ===== src/Common/Subnet.antt =====
-- common/src/subnet.rs: masks and the CIDR notation.
--
-- A mask is its four bytes, from the most significant on. An address is a value of a type of its
-- own: parsing it is the standard library's.
use Prim.Native.Nat.{bit_or}
use mathlib.Core.Bool.{false≢true}
use kollaps.Prelude.{
  ℕ, zero, suc, ◌+◌, ◌-◌, ◌*◌, ◌/◌, ◌%◌, ◌^◌, ◌≤◌, ◌<◌, ◌≡◌, refl, Bool, true, false, not, ◌&&◌,
  Option, none, some, List, [], ◌∷◌, ◌++◌, arith, ltb, ◌==◌, ==→≡, if◌then◌else◌, get_elem?, set,
  ℕ_discrete, ◌>>=◌,
}

pub record IpMask : Type 0 where
  pub bytes : List ℕ

-- The zero bits of `b` from the least significant on, and whether all eight are zero: the inner
-- loop of `to_cidr`, which leaves both loops by `break 'external` at the first one.
count_zeros : ℕ → ℕ → ℕ → ℕ × Bool
count_zeros zero bit_count b = (0, true)
count_zeros (suc left) bit_count b =
    let (zeros, all) = count_zeros left (bit_count + 1) b in
    if b / 2 ^ bit_count % 2 == 0 then (suc zeros, all) else (0, false)

zeros_count : List ℕ → ℕ
unfolding count_zeros
zeros_count [] = 0
zeros_count (b ∷ bs) =
    let (zeros, all) = count_zeros 8 0 b in
    let rest = zeros_count bs in if all then zeros + rest else zeros

reverse_bytes : List ℕ → List ℕ
reverse_bytes [] = []
reverse_bytes (b ∷ bs) = reverse_bytes bs ++ b ∷ []

pub to_cidr : IpMask → ℕ
unfolding zeros_count reverse_bytes
to_cidr m = 32 - zeros_count (reverse_bytes m.bytes)

-- The loop of `Subnet::from((ip, length))`, with `left` rounds from `i` on. An index outside the
-- array is a panic.
fill_mask : ℕ → ℕ → ℕ → List ℕ → Option (List ℕ)
fill_mask zero i mask_index mask = some mask
fill_mask (suc left) i mask_index mask =
    let next = (if not (i == 0) && i % 8 == 0 then mask_index + 1 else mask_index) in
    get_elem? mask next >>= λ b.
    fill_mask left (i + 1) next (set mask next (bit_or b (128 / 2 ^ (i % 8))))

pub record Subnet (Ip : Type 0) : Type 0 where
  pub ip : Ip
  pub mask : IpMask

-- `none` is a panic: a prefix longer than 32, or an address that does not parse.
pub subnet_from : {Text Ip : Type 0} → (Text → Option Ip) → Text → ℕ → Option (Subnet Ip)
unfolding fill_mask
subnet_from parse text prefix = if ltb 32 prefix then none else (do
  ip ← parse text
  bytes ← fill_mask prefix 0 0 (0 ∷ 0 ∷ 0 ∷ 0 ∷ [])
  some (record { ip = ip; mask = record { bytes = bytes } }))

-- What `Display` prints behind the address.
pub printed_prefix : {Ip : Type 0} → Subnet Ip → ℕ
unfolding to_cidr
printed_prefix s = to_cidr s.mask

-- The mask whose first `prefix` bits are one, by its value as a 32-bit number.
abbrev value_from : ℕ → List ℕ → ℕ
value_from acc [] = acc
value_from acc (b ∷ bs) = value_from (acc * 256 + b) bs

abbrev pub mask_value : IpMask → ℕ
mask_value m = value_from 0 m.bytes

-- The mask of a prefix is read back, and has the value of the notation.
abbrev IsMaskOf : ℕ → List ℕ → Type 0
IsMaskOf prefix bytes =
    (to_cidr (record { bytes = bytes }) ≡ prefix)
    × (mask_value (record { bytes = bytes }) ≡ 2 ^ 32 - 2 ^ (32 - prefix))

passes : ℕ → Option (List ℕ) → Bool
unfolding to_cidr
passes prefix none = false
passes prefix (some bytes) =
    to_cidr (record { bytes = bytes }) == prefix
    && mask_value (record { bytes = bytes }) == 2 ^ 32 - 2 ^ (32 - prefix)

&&-split : (a b : Bool) → (a && b) ≡ true → (a ≡ true) × (b ≡ true)
&&-split true b h = (refl, h)
&&-split false b h = cc

passes_sound :
    (prefix : ℕ) (o : Option (List ℕ))
    → passes prefix o ≡ true
    → (bytes : List ℕ) × (o ≡ some bytes) × IsMaskOf prefix bytes
unfolding passes
passes_sound prefix none h = absurd (false≢true h)
passes_sound prefix (some bytes) h =
    let (a, b) = &&-split _ _ h in (bytes, refl, (==→≡ _ _ a, ==→≡ _ _ b))

round_trip : ℕ → Bool
unfolding fill_mask passes
round_trip prefix = passes prefix (fill_mask prefix 0 0 (0 ∷ 0 ∷ 0 ∷ 0 ∷ []))

-- `left` prefixes are read back, from `first` on.
read_back : ℕ → ℕ → Bool
unfolding round_trip
read_back zero first = true
read_back (suc left) first = round_trip first && read_back left (first + 1)

read_back_each :
    (left first prefix : ℕ)
    → read_back left first ≡ true
    → first ≤ prefix
    → prefix < first + left
    → round_trip prefix ≡ true
unfolding read_back
read_back_each zero first prefix tests low high = absurd (omega arith)
read_back_each (suc left) first prefix tests low high =
    let (now, later) = &&-split (round_trip first) (read_back left (first + 1)) tests in
    elim (ℕ_discrete first prefix) [
      | yes here ↦ rw (← here) now
      | no beyond ↦ read_back_each left (first + 1) prefix later (omega arith) (omega arith)
    ]

all_prefixes : read_back 33 0 ≡ true
unfolding read_back
all_prefixes = refl

fill_mask_lem :
    (prefix : ℕ)
    → prefix ≤ 32
    → (bytes : List ℕ) × (fill_mask prefix 0 0 (0 ∷ 0 ∷ 0 ∷ 0 ∷ []) ≡ some bytes)
      × IsMaskOf prefix bytes
unfolding round_trip
fill_mask_lem prefix h =
    passes_sound prefix _ (read_back_each 33 0 prefix all_prefixes (omega arith) (omega arith))

module _ {Text Ip : Type 0} (parse : Text → Option Ip) (text : Text) (prefix : ℕ) where
  -- A prefix of at most 32 gives the mask with that many leading ones, and is printed back.
  pub printed_prefix-subnet_from :
      (ip : Ip)
      → parse text ≡ some ip
      → prefix ≤ 32
      → (s : Subnet Ip) × (subnet_from parse text prefix ≡ some s)
        × (s.ip ≡ ip)
        × (printed_prefix s ≡ prefix)
        × (mask_value s.mask ≡ 2 ^ 32 - 2 ^ (32 - prefix))
  unfolding subnet_from printed_prefix
  printed_prefix-subnet_from ip parsed h =
      let (bytes, e, (back, value)) = fill_mask_lem prefix h in
      let short : ltb 32 prefix ≡ false = ground arith in
      (
        record { ip = ip; mask = record { bytes = bytes } },
        rw (short, parsed, e),
        refl,
        back,
        value,
      )
