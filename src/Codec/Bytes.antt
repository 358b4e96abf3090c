-- ===== src/Codec/Bytes.antt =====
-- The packed bytes of codec.js. The encoders take the names that the decoders give; for any other
-- name they throw, which these types leave no room for.
use neohabitat.Prelude.{ℕ, zero, suc, ◌+◌, ◌-◌, ◌*◌, ◌/◌, ◌%◌, ℤ, pos, negsuc, ◌==◌, if◌then◌else◌}

-- `-n`
unfoldable pub minus : ℕ → ℤ
minus zero = pos 0
minus (suc n) = negsuc n

-- of a byte; `byte ^ 0xff` is 255 - byte
unfoldable pub signed_byte : ℕ → ℤ
signed_byte byte = if byte / 128 % 2 == 0 then pos byte else minus (255 - byte + 1)

pub data HowHeld : Type 0 where
  swing out both at_side : HowHeld

-- `byte & 0xc0`, in units of 0x40
unfoldable pub decode_how_held : ℕ → HowHeld
decode_how_held byte =
    let held = byte / 64 % 4 in
    if held == 0 then swing else if held == 1 then out else if held == 2 then both else at_side

unfoldable pub encode_how_held : HowHeld → ℕ
encode_how_held swing = 0
encode_how_held out = 64
encode_how_held both = 128
encode_how_held at_side = 192

pub data CelType : Type 0 where
  bitmap text trap box circle : CelType

unfoldable pub decode_cel_type : ℕ → CelType
decode_cel_type byte =
    let type = byte / 64 % 4 in
    if type == 0
    then if byte / 32 % 2 == 0 then bitmap else text
    else if type == 1
    then trap
    else if type == 2
    then box
    else circle

unfoldable pub encode_cel_type : CelType → ℕ
encode_cel_type bitmap = 0
encode_cel_type text = 32
encode_cel_type trap = 64
encode_cel_type box = 128
encode_cel_type circle = 192

pub data Side : Type 0 where
  left right up down : Side

unfoldable pub decode_side : ℕ → Side
decode_side byte =
    let side = byte % 4 in
    if side == 0 then left else if side == 1 then right else if side == 2 then up else down

unfoldable pub encode_side : Side → ℕ
encode_side left = 0
encode_side right = 1
encode_side up = 2
encode_side down = 3

pub record Walkto : Type 0 where
  pub from_side : Side
  pub offset : ℤ

-- `byte & 0xfc` of a byte
unfoldable pub decode_walkto : ℕ → Walkto
decode_walkto byte = record {
  from_side = decode_side byte;
  offset = signed_byte (byte / 4 % 64 * 4);
}

-- `n & 0xfc`, in two's complement
unfoldable pub upper_bits : ℤ → ℕ
upper_bits (pos n) = n / 4 % 64 * 4
upper_bits (negsuc n) = (255 - n % 256) / 4 * 4

-- the two parts of the `|` have no bit in common
unfoldable pub encode_walkto : Walkto → ℕ
encode_walkto w = encode_side w.from_side + upper_bits w.offset
