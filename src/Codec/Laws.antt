-- ===== src/Codec/Laws.antt =====
-- Round trips of the packed bytes, and the bounds of the decoded lists.
use neohabitat.Prelude.{ℕ, ◌*◌, ◌/◌, ◌%◌, ◌<◌, ◌≡◌, refl, arith}
use neohabitat.Codec.Bytes.{
  minus, signed_byte, HowHeld, decode_how_held, encode_how_held, CelType, decode_cel_type,
  encode_cel_type, Side, decode_side, encode_side, decode_walkto, upper_bits, encode_walkto,
}

held_trip : (h : HowHeld) → decode_how_held (encode_how_held h) ≡ h
unfolding decode_how_held encode_how_held
held_trip HowHeld.swing = refl
held_trip HowHeld.out = refl
held_trip HowHeld.both = refl
held_trip HowHeld.at_side = refl

type_trip : (t : CelType) → decode_cel_type (encode_cel_type t) ≡ t
unfolding decode_cel_type encode_cel_type
type_trip CelType.bitmap = refl
type_trip CelType.text = refl
type_trip CelType.trap = refl
type_trip CelType.box = refl
type_trip CelType.circle = refl

side_trip : (s : Side) → decode_side (encode_side s) ≡ s
unfolding decode_side encode_side
side_trip Side.left = refl
side_trip Side.right = refl
side_trip Side.up = refl
side_trip Side.down = refl

held_bits : (b : ℕ) → b < 256 → encode_how_held (decode_how_held b) ≡ b / 64 * 64
unfolding decode_how_held encode_how_held
held_bits b h = ground arith

side_bits : (b : ℕ) → encode_side (decode_side b) ≡ b % 4
unfolding decode_side encode_side
side_bits b = ground arith

-- Decoding inverts the encoding of a way to hold, of a cel type and of a side; and encoding a decoded
-- byte gives the bits of the byte that a way to hold or a side uses.
pub fields_round_trip :
    ((h : HowHeld) → decode_how_held (encode_how_held h) ≡ h)
    × ((t : CelType) → decode_cel_type (encode_cel_type t) ≡ t)
    × ((s : Side) → decode_side (encode_side s) ≡ s)
    × ((b : ℕ) → b < 256 → encode_how_held (decode_how_held b) ≡ b / 64 * 64)
    × ((b : ℕ) → encode_side (decode_side b) ≡ b % 4)
fields_round_trip = (held_trip, type_trip, side_trip, held_bits, side_bits)

upper_signed : (n : ℕ) → n < 64 → upper_bits (signed_byte (n * 4)) ≡ n * 4
unfolding upper_bits signed_byte minus
upper_signed n h = ground arith

-- Encoding a decoded walk-to byte gives the byte back.
pub encode_walkto-decode_walkto : (b : ℕ) → b < 256 → encode_walkto (decode_walkto b) ≡ b
unfolding encode_walkto decode_walkto
encode_walkto-decode_walkto b h =
    let u : upper_bits (signed_byte (b / 4 % 64 * 4)) ≡ b / 4 % 64 * 4 =
      upper_signed (b / 4 % 64) (omega arith) in
    omega (arith, u, side_bits b)
