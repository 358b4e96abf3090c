-- ===== src/Codec/Cel.antt =====
-- The shapes of codec.js: `horizontalLine`, the texture of a trapezoid, and `decodeCel` with the
-- decoders of the cels `trap` and `text`.
use neohabitat.Prelude.{
  ℕ, zero, suc, ◌+◌, ◌-◌, ◌*◌, ◌/◌, ◌%◌, ◌^◌, ℤ, Bool, true, false, not, ◌&&◌, Option, none, some,
  List, [], ◌∷◌, ◌==◌, if◌then◌else◌, get_elem?,
}
use neohabitat.Codec.Bytes.{signed_byte, CelType, decode_cel_type}
use neohabitat.Codec.Bitmap.{draw_byte, empty_bitmap, decode_bitmap, decode_box}
use neohabitat.Codec.Props.{drop}

-- `n` bytes of the pattern, from `x` on
unfoldable pub draw_run : ℕ → ℕ → ℕ → ℕ → List (List ℕ) → List (List ℕ)
draw_run zero x y pattern b = b
draw_run (suc n) x y pattern b = draw_run n (x + 4) y pattern (draw_byte x y pattern false b)

-- `(0xff >> s) & p` and `(0xff << e) & p` of a byte `p`
unfoldable pub mask_start : ℕ → ℕ → ℕ
mask_start s p = p % 2 ^ (8 - s)

unfoldable pub mask_end : ℕ → ℕ → ℕ
mask_end e p = p / 2 ^ e * 2 ^ e

unfoldable pub horizontal_line : ℕ → ℕ → ℕ → ℕ → List (List ℕ) → List (List ℕ)
horizontal_line xa xb y pattern b =
    let x_start = xa - xa % 4 in
    let x_end = xb - xb % 4 in
    let b1 = draw_run ((x_end - x_start) / 4 - 1) (x_start + 4) y pattern b in
    let start_bit = (xa - x_start) * 2 in
    let end_bit = (x_end + 3 - xb) * 2 in
    if x_start == x_end
    then draw_byte x_start y (mask_start start_bit (mask_end end_bit pattern)) true b1
    else draw_byte x_end y (mask_end end_bit pattern) true
        (draw_byte x_start y (mask_start start_bit pattern) true b1)

-- `trapTextureToBitmap`: from the top down; a missing byte throws
unfoldable pub draw_row : ℕ → ℕ → ℕ → List ℕ → List (List ℕ) → Option (List (List ℕ) × List ℕ)
draw_row zero x y input b = some (b, input)
draw_row (suc n) x y [] b = none
draw_row (suc n) x y (byte ∷ input) b =
    draw_row n (x + 1) y input (draw_byte (x * 4) y byte false b)

unfoldable pub draw_rows : ℕ → ℕ → ℕ → List ℕ → List (List ℕ) → Option (List (List ℕ))
draw_rows zero width y input b = some b
draw_rows (suc n) width y input b = elim (draw_row width 0 y input b) [
  | none ↦ none
  | some (b', rest) ↦ draw_rows n width (y + 1) rest b'
]

unfoldable pub trap_texture_to_bitmap : ℕ → ℕ → List ℕ → Option (List (List ℕ))
trap_texture_to_bitmap w h input = draw_rows h w 0 input (empty_bitmap w h 0)

pub record Raw : Type 0 where
  pub width : ℕ
  pub x1a : ℕ
  pub x1b : ℕ
  pub x2a : ℕ
  pub x2b : ℕ

pub record Cel : Type 0 where
  pub changes_color_ram : Bool
  pub type : CelType
  pub width : ℕ
  pub height : ℕ
  pub x_offset : ℤ
  pub y_offset : ℤ
  pub x_rel : ℤ
  pub y_rel : ℤ
  pub border : Bool
  pub border_lr : Bool
  pub border_tb : Bool
  pub pattern : Option ℕ
  pub texture : Option (List (List ℕ))
  pub bitmap : Option (List (List ℕ))
  pub raw : Option Raw
  pub fine_x_offset : Option ℤ

-- a read, and what follows it
abbrev pub reads {ℓ κ} : {A : Type ℓ} {B : Type κ} → Option A → (A → Option B) → Option B
reads none f = none
reads (some a) f = f a

-- `(height & 0x80) != 0 && height != 0x80`
unfoldable pub has_border : ℕ → Bool
has_border height = not (height / 128 % 2 == 0) && not (height == 128)

unfoldable pub trap_border : Cel → Cel
trap_border c =
    if has_border c.height
    then record c { border = true; height = c.height % 128 }
    else record c { border = false }

unfoldable pub trap_fill : List ℕ → ℕ → Cel → Option Cel
trap_fill input flags c =
    if flags / 16 % 2 == 0
    then reads (get_elem? input 6) (λ p. some (record c { pattern = some p }))
    else reads (get_elem? input 11) (λ w. reads (get_elem? input 12) (λ h.
      reads (trap_texture_to_bitmap (w + 1) (h + 1) (drop 13 input))
        (λ t. some (record c { texture = some t }))))

unfoldable pub trap_raw : List ℕ → Cel → Option Cel
trap_raw input c = reads (get_elem? input 7) (λ a. reads (get_elem? input 8) (λ b.
    reads (get_elem? input 9) (λ d. reads (get_elem? input 10) (λ e.
      some (record c {
        raw = some (record { width = c.width; x1a = a; x1b = b; x2a = d; x2b = e });
      })))))

-- the decoder of each type; a circle has none
unfoldable pub decode_shape : List ℕ → ℕ → Cel → Option Cel
decode_shape input flags c = elim c.type [
  | CelType.bitmap ↦
      reads (decode_bitmap c.width c.height (drop 6 input))
        (λ b. some (record c { bitmap = some b }))
  | CelType.text ↦ reads (get_elem? input 6) (λ p.
      reads (get_elem? input 7)
        (λ o. some (record c { pattern = some p; fine_x_offset = some (signed_byte o) })))
  | CelType.trap ↦ reads (trap_fill input flags (trap_border c)) (trap_raw input)
  | CelType.box ↦ reads (get_elem? input 6) (λ p. some (record c {
    border_lr = not (flags / 32 % 2 == 0);
    border_tb = not (flags / 16 % 2 == 0);
    pattern = some p;
    bitmap = some (decode_box c.width c.height flags p);
  }))
  | CelType.circle ↦ some c
]

unfoldable pub decode_cel : List ℕ → Bool → Option Cel
decode_cel input changes = reads (get_elem? input 0) (λ flags. reads (get_elem? input 1) (λ height.
    reads (get_elem? input 2) (λ xo. reads (get_elem? input 3) (λ yo.
      reads (get_elem? input 4) (λ xr. reads (get_elem? input 5) (λ yr.
        decode_shape input flags (record {
          changes_color_ram = changes;
          type = decode_cel_type flags;
          width = flags % 16;
          height = height;
          x_offset = signed_byte xo;
          y_offset = signed_byte yo;
          x_rel = signed_byte xr;
          y_rel = signed_byte yr;
          border = false;
          border_lr = false;
          border_tb = false;
          pattern = none;
          texture = none;
          bitmap = none;
          raw = none;
          fine_x_offset = none;
        })))))))
