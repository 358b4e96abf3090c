-- ===== src/Codec/Bitmap.antt =====
-- Bitmaps of codec.js: a list of scanlines of pixels 0 to 3, and the decoders of the cels `bitmap` and
-- `box`. Data is the rest of the bytes; a read behind them throws, which is `none`.
use neohabitat.Prelude.{
  ℕ, zero, suc, ◌+◌, ◌-◌, ◌*◌, ◌/◌, ◌%◌, Bool, false, not, ◌||◌, ◌&&◌, Option, none, some, List, [],
  ◌∷◌, ◌++◌, ◌==◌, if◌then◌else◌, length,
}

-- `array[i] = v`: in the array, or behind its end (a gap never arises)
unfoldable pub write_at : List ℕ → ℕ → ℕ → List ℕ
write_at [] zero v = v ∷ []
write_at [] (suc i) v = 0 ∷ write_at [] i v
write_at (x ∷ xs) zero v = v ∷ xs
write_at (x ∷ xs) (suc i) v = x ∷ write_at xs i v

unfoldable pub repeat : ℕ → ℕ → List ℕ
repeat zero v = []
repeat (suc n) v = v ∷ repeat n v

-- `emptyBitmap`; the width counts bytes of four pixels
unfoldable pub empty_bitmap : ℕ → ℕ → ℕ → List (List ℕ)
empty_bitmap w zero color = []
empty_bitmap w (suc h) color = repeat (w * 4) color ∷ empty_bitmap w h color

unfoldable pub modify_line : ℕ → (List ℕ → List ℕ) → List (List ℕ) → List (List ℕ)
modify_line y f [] = []
modify_line zero f (l ∷ ls) = f l ∷ ls
modify_line (suc y) f (l ∷ ls) = l ∷ modify_line y f ls

-- `putpixel`
unfoldable pub put_pixel : Bool → ℕ → ℕ → List ℕ → List ℕ
put_pixel transparent x pixel line =
    if not (pixel == 0) || not transparent then write_at line x pixel else line

unfoldable pub draw_in_line : ℕ → ℕ → Bool → List ℕ → List ℕ
draw_in_line x byte transparent line = put_pixel transparent (x + 3) (byte % 4) (
    put_pixel transparent (x + 2) (byte / 4 % 4) (
      put_pixel transparent (x + 1) (byte / 16 % 4) (put_pixel transparent x (byte / 64 % 4) line)))

-- `drawByte`
unfoldable pub draw_byte : ℕ → ℕ → ℕ → Bool → List (List ℕ) → List (List ℕ)
draw_byte x y byte transparent b = modify_line y (draw_in_line x byte transparent) b

-- the bytes that `celDecoder.bitmap` puts, in order: `n` are left to put; a run may go over the end
unfoldable pub put_run : ℕ → ℕ → Option (List ℕ) → Option (List ℕ)
put_run count v none = none
put_run count v (some l) = some (repeat count v ++ l)

unfoldable pub strip_bytes : ℕ → List ℕ → Option (List ℕ)
strip_bytes zero input = some []
strip_bytes (suc n) [] = none
strip_bytes (suc n) (suc b ∷ input) = put_run 1 (suc b) (strip_bytes n input)
strip_bytes (suc n) (zero ∷ []) = none
strip_bytes (suc n) (zero ∷ count ∷ []) =
    if count / 128 % 2 == 0
    then none
    else put_run (count % 128) 0 (strip_bytes (suc n - count % 128) [])
strip_bytes (suc n) (zero ∷ count ∷ v ∷ input) =
    let long = strip_bytes (suc n - count) input in
    let clear = strip_bytes (suc n - count % 128) (v ∷ input) in
    if count / 128 % 2 == 0 then put_run count v long else put_run (count % 128) 0 clear

-- the strips run upwards, from left to right
unfoldable pub draw_strips : ℕ → ℕ → List ℕ → List (List ℕ) → List (List ℕ)
draw_strips height i [] b = b
draw_strips height i (byte ∷ bytes) b =
    draw_strips height (i + 1) bytes
      (draw_byte (i / height * 4) (height - i % height - 1) byte false b)

-- `celDecoder.bitmap`, on the data behind the six bytes of the header
unfoldable pub decode_bitmap : ℕ → ℕ → List ℕ → Option (List (List ℕ))
decode_bitmap width height input = elim (strip_bytes (width * height) input) [
  | none ↦ none
  | some bytes ↦ some (draw_strips height 0 bytes (empty_bitmap width height 0))
]

-- `celDecoder.box`: one scanline, from the left; then the two borders
unfoldable pub fill_line : ℕ → ℕ → ℕ → List ℕ → List ℕ
fill_line zero x byte line = line
fill_line (suc n) x byte line = fill_line n (x + 1) byte (draw_in_line (x * 4) byte false line)

unfoldable pub border_line : List ℕ → List ℕ
border_line line = write_at (write_at line 0 2) (length line - 1) 2

unfoldable pub box_line : ℕ → ℕ → ℕ → Bool → Bool → ℕ → List ℕ
box_line width height pattern border_lr border_tb y =
    let byte = (if border_tb && (y == 0 || y == height - 1) then 170 else pattern) in
    let line = fill_line width 0 byte (repeat (width * 4) 0) in
    if border_lr then border_line line else line

unfoldable pub box_lines : ℕ → ℕ → ℕ → ℕ → Bool → Bool → ℕ → List (List ℕ)
box_lines zero width height pattern border_lr border_tb y = []
box_lines (suc n) width height pattern border_lr border_tb y =
    box_line width height pattern border_lr border_tb y
    ∷ box_lines n width height pattern border_lr border_tb (y + 1)

unfoldable pub decode_box : ℕ → ℕ → ℕ → ℕ → List (List ℕ)
decode_box width height flags pattern =
    box_lines height width height pattern (not (flags / 32 % 2 == 0)) (not (flags / 16 % 2 == 0)) 0
