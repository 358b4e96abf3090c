-- ===== src/Codec/Sizes.antt =====
-- The sizes of decoded bitmaps, and the states of decoded animations.
use mathlib.Core.Path.{subst}
use neohabitat.Prelude.{
  ℕ, zero, suc, ◌+◌, ◌-◌, ◌*◌, ◌/◌, ◌%◌, ◌<◌, ◌≤◌, ◌≡◌, refl, sym, ap, ◌∙◌, Bool, true, false, ◌||◌,
  ◌&&◌, Option, none, some, List, [], ◌∷◌, ◌++◌, ◌==◌, ==_iff, if◌then◌else◌, arith, length, All,
  Bool-cases, inl, inr, leb, ltb,
}
use neohabitat.Codec.Bitmap.{
  write_at, repeat, put_pixel, draw_in_line, put_run, strip_bytes, fill_line, border_line, box_line,
  box_lines, decode_box,
}
use neohabitat.Codec.Props.{Animation, drop, and_then, animations_from, decode_animations}

some_eq : {A : Type 0} {a b : A} → some a ≡ some b → a ≡ b
some_eq e = cc

length-repeat : (n v : ℕ) → length (repeat n v) ≡ n
unfolding repeat
length-repeat zero v = refl
length-repeat (suc n) v = ap suc (length-repeat n v)

length-append : (a b : List ℕ) → length (a ++ b) ≡ length a + length b
length-append [] b = omega arith
length-append (x ∷ a) b = omega (arith, length-append a b)

-- enough bytes for the strips, and at most one run too many
pub record Fills (n : ℕ) (l : List ℕ) : Type 0 where
  pub enough : n ≤ length l
  pub overrun : length l ≤ n + 126
  pub nothing : n ≡ 0 → length l ≡ 0

run_fits :
    (n c r : ℕ)
    → c ≤ 127
    → suc n - c ≤ r
    → r ≤ suc n - c + 126
    → (suc n - c ≡ 0 → r ≡ 0)
    → (suc n ≤ c + r) × (c + r ≤ suc n + 126)
run_fits n c r h a b z = elim (Bool-cases (suc n - c == 0)) [
  | inl e ↦ let q : r ≡ 0 = z ((==_iff (suc n - c) 0).0 e) in (ground arith, ground arith)
  | inr e ↦ (ground arith, ground arith)
]

put_run-Fills :
    (n c v : ℕ) (o : Option (List ℕ)) (l : List ℕ)
    → c ≤ 127
    → ((k : List ℕ) → o ≡ some k → Fills (suc n - c) k)
    → put_run c v o ≡ some l
    → Fills (suc n) l
unfolding put_run
put_run-Fills n c v none l b f h = cc
put_run-Fills n c v (some k) l b f h =
    let g : Fills (suc n - c) k = f k refl in
    let len : length l ≡ c + length k =
      ap length (sym (some_eq h))
      ∙ length-append (repeat c v) k
      ∙ ap (λ m. m + length k) (length-repeat c v) in
    let (lo, hi) = run_fits n c (length k) b g.enough g.overrun g.nothing in
    record {
      enough = omega (arith, len, lo);
      overrun = omega (arith, len, hi);
      nothing = λ e. absurd (omega (arith, e));
    }

-- The strips of a bitmap of `n` bytes, decoded from bytes: when the data suffices, they fill the
-- bitmap, and go over its end by 126 bytes at most.
pub strip_bytes-Fills :
    (n : ℕ) (input : List ℕ) (l : List ℕ)
    → All (λ b. b < 256) input
    → strip_bytes n input ≡ some l
    → Fills n l
unfolding strip_bytes
strip_bytes-Fills zero input l t h =
    let e : [] ≡ l = some_eq h in
    subst (Fills 0) e (record { enough = omega arith; overrun = omega arith; nothing = λ q. refl })
strip_bytes-Fills (suc n) [] l t h = cc
strip_bytes-Fills (suc n) (suc b ∷ input) l (p, t) h =
    put_run-Fills n 1 (suc b) (strip_bytes n input) l (omega arith)
      (λ k e.
        let q : n ≡ suc n - 1 = omega arith in
        subst (λ m. Fills m k) q (strip_bytes-Fills n input k t e))
      h
strip_bytes-Fills (suc n) (zero ∷ []) l t h = cc
strip_bytes-Fills (suc n) (zero ∷ c ∷ []) l (p, (q, t)) h = elim (Bool-cases (c / 128 % 2 == 0)) [
  | inl e ↦ cc (rw e at h)
  | inr e ↦
      put_run-Fills n (c % 128) 0 _ l (omega arith)
        (λ k g. strip_bytes-Fills (suc n - c % 128) [] k tt g) (rw e at h)
]
strip_bytes-Fills (suc n) (zero ∷ c ∷ v ∷ input) l (p, (q, t)) h =
    elim (Bool-cases (c / 128 % 2 == 0)) [
      | inl e ↦
          put_run-Fills n c v _ l (ground arith)
            (λ k g. strip_bytes-Fills (suc n - c) input k t.1 g) (rw e at h)
      | inr e ↦
          put_run-Fills n (c % 128) 0 _ l (omega arith)
            (λ k g. strip_bytes-Fills (suc n - c % 128) (v ∷ input) k t g) (rw e at h)
    ]

-- a state that the image has
pub record IsKnown (count : ℕ) (a : Animation) : Type 0 where
  pub start_known : a.start_state < count
  pub end_known : a.end_state < count

module _ (P : Animation → Type 0) where
  All-empty : (l : List Animation) → some [] ≡ some l → All P l
  All-empty l h = let e : [] ≡ l = some_eq h in subst (All P) e tt

  cut-All : (b : Bool) (l : List Animation) → (if b then none else some []) ≡ some l → All P l
  cut-All true l h = cc
  cut-All false l h = All-empty l h

  and_then-All :
      (a : Animation) (o : Option (List Animation)) (l : List Animation)
      → P a
      → ((k : List Animation) → o ≡ some k → All P k)
      → and_then a o ≡ some l
      → All P l
  unfolding and_then
  and_then-All a none l p f h = cc
  and_then-All a (some k) l p f h = let e : a ∷ k ≡ l = some_eq h in subst (All P) e (p, f k refl)

animations_from-IsKnown :
    (start next count off : ℕ) (input : List ℕ) (l : List Animation)
    → animations_from start next count off input ≡ some l
    → All (IsKnown count) l
unfolding animations_from
animations_from-IsKnown start next count off [] l h =
    cut-All (IsKnown count) (ltb next start || ltb off next) l h
animations_from-IsKnown start next count off (c ∷ []) l h =
    cut-All (IsKnown count) (ltb next start || ltb off next) l h
animations_from-IsKnown start next count off (c ∷ e ∷ input) l h =
    elim (Bool-cases (ltb next start || ltb off next)) [
      | inr q ↦ All-empty (IsKnown count) l (rw q at h)
      | inl q ↦ elim (Bool-cases (leb count (c % 128) || leb count e)) [
        | inl r ↦ All-empty (IsKnown count) l (rw (q, r) at h)
        | inr r ↦
            and_then-All (IsKnown count) _ (animations_from start next count (off + 2) input) l
              (record { start_known = ground arith; end_known = ground arith })
              (λ k g. animations_from-IsKnown start next count (off + 2) input k g) (rw (q, r) at h)
      ]
    ]

-- The animations of a decoded image start and end in states that the image has.
pub decode_animations-IsKnown :
    (input : List ℕ) (start next count : ℕ) (l : List Animation)
    → decode_animations input start next count ≡ some l
    → All (IsKnown count) l
unfolding decode_animations
decode_animations-IsKnown input start next count l h = elim (Bool-cases (start == 0)) [
  | inl e ↦ All-empty (IsKnown count) l (rw e at h)
  | inr e ↦ animations_from-IsKnown start next count start (drop start input) l (rw e at h)
]

length-write_at : (l : List ℕ) (i v : ℕ) → i < length l → length (write_at l i v) ≡ length l
unfolding write_at
length-write_at [] i v h = absurd (omega arith)
length-write_at (x ∷ l) zero v h = refl
length-write_at (x ∷ l) (suc i) v h = ap suc (length-write_at l i v (omega arith))

length-put_pixel :
    (t : Bool) (x pixel : ℕ) (l : List ℕ) → x < length l → length (put_pixel t x pixel l) ≡ length l
unfolding put_pixel
length-put_pixel t x pixel l h = grind (arith, length-write_at l x pixel h)

length-draw_in_line :
    (x byte : ℕ) (t : Bool) (l : List ℕ)
    → x + 3 < length l
    → length (draw_in_line x byte t l) ≡ length l
unfolding draw_in_line
length-draw_in_line x byte t l h =
    let l1 = put_pixel t x (byte / 64 % 4) l in
    let e1 : length l1 ≡ length l = length-put_pixel t x (byte / 64 % 4) l (omega arith) in
    let l2 = put_pixel t (x + 1) (byte / 16 % 4) l1 in
    let e2 : length l2 ≡ length l1 =
      length-put_pixel t (x + 1) (byte / 16 % 4) l1 (omega (arith, e1)) in
    let l3 = put_pixel t (x + 2) (byte / 4 % 4) l2 in
    let e3 : length l3 ≡ length l2 =
      length-put_pixel t (x + 2) (byte / 4 % 4) l2 (omega (arith, e1, e2)) in
    length-put_pixel t (x + 3) (byte % 4) l3 (omega (arith, e1, e2, e3)) ∙ e3 ∙ e2 ∙ e1

length-fill_line :
    (n x byte : ℕ) (l : List ℕ) → (x + n) * 4 ≤ length l → length (fill_line n x byte l) ≡ length l
unfolding fill_line
length-fill_line zero x byte l h = refl
length-fill_line (suc n) x byte l h =
    let e : length (draw_in_line (x * 4) byte false l) ≡ length l =
      length-draw_in_line (x * 4) byte false l (omega arith) in
    length-fill_line n (x + 1) byte (draw_in_line (x * 4) byte false l) (omega (arith, e)) ∙ e

length-border_line : (l : List ℕ) → 0 < length l → length (border_line l) ≡ length l
unfolding border_line
length-border_line l h =
    let e : length (write_at l 0 2) ≡ length l = length-write_at l 0 2 h in
    length-write_at (write_at l 0 2) (length l - 1) 2 (omega (arith, e)) ∙ e

length-box_line :
    (width height pattern : ℕ) (lr tb : Bool) (y : ℕ)
    → 0 < width
    → length (box_line width height pattern lr tb y) ≡ width * 4
unfolding box_line
length-box_line width height pattern lr tb y h =
    let byte = (if tb && (y == 0 || y == height - 1) then 170 else pattern) in
    let r : length (repeat (width * 4) 0) ≡ width * 4 = length-repeat (width * 4) 0 in
    let e : length (fill_line width 0 byte (repeat (width * 4) 0)) ≡ width * 4 =
      length-fill_line width 0 byte (repeat (width * 4) 0) (omega (arith, r)) ∙ r in
    elim (Bool-cases lr) [
      | inl q ↦
          rw (q, box_line)
            (length-border_line (fill_line width 0 byte (repeat (width * 4) 0)) (omega (arith, e))
              ∙ e)
      | inr q ↦ rw (q, box_line) e
    ]

box_lines-sized :
    (n width height pattern : ℕ) (lr tb : Bool) (y : ℕ)
    → 0 < width
    → (length (box_lines n width height pattern lr tb y) ≡ n)
      × All (λ line. length line ≡ width * 4) (box_lines n width height pattern lr tb y)
unfolding box_lines
box_lines-sized zero width height pattern lr tb y h = (refl, tt)
box_lines-sized (suc n) width height pattern lr tb y h =
    let (a, b) = box_lines-sized n width height pattern lr tb (y + 1) h in
    (ap suc a, (length-box_line width height pattern lr tb y h, b))

-- A decoded box that is not empty has a scanline for each unit of its height, with four pixels for
-- each byte of its width, borders included.
pub decode_box-sized :
    (width height flags pattern : ℕ)
    → 0 < width
    → (length (decode_box width height flags pattern) ≡ height)
      × All (λ line. length line ≡ width * 4) (decode_box width height flags pattern)
unfolding decode_box
decode_box-sized width height flags pattern h = box_lines-sized height width height pattern _ _ 0 h
