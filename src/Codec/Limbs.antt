-- ===== src/Codec/Limbs.antt =====
-- What a decoded limb refers to: its frames to its cels, its animations to its frames.
use mathlib.Core.Path.{subst}
use neohabitat.Prelude.{
  ℕ, zero, suc, ◌+◌, ◌<◌, ◌≤◌, ◌≡◌, refl, sym, ap, ◌∙◌, ℤ, pos, negsuc, false, Option, none, some,
  List, [], ◌∷◌, arith, length, All, get_elem?,
}
use neohabitat.Codec.Props.{Animation, drop}
use neohabitat.Codec.Cel.{Cel, reads, decode_cel}
use neohabitat.Codec.Sizes.{IsKnown, decode_animations-IsKnown}
use neohabitat.Codec.Limb.{
  Limb, read_frames, cel_count, word_at, read_cels, limb_animations, limb_of, decode_limb,
}

-- an index below the number of cels, or a negative one
abbrev pub HasCel : ℕ → ℤ → Type 0
HasCel n (pos i) = i < n
HasCel n (negsuc i) = Unit

pub record IsComplete (l : Limb) : Type 0 where
  pub frames_shown : All (HasCel (length l.cels)) l.frames
  pub animations_known : All (IsKnown (length l.frames)) l.animations

-- a chain of reads that gives a result has read its first part
pub reads-some :
    {A B : Type 0} (o : Option A) (f : A → Option B) (b : B)
    → reads o f ≡ some b
    → (a : A) × (o ≡ some a) × (f a ≡ some b)
reads-some none f b h = cc
reads-some (some a) f b h = (a, refl, h)

HasCel-mono : (n m : ℕ) (l : List ℤ) → n ≤ m → All (HasCel n) l → All (HasCel m) l
HasCel-mono n m [] h t = tt
HasCel-mono n m (pos i ∷ l) h (p, t) = (omega arith, HasCel-mono n m l h t)
HasCel-mono n m (negsuc i ∷ l) h (p, t) = (tt, HasCel-mono n m l h t)

cel_count-HasCel : (l : List ℤ) → All (HasCel (cel_count l)) l
unfolding cel_count
cel_count-HasCel [] = tt
cel_count-HasCel (pos i ∷ l) =
    (ground arith, HasCel-mono (cel_count l) _ l (ground arith) (cel_count-HasCel l))
cel_count-HasCel (negsuc i ∷ l) = (tt, cel_count-HasCel l)

pub some_inj : {A : Type 0} {a b : A} → some a ≡ some b → a ≡ b
some_inj e = cc

length-read_cels :
    (n off : ℕ) (input : List ℕ) (l : List Cel) → read_cels n off input ≡ some l → length l ≡ n
unfolding read_cels
length-read_cels zero off input l h = ap length (sym (some_inj h))
length-read_cels (suc n) off input l h =
    let (at, e, h1) = reads-some (word_at input off) _ l h in
    let (c, e1, h2) = reads-some (decode_cel (drop at input) false) _ l h1 in
    let (k, e2, h3) = reads-some (read_cels n (off + 2) input) _ l h2 in
    ap length (sym (some_inj h3)) ∙ ap suc (length-read_cels n (off + 2) input k e2)

limb_animations-IsKnown :
    (n off count : ℕ) (input : List ℕ) (l : List Animation)
    → limb_animations n off count input ≡ some l
    → All (IsKnown count) l
unfolding limb_animations
limb_animations-IsKnown zero off count input l h = subst (All (IsKnown count)) (some_inj h) tt
limb_animations-IsKnown (suc n) off count input l h =
    let (start, e, h1) = reads-some (get_elem? input 2) _ l h in
    let (next, e1, h2) = reads-some (word_at input off) _ l h1 in
    decode_animations-IsKnown input start next count l h2

limb_of-IsComplete :
    (frames : List ℤ) (off : ℕ) (input : List ℕ) (l : Limb)
    → limb_of frames off input ≡ some l
    → IsComplete l
unfolding limb_of
limb_of-IsComplete frames off input l h =
    let (cels, e, h1) = reads-some (read_cels (cel_count frames) off input) _ l h in
    let (a, e1, h2) =
      reads-some (limb_animations (cel_count frames) off (length frames) input) _ l h1 in
    let len : length cels ≡ cel_count frames =
      length-read_cels (cel_count frames) off input cels e in
    subst IsComplete (some_inj h2) (record {
      frames_shown = subst (λ n. All (HasCel n) frames) (sym len) (cel_count-HasCel frames);
      animations_known = limb_animations-IsKnown (cel_count frames) off (length frames) input a e1;
    })

-- In a limb that is decoded, every frame shows one of its cels or has a negative index, and the
-- animations start and end at frames of the limb.
pub decode_limb-IsComplete : (input : List ℕ) (l : Limb) → decode_limb input ≡ some l → IsComplete l
unfolding decode_limb
decode_limb-IsComplete input l h =
    let (count, e, h1) = reads-some (get_elem? input 0) _ l h in
    let (frames, e1, h2) = reads-some (read_frames (count + 1) (drop 3 input)) _ l h1 in
    limb_of-IsComplete frames (count + 4) input l h2
