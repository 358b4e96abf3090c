-- ===== src/Verb/Strides.antt =====
-- How long a walk is waited for, against its definition by squares.
use neohabitat.Prelude.{
  ℕ, zero, suc, ◌+◌, ◌*◌, ◌≤◌, ◌<◌, ◌≡◌, true, false, inl, inr, Bool-cases, ◌==◌, leb, arith, ◌⊎◌,
}
use neohabitat.Verb.Pause.{least_root, squared, walk_millis}

-- the least number from `k` to `k + n` whose square is not below, or the last one
record IsRoot (n k square r : ℕ) : Type 0 where
  above : k ≤ r
  below : r ≤ k + n
  reaches : r < k + n → square ≤ r * r
  least : (j : ℕ) → k ≤ j → j < r → j * j < square

le_of_leb : (a b : ℕ) → leb a b ≡ true → a ≤ b
le_of_leb a b e = ground arith

lt_of_leb : (a b : ℕ) → leb a b ≡ false → b < a
lt_of_leb a b e = ground arith

found : (n k square : ℕ) → square ≤ k * k → IsRoot n k square k
found n k square h = record {
  above = omega arith;
  below = omega arith;
  reaches = λ i. h;
  least = λ j i l. omega arith;
}

here_or_later : (k j : ℕ) → k ≤ j → (j ≡ k) ⊎ (k + 1 ≤ j)
here_or_later k j h = ground arith

later : (n k square r : ℕ) → k * k < square → IsRoot n (k + 1) square r → IsRoot (suc n) k square r
later n k square r q h = record {
  above = omega (arith, h.above);
  below = omega (arith, h.below);
  reaches = λ i. h.reaches (omega arith);
  least = λ j i l. elim (here_or_later k j i) [ inl e ↦ rw e q | inr m ↦ h.least j m l ];
}

least_root-IsRoot : (n k square : ℕ) → IsRoot n k square (least_root n k square)
unfolding least_root
least_root-IsRoot zero k square = record {
  above = omega arith;
  below = omega arith;
  reaches = λ h. omega arith;
  least = λ j h i. omega arith;
}
least_root-IsRoot (suc n) k square = elim (Bool-cases (leb square (k * k))) [
  | inl e ↦ rw (e, least_root) (found (suc n) k square (le_of_leb square (k * k) e))
  | inr e ↦
      rw (e, least_root)
        (later n k square _ (lt_of_leb square (k * k) e) (least_root-IsRoot n (k + 1) square))
]

no_way : (d : ℕ) → d == 0 ≡ true → 2500 * d ≤ 0
no_way d e = ground arith

-- The time that a walk is waited for is at most 8000 milliseconds, and below that it is the least
-- whose square is not below 2500 times the squared distance: `Math.min(8000, Math.ceil(50 * d))`.
pub walk_millis-least :
    (x0 y0 x1 y1 : ℕ)
    → (walk_millis x0 y0 x1 y1 ≤ 8000)
      × (walk_millis x0 y0 x1 y1 < 8000
          → 2500 * squared x0 y0 x1 y1 ≤ walk_millis x0 y0 x1 y1 * walk_millis x0 y0 x1 y1)
      × ((j : ℕ) → j < walk_millis x0 y0 x1 y1 → j * j < 2500 * squared x0 y0 x1 y1)
unfolding walk_millis
walk_millis-least x0 y0 x1 y1 = elim (Bool-cases (squared x0 y0 x1 y1 == 0)) [
  | inl e ↦ rw (e, walk_millis) (omega arith, λ h. no_way _ e, λ j i. omega arith)
  | inr e ↦
      let r = least_root-IsRoot 8000 0 (2500 * squared x0 y0 x1 y1) in
      rw (e, walk_millis) (r.below, r.reaches, λ j i. r.least j (omega arith) i)
]
