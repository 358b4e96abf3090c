-- ===== src/Verb/Pause.antt =====
-- `walkWaitMillis` of kernel.js: how long a walk plays. The source takes the square root of the
-- squared distance in floating point and rounds 50 times it up; here that is the least number whose
-- square reaches 2500 times the squared distance.
use neohabitat.Prelude.{ℕ, zero, suc, ◌+◌, ◌-◌, ◌*◌, Option, none, some, ◌==◌, leb, if◌then◌else◌}

unfoldable pub distance : ℕ → ℕ → ℕ
distance a b = (a - b) + (b - a)

-- `Math.min(k + n, Math.ceil(Math.sqrt(square)))` for a square above `(k - 1)²`
unfoldable pub least_root : ℕ → ℕ → ℕ → ℕ
least_root zero k square = k
least_root (suc n) k square =
    let rest = least_root n (k + 1) square in if leb square (k * k) then k else rest

abbrev pub squared : ℕ → ℕ → ℕ → ℕ → ℕ
squared x0 y0 x1 y1 = distance x0 x1 * distance x0 x1 + distance y0 y1 * distance y0 y1

unfoldable pub walk_millis : ℕ → ℕ → ℕ → ℕ → ℕ
walk_millis x0 y0 x1 y1 =
    let d = squared x0 y0 x1 y1 in if d == 0 then 0 else least_root 8000 0 (2500 * d)

pub record Place : Type 0 where
  pub x : Option ℕ
  pub y : Option ℕ

-- with a coordinate that is not there the time is not a number, and nothing waits for it
unfoldable pub between : Option ℕ → Option ℕ → Option ℕ → Option ℕ → ℕ
between (some x0) (some y0) (some x1) (some y1) = walk_millis x0 y0 x1 y1
between (some x0) (some y0) (some x1) none = 0
between (some x0) (some y0) none y1 = 0
between (some x0) none x1 y1 = 0
between none y0 x1 y1 = 1000

-- `!from || from.x === undefined`
unfoldable pub walk_wait_millis : Option Place → Place → ℕ
walk_wait_millis none to = 1000
walk_wait_millis (some from) to = between from.x from.y to.x to.y
