-- ===== src/Emulation/Orchestrator/Combination.antt =====
-- emulation/src/orchestrator.rs: `next_comb`, the next set of hosts to try.
pub mod Next
use package.kollaps.Prelude.{
  ℕ, zero, suc, ◌+◌, ◌-◌, Option, none, some, List, ltb, ◌==◌, if◌then◌else◌, get_elem?, set,
  length, ◌>>=◌,
}

-- The `while` loop from `i` on, with the increment before each test; `limit` is `n - k + 1`. At
-- 0 the source goes on to the index `0 - 1`, which is a panic.
unfoldable pub carry : ℕ → ℕ → List ℕ → Option (ℕ × List ℕ)
carry zero limit previous = do
  x ← get_elem? previous 0
  if ltb limit (x + 1) then none else some (0, set previous 0 (x + 1))
carry (suc i) limit previous = get_elem? previous (suc i) >>= λ x.
    let next = set previous (suc i) (x + 1) in
    let further = carry i limit next in
    if ltb (limit + suc i) (x + 1) then further else some (suc i, next)

-- `for v in i + 1..k { previous[v] = previous[v - 1] + 1 }`, with `left` rounds to go and the last
-- index `v`.
unfoldable pub refill : ℕ → ℕ → List ℕ → Option (List ℕ)
refill zero v previous = some previous
refill (suc left) v previous = do
  x ← get_elem? previous v
  if ltb (v + 1) (length previous) then refill left (v + 1) (set previous (v + 1) (x + 1)) else none

-- The outer `none` is a panic: on `k = 0`, on `n < k`, whose difference goes below 0, and of the
-- loop.
unfoldable pub next_comb : List ℕ → ℕ → ℕ → Option (Option (List ℕ))
unfolding carry refill
next_comb previous k n =
    let step = (do
      r ← carry (k - 1) (n - k + 1) previous
      first ← get_elem? r.1 0
      let filled = refill (k - 1 - r.0) r.0 r.1 >>= (λ p. some (some p))
      if ltb (n - k) first then some none else filled) in
    if k == 0 then none else if ltb n k then none else step
