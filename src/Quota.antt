-- ===== src/Quota.antt =====
-- src/api/quota.rs: the sliding window that limits the machine transitions of a tenant. A time is
-- its distance from a start in the unit of the window, and one request runs at a time (the mutex).
pub mod Queue
pub mod Window
mod Tests
use evorule_rule.Prelude.{
  ℕ, ◌-◌, String, Bool, true, false, List, [], ◌∷◌, ◌++◌, length, ltb, leb, ◌==◌, str_eq,
  if◌then◌else◌,
}

-- `HashMap<String, VecDeque<Instant>>`: a tenant without a queue has the empty one.
abbrev pub Windows : Type 0
Windows = String → List ℕ

abbrev pub set_window : String → List ℕ → Windows → Windows
set_window tenant q windows t = if str_eq tenant t then q else windows t

-- The `while` loop: the times at the front that lie more than `window` before `now` are dropped.
unfoldable pub evict : (window now : ℕ) → List ℕ → List ℕ
evict window now [] = []
evict window now (front ∷ q) =
    let rest = evict window now q in if ltb window (now - front) then rest else front ∷ q

-- `acquire`: whether the request is granted, and the windows after it.
unfoldable pub acquire : (window max_per_hour now : ℕ) (tenant : String) → Windows → Bool × Windows
acquire window max_per_hour now tenant windows =
    if max_per_hour == 0
    then (true, windows)
    else let q = evict window now (windows tenant) in
      if leb max_per_hour (length q)
      then (false, set_window tenant q windows)
      else (true, set_window tenant (q ++ now ∷ []) windows)

unfoldable pub used : String → Windows → ℕ
used tenant windows = length (windows tenant)
