-- ===== src/AutoLock.antt =====
-- frontend/src/lib/autoLock.ts: the idle deadline of an unlocked vault, the lifetime of a cached key,
-- and the setting. Times are natural numbers in one unit; a difference of two times is compared with
-- the timeout by moving the subtracted time to the other side, so that a clock that went back counts
-- as the negative difference that it is.
pub mod Deadline
use kypassword_server.Base.{
  ℕ, ◌+◌, ◌*◌, Text, decimal, equal, Bool, true, false, ◌&&◌, ◌||◌, Option, none, some, List, [],
  ◌∷◌, if◌then◌else◌, leb, ltb, ◌==◌,
}

abbrev pub auto_lock_minutes : List ℕ
auto_lock_minutes = 1 ∷ 5 ∷ 15 ∷ 30 ∷ 60 ∷ []

-- A stored setting: a number, a text, or anything else.
pub data Setting : Type 0 where
  number : ℕ → Setting
  text : Text → Setting
  other : Setting

-- `value === minutes || value === String(minutes)`.
unfoldable pub is_setting : Setting → ℕ → Bool
unfolding decimal equal
is_setting (number n) minutes = n == minutes
is_setting (text t) minutes = equal t (decimal minutes)
is_setting other minutes = false

first_setting : Setting → List ℕ → ℕ
unfolding is_setting
first_setting v [] = 5
first_setting v (m ∷ ms) = if is_setting v m then m else first_setting v ms

unfoldable pub parse_auto_lock_minutes : Setting → ℕ
unfolding first_setting
parse_auto_lock_minutes v = first_setting v auto_lock_minutes

pub record IdleDeadline : Type 0 where
  pub timeout : ℕ
  pub wall : ℕ
  pub monotonic : ℕ

-- `Math.max(wall - this.wall, monotonic - this.monotonic) >= this.timeoutMs`.
unfoldable pub expired : IdleDeadline → ℕ → ℕ → Bool
expired d wall monotonic = leb (d.wall + d.timeout) wall || leb (d.monotonic + d.timeout) monotonic

unfoldable pub activity : IdleDeadline → ℕ → ℕ → IdleDeadline × Bool
unfolding expired
activity d wall monotonic =
    if expired d wall monotonic
    then (d, false)
    else (record d { wall = wall; monotonic = monotonic }, true)

-- `Number(lastActivity)`: not finite, not above 0, or a time.
pub data LastActivity : Type 0 where
  not_finite : LastActivity
  not_positive : LastActivity
  time : ℕ → LastActivity

unfoldable pub cached_key_expired : LastActivity → ℕ → ℕ → Bool
cached_key_expired not_finite timeout now = true
cached_key_expired not_positive timeout now = true
cached_key_expired (time last) timeout now = leb last 0 || ltb now last || leb (last + timeout) now
