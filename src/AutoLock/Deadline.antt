-- ===== src/AutoLock/Deadline.antt =====
-- No clock, however it moves, extends the life of an idle vault.
use kypassword_server.Base.{
  ◌∙◌, ap, ℕ, ◌+◌, ◌≤◌, ◌<◌, decimal, equal, true, false, List, [], ◌∷◌, any, ◌==◌, ◌≡◌, refl,
  arith, ◌⊎◌, inl, inr, ◌↔◌,
}
use kypassword_server.AutoLock.{
  auto_lock_minutes, Setting, number, text, is_setting, parse_auto_lock_minutes, IdleDeadline,
  expired, activity, time, cached_key_expired,
}

-- A setting is one of the offered timeouts, whatever was stored.
pub parse_auto_lock_minutes-offered :
    (v : Setting) → any (λ m. m == parse_auto_lock_minutes v) auto_lock_minutes ≡ true
unfolding parse_auto_lock_minutes
parse_auto_lock_minutes-offered v = ground arith

offered-cases :
    (m : ℕ)
    → any (λ n. n == m) auto_lock_minutes ≡ true
    → (m ≡ 1) ⊎ ((m ≡ 5) ⊎ ((m ≡ 15) ⊎ ((m ≡ 30) ⊎ (m ≡ 60))))
offered-cases m h = ground arith

-- An offered timeout is read back from the number and from the text that was stored.
pub parse_auto_lock_minutes-stored :
    (m : ℕ)
    → any (λ n. n == m) auto_lock_minutes ≡ true
    → (parse_auto_lock_minutes (number m) ≡ m) × (parse_auto_lock_minutes (text (decimal m)) ≡ m)
unfolding parse_auto_lock_minutes is_setting decimal equal
parse_auto_lock_minutes-stored m h = elim (offered-cases m h) [
  | inl e ↦ rw e (refl, refl)
  | inr (inl e) ↦ rw e (refl, refl)
  | inr (inr (inl e)) ↦ rw e (refl, refl)
  | inr (inr (inr (inl e))) ↦ rw e (refl, refl)
  | inr (inr (inr (inr e))) ↦ rw e (refl, refl)
]

-- The deadline after the activities at the given wall and monotonic times.
unfoldable pub activities : IdleDeadline → List (ℕ × ℕ) → IdleDeadline
activities d [] = d
activities d ((wall, monotonic) ∷ ts) = activities (activity d wall monotonic).0 ts

-- Every time stands at `m` or later on the monotonic clock.
abbrev pub IsAfter : ℕ → List (ℕ × ℕ) → Type 0
IsAfter m [] = Unit {0}
IsAfter m ((wall, monotonic) ∷ ts) = (m ≤ monotonic) × IsAfter m ts

activity_refused :
    (d : IdleDeadline) (wall monotonic : ℕ)
    → d.monotonic + d.timeout ≤ monotonic
    → (activity d wall monotonic).0 ≡ d
unfolding activity
activity_refused d wall monotonic h = ground arith

activities_refused :
    (d : IdleDeadline) (ts : List (ℕ × ℕ))
    → IsAfter (d.monotonic + d.timeout) ts
    → activities d ts ≡ d
unfolding activities
activities_refused d [] a = refl
activities_refused d ((w, m) ∷ ts) a =
    ap (λ e. activities e ts) (activity_refused d w m a.0) ∙ activities_refused d ts a.1

-- Once the monotonic clock is at the deadline, no later activity revives it, whatever the wall clock
-- shows: the deadline stays as it is, and it is expired at every later time.
pub activities-expired :
    (d : IdleDeadline) (ts : List (ℕ × ℕ)) (wall monotonic : ℕ)
    → IsAfter (d.monotonic + d.timeout) ts
    → d.monotonic + d.timeout ≤ monotonic
    → (activities d ts ≡ d) × (expired (activities d ts) wall monotonic ≡ true)
unfolding expired
activities-expired d ts wall monotonic a h = (
  activities_refused d ts a,
  ap (λ e. expired e wall monotonic) (activities_refused d ts a) ∙ ground arith,
)

-- An accepted activity came within the timeout of the last accepted one on both clocks, and becomes
-- the new start of the deadline.
pub activity_iff :
    (d : IdleDeadline) (wall monotonic : ℕ)
    → ((activity d wall monotonic).1 ≡ true) ↔ (
        (wall < d.wall + d.timeout)
        × (monotonic < d.monotonic + d.timeout)
        × ((activity d wall monotonic).0
            ≡ record { timeout = d.timeout; wall = wall; monotonic = monotonic }))
unfolding activity
activity_iff d wall monotonic = (λ h. ground arith, λ h. ground arith)

-- With a recorded activity and a timeout above 0, a cached key is still good at `now` exactly if the
-- clock has not gone back behind that activity and a deadline that started then is not expired.
pub cached_key_expired_iff :
    (last timeout now monotonic : ℕ)
    → 0 < last
    → 0 < timeout
    → (cached_key_expired (time last) timeout now ≡ false) ↔ (
        (last ≤ now)
        × (expired (record { timeout = timeout; wall = last; monotonic = monotonic }) now monotonic
            ≡ false))
unfolding cached_key_expired expired
cached_key_expired_iff last timeout now monotonic p q = (λ h. ground arith, λ h. ground arith)
