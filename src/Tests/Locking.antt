-- ===== src/Tests/Locking.antt =====
-- Deadlines and settings at concrete inputs.
use kypassword_server.Base.{true, [], ◌∷◌, ◌≡◌, arith}
use kypassword_server.AutoLock.{IdleDeadline, expired}
use kypassword_server.AutoLock.Deadline.{activities, activities-expired}

abbrev deadline : IdleDeadline
deadline = record { timeout = 300000; wall = 1000000; monotonic = 50 }

-- A wall clock set back after the deadline, and an activity behind it.
activities-expired_example :
    (activities deadline ((900000, 300050) ∷ []) ≡ deadline)
    × (expired (activities deadline ((900000, 300050) ∷ [])) 900001 300060 ≡ true)
activities-expired_example =
    activities-expired deadline ((900000, 300050) ∷ []) 900001 300060 (omega arith) (omega arith)
