-- ===== src/Tcp/Wait.antt =====
-- code-exp2/include/synch_wait.h: one thread waits for a notification that is kept until it is taken.
pub mod Wakeup
use njucn_lab.Common.{ℕ, Bool, true, false, Option, none, some, if◌then◌else◌}

pub record SynchWait : Type 0 where
  -- whether ready to read/write
  pub notified : Bool
  pub dead : Bool
  -- whether others are waiting
  pub sleep : Bool

unfoldable pub wait_init : SynchWait
wait_init = record { notified = false; dead = false; sleep = false }

-- The Bool says that the condition is broadcast or signalled.
unfoldable pub wait_exit : SynchWait → SynchWait × Bool
wait_exit w = if w.dead then (w, false) else (record w { dead = true }, w.sleep)

unfoldable pub wake_up : SynchWait → SynchWait × Bool
wake_up w =
    if w.dead
    then (w, false)
    else if w.notified
    then (w, false)
    else (record w { notified = true }, w.sleep)

-- sleep_on up to pthread_cond_wait: the Bool says whether the thread waits for the condition.
unfoldable pub sleep_on : SynchWait → SynchWait × Bool
sleep_on w =
    if w.dead
    then (w, false)
    else if w.notified
    then (record w { notified = false; sleep = false }, false)
    else (record w { sleep = true }, true)

-- What a thread that waited does when the condition was signalled.
unfoldable pub resumed : SynchWait → SynchWait
resumed w = record w { notified = false; sleep = false }
