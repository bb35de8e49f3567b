-- ===== src/Tcp/Wait/Wakeup.antt =====
-- Notifications are not lost, whichever of the two threads comes first.
use njucn_lab.Common.{ℕ, zero, suc, true, false, ◌≡◌, refl, arith}
use njucn_lab.Tcp.Wait.{SynchWait, wake_up, sleep_on, resumed}

unfoldable pub wake_ups : ℕ → SynchWait → SynchWait
wake_ups zero w = w
wake_ups (suc n) w = wake_ups n (wake_up w).0

-- Once it is notified, nothing changes.
wake_ups_again : (n : ℕ) (w : SynchWait) → w.notified ≡ true → wake_ups n w ≡ w
unfolding wake_ups wake_up
wake_ups_again zero w h = refl
wake_ups_again (suc n) w h = ground (arith, wake_ups_again n w h)

wake_ups-suc :
    (n : ℕ) (w : SynchWait)
    → w.dead ≡ false
    → w.notified ≡ false
    → wake_ups (suc n) w ≡ record w { notified = true }
unfolding wake_ups wake_up
wake_ups-suc n w h k = ground (arith, wake_ups_again n (record w { notified = true }) refl)

-- While no notification is held, a thread that goes to sleep waits, and the next wake-up signals it. One
-- wake-up or more, whether all come before the thread goes to sleep or all while it waits, let it go on
-- exactly once: they leave the same state, in which no notification is held, so that it would wait again.
pub wake_up-sleep_on :
    (n : ℕ) (w : SynchWait)
    → w.dead ≡ false
    → w.notified ≡ false
    → let (woken, waits) = sleep_on (wake_ups (suc n) w) in
      let (asleep, waits') = sleep_on w in
      let resumed' = resumed (wake_ups (suc n) asleep) in
      (waits' ≡ true)
      × ((wake_up asleep).1 ≡ true)
      × (waits ≡ false)
      × (woken ≡ record w { notified = false; sleep = false })
      × (resumed' ≡ woken)
      × ((sleep_on woken).1 ≡ true)
unfolding wake_up sleep_on resumed
wake_up-sleep_on n w h k =
    ground (arith, wake_ups-suc n w h k, wake_ups-suc n (record w { sleep = true }) h k)
