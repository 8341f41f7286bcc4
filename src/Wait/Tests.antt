-- ===== src/Wait/Tests.antt =====
-- A wait that a publication overtakes, and the properties at it.
use fanring_rs.Base.{ℕ, ◌≡◌, refl, true, ◌⊎◌}
use fanring_rs.Wait.Cell.{
  WaitCell, Step, Steps, new, after_advance, wake, asleep, leaving, published, signalling,
}
use fanring_rs.Wait.Wakeup.{no_lost_wakeup}

-- The waiter rechecks and sleeps; notifier 3 has published.
overtaken : (c : WaitCell) × Steps new c × (c.waiter ≡ asleep) × (c.ready ≡ true)
overtaken = (
  _,
  Steps.more
      (Steps.more
        (Steps.more (Steps.more (Steps.stop new) (Step.prepare _ refl)) (Step.miss _ 0 refl refl))
        (Step.sleep _ 0 refl refl))
      (Step.publish _ 3 refl),
  refl,
  refl,
)

no_lost_wakeup_example :
    (i : ℕ) × ((overtaken.0.notifiers i ≡ published) ⊎ (overtaken.0.notifiers i ≡ signalling))
    × (after_advance overtaken.0.waiting ≡ signalling)
    × (wake overtaken.0.waiting overtaken.0.waiter ≡ leaving)
no_lost_wakeup_example = no_lost_wakeup overtaken.0 overtaken.1 overtaken.2 overtaken.3
