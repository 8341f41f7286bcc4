-- ===== src/Yring/Waiter.antt =====
-- `Waiter` of yring/src/ring.rs. Each function returns the new flags.
use fanring_rs.Base.{Bool, true, false, not, ◌||◌, if◌then◌else◌}
use fanring_rs.Yring.Types.{Waiter}

-- `Waiter::new`
unfoldable pub new : Waiter
new = record { enabled = false; armed = false; waiting = false }

unfoldable pub enable : Waiter → Waiter
enable w = if not w.enabled then record w { enabled = true } else w

unfoldable pub register : Waiter → Bool × Waiter
register w = if not w.enabled then (false, w) else (true, record w { waiting = true; armed = true })

-- `observed` is what the caller saw of the ring: empty, or full.
unfoldable pub take : Waiter → Bool → Bool × Waiter
take w observed =
    if observed || not w.armed
    then (true, record w { waiting = false })
    else (w.waiting, record w { waiting = false })
