-- ===== src/Transceiver/Notify.antt =====
-- What the task does to the notifier maps.
use lmc_rs.Prelude.{ℕ, Option, none, some, List, [], ◌∷◌}
use lmc_rs.Prelude.Maps.{nat_eq, lookup, remove}
use lmc_rs.Shared.{NotifierMap, NotifyResult, with_waker, failed, Waker}

abbrev pub waker_of : Option NotifyResult → Option Waker
waker_of (some (with_waker w)) = some w
waker_of _ = none

-- `if let Some(NotifyResult::WithWaker(waker)) = map.lock().remove(&id) { waker.wake(); }`, with the
-- waker that is woken.
unfoldable pub notify : ℕ → NotifierMap → Option Waker × NotifierMap
notify id m = (waker_of (lookup id m), remove id m)

abbrev pub push_waker : Option Waker → List Waker → List Waker
push_waker none ws = ws
push_waker (some w) ws = w ∷ ws

-- `fail_notify_map`; the wakers that are collected come first.
unfoldable pub fail_notify_map : NotifierMap → NotifierMap × List Waker
fail_notify_map [] = ([], [])
fail_notify_map ((id, v) ∷ m) =
    let rest = fail_notify_map m in ((id, failed) ∷ rest.0, push_waker (waker_of (some v)) rest.1)
