-- ===== src/Transceiver/Shutdown.antt =====
-- The end of `Transceiver::task` of src/transceiver/mod.rs. What `disconnect_sequence` (Disconnect) returns
-- under its time limit is an argument, and the state is the one that it leaves.
pub mod Futures
use lmc_rs.Prelude.{ℕ, Bool, true, false, Option, none, some, List, [], ◌∷◌, ◌++◌, map}
use lmc_rs.Prelude.Maps.{Map}
use lmc_rs.Errors.{IoError}
use lmc_rs.Shared.{ClientShared, SubscriptionState, existing, pending, Waker}
use lmc_rs.Transceiver.Notify.{fail_notify_map, push_waker}
use lmc_rs.Transceiver.State.{Transceiver, wake_all}

pub record ShutdownStatus : Type 0 where
  pub disconnect_sent : Bool
  pub clean : Bool

-- `Ok(true)`, `Ok(false)` and `Err(_)` of `run_task_loop`.
pub data LoopEnd : Type 0 where
  connection_closed stopped : LoopEnd
  io_error : IoError → LoopEnd

-- `sub_wakers.into_iter().filter_map(|x| x)`
abbrev pub present_wakers : List (Option Waker) → List Waker
present_wakers [] = []
present_wakers (w ∷ ws) = push_waker w (present_wakers ws)

abbrev pub wakers_of : SubscriptionState → List Waker
wakers_of (pending ws) = present_wakers ws
wakers_of (existing qos) = []

-- The wakers that the loop over `subs.drain()` collects.
abbrev pub drained : Map (List ℕ) SubscriptionState → List Waker
drained [] = []
drained ((topic, sub) ∷ subs) = wakers_of sub ++ drained subs

-- What makes sure that no task awaits the transceiver's: the shared state and the wakers to wake.
unfoldable pub release : ClientShared → ClientShared × List Waker
unfolding fail_notify_map
release s = (
  record s {
    notify_ack = (fail_notify_map s.notify_ack).0;
    notify_rec = (fail_notify_map s.notify_rec).0;
    notify_comp = (fail_notify_map s.notify_comp).0;
    subs = [];
  },
  (fail_notify_map s.notify_ack).1
      ++ ((fail_notify_map s.notify_rec).1
          ++ ((fail_notify_map s.notify_comp).1 ++ drained s.subs)),
)

-- `ret.unwrap_or(false)`
abbrev pub unwrap_or_false : Option Bool → Bool
unwrap_or_false none = false
unwrap_or_false (some b) = b

unfoldable pub shut_down :
    {S : Type 0} → Option Bool → Transceiver S → ShutdownStatus × Transceiver S
unfolding release
shut_down ret m = (
  record { disconnect_sent = m.disconnect_sent; clean = unwrap_or_false ret },
  record m { shared = (release m.shared).0; log = wake_all (map some (release m.shared).1) m.log },
)

-- `task` behind its main loop. A closed connection leaves at once.
unfoldable pub end_task :
    {S : Type 0} → LoopEnd → Option Bool → Transceiver S → ShutdownStatus × Transceiver S
unfolding shut_down
end_task connection_closed ret m = (record { disconnect_sent = false; clean = false }, m)
end_task stopped ret m = shut_down ret m
end_task (io_error e) ret m = shut_down ret m
