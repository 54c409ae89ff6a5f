-- ===== src/Examples/Subscribers.antt =====
-- Subscriptions from the client's side, and the address of a broker.
use lmc_rs.Prelude.{◌≡◌, refl, true, ℕ, List, [], ◌∷◌, none, some, arith}
use lmc_rs.Prelude.Maps.{text_eq}
use lmc_rs.ByteIo.{
  finish_and_check, write_u16, write_trivial, write_bytes, write_bytes_no_len, write_u8,
}
use lmc_rs.Errors.{done, at_most_once, at_least_once}
use lmc_rs.Errors
use lmc_rs.Packets.Control.{from_type_and_flags}
use lmc_rs.Packets.Frame.{make_packet, encode_packet_size}
use lmc_rs.Packets.Incoming.SubAck
use lmc_rs.Packets.Incoming.SubAck.{SubAckPacket, dynamic, sub_results}
use lmc_rs.Packets.Outgoing.{array_size}
use lmc_rs.Packets.Outgoing.Requests.{encode_subscribe}
use lmc_rs.Subscription.Receivers.{add, set_subscribed, delivered, closed, lossy}
use lmc_rs.Subscription.Receivers
use lmc_rs.Subscription.Topic.{heads}
use lmc_rs.Subscription.Tree.{get, get_from, kind, present, absent}
use lmc_rs.Subscription.Tree.Update.{valid}
use lmc_rs.Shared.{ClientShared}
use lmc_rs.Futures.Subscribe
use lmc_rs.Transceiver.Writing
use lmc_rs.Transceiver.Writing.{write_packet}
use lmc_rs.Transceiver.Sending.{make, try_send_packet}
use lmc_rs.Transceiver.Shutdown.Futures.{was_woken}
use lmc_rs.Transceiver.Step.{on_subscribe, new_subscription}
use lmc_rs.Client.Subscribing.{
  awaits_other, awaits_broker, sends, returns, fails, start, sent, poll, subscribe_void,
  subscribe_lossy,
}
use lmc_rs.Client.Subscribing.Terminated.{StillWaits, start-terminated}
use lmc_rs.Client.Subscribing.Later.{Later, no_time, called}
use lmc_rs.Client.Subscribing.Granted.{
  given, command_of, ordered, answered, polled, with_waker, start-granted,
}
use lmc_rs.Client.Host.{host_and_port, host_only, find_colon}
use lmc_rs.Client.Host.Splits.{Completes, host_and_port-Completes}
use lmc_rs.Client.Connecting.{ok, finished, Outside, open_stream, first_supported}
use lmc_rs.Client.Connecting.Opened.{Opens, open_stream-Opens}
use lmc_rs.Options.{Options, SocketAddr, v4, v6, disable_ipv6, supports}
use lmc_rs.Options
use lmc_rs.Examples.Scripted.{script}
use lmc_rs.Examples.States.{shared, channels, working}

abbrev fresh : List ℕ
fresh = 98 ∷ []

abbrev abandoned : ClientShared
abandoned = (start subscribe_void fresh at_most_once shared).1

-- After that call somebody subscribes to yet another topic.
abbrev later : ClientShared
later = (start (subscribe_lossy 5) (99 ∷ []) at_least_once abandoned).1

abandoned-later : Later abandoned later
abandoned-later =
    called ℕ (subscribe_lossy 5) (99 ∷ []) at_least_once abandoned abandoned (λ s. refl)
      (no_time abandoned)

start-terminated_example :
    (sent subscribe_void fresh at_most_once closed
        (start subscribe_void fresh at_most_once shared).0
      ≡ fails Errors.SubscribeError.transceiver_task_terminated)
    × (start subscribe_void fresh at_most_once later ≡ (awaits_other (Subscribe.new fresh), later))
    × StillWaits
        (poll subscribe_void fresh at_most_once 4 (awaits_other (Subscribe.new fresh)) later)
start-terminated_example =
    start-terminated subscribe_void fresh at_most_once 4 (Subscribe.new fresh) shared later
      (λ s. refl) refl abandoned-later refl refl tt

abbrev grant : SubAckPacket
grant = record { packet_id = 8; results = dynamic (SubAck.granted at_most_once ∷ []) }

grant_results : sub_results grant ≡ some (SubAck.granted at_most_once ∷ [])
unfolding sub_results
grant_results = refl

fresh_unknown : get fresh working.subscriptions ≡ absent
unfolding get get_from heads kind
fresh_unknown = refl

fresh-valid : valid (heads fresh) ≡ true
unfolding valid heads
fresh-valid = refl

fresh_ordered :
    (ordered script channels 100 200 (subscribe_lossy 5) fresh at_least_once working).0 ≡ done tt
unfolding ordered on_subscribe new_subscription get get_from heads kind make make_packet
    encode_packet_size finish_and_check write_u16 write_trivial write_bytes write_bytes_no_len
    from_type_and_flags try_send_packet Writing.try_send_packet write_packet array_size
    encode_subscribe write_u8
fresh_ordered = refl

start-granted_example :
    let made = given (subscribe_lossy 5) fresh working.shared in
    let cmd = command_of made fresh at_least_once in
    let m = (ordered script channels 100 200 (subscribe_lossy 5) fresh at_least_once working).1 in
    let n =
      answered script channels 100 200 (subscribe_lossy 5) fresh at_least_once 4 grant working in
    (start (subscribe_lossy 5) fresh at_least_once working.shared ≡ (sends 5 none cmd, made.1))
    × (sent (subscribe_lossy 5) fresh at_least_once delivered (sends 5 none cmd)
        ≡ awaits_broker 5 (Subscribe.new fresh))
    × (poll
          (subscribe_lossy 5)
          fresh
          at_least_once
          4
          (awaits_broker 5 (Subscribe.new fresh))
          m.shared
        ≡ some (awaits_broker 5 (polled fresh), (with_waker fresh 4 m).shared))
    × (get fresh n.subscriptions ≡ present (add (lossy 5) (set_subscribed Receivers.default)))
    × (was_woken 4 n.log ≡ true)
    × (poll (subscribe_lossy 5) fresh at_least_once 6 (awaits_broker 5 (polled fresh)) n.shared
        ≡ some (returns 5 at_most_once, n.shared))
start-granted_example =
    start-granted script channels 100 200 (subscribe_lossy 5) fresh at_least_once 4 6 working grant
      at_most_once [] (λ s. refl) refl refl fresh_unknown fresh-valid fresh_ordered refl
      grant_results

abbrev host : List ℕ
host = 104 ∷ []

host_and_port-Completes_example :
    let r = host_and_port host 1883 in
    (find_colon r.0 ≡ some r.1)
    × (find_colon (host_only r) ≡ none)
    × Completes host 1883 r (find_colon host)
host_and_port-Completes_example = host_and_port-Completes host 1883 (omega arith)

-- A system that knows a host under two addresses, the first of which is one of version 6.
abbrev outside : Outside (Unit {0}) (List ℕ) SocketAddr SocketAddr ℕ
outside = record {
  kind = λ a. a;
  create_connection = λ config name. ok name;
  lookup_host = λ name. finished (some (v6 ∷ v4 ∷ []));
  new_v6 = some v6;
  new_v4 = some v4;
  connect = λ socket addr. finished (some 3);
  set_nodelay = λ stream. none;
}

abbrev only_v4 : Options
only_v4 = disable_ipv6 (Options.new fresh)

host_opened : open_stream outside host only_v4 ≡ ok (host, v4, 3)
unfolding open_stream host_and_port find_colon host_only first_supported supports
host_opened = refl

open_stream-Opens_example : Opens outside host only_v4 host v4 3
open_stream-Opens_example = open_stream-Opens outside host only_v4 host v4 3 host_opened
