-- ===== src/Live/Subscription.antt =====
-- Whether a viewer of client/src/pages/Live.tsx is subscribed to the room.
use dfchat.Common.{◌≡◌, refl, ◌∙◌, false, List, arith}
use dfchat.Ws.{schedule_reconnect, send, ready_state, is_open_state}
use dfchat.Ws.Step.{Event, run}
use dfchat.Live.{Watch, live_subscribe, mount}
use dfchat.Live.Frames.{sent_of, IsWithout, sent_of-run}

sent_of-mount :
    (w : Watch)
    → is_open_state (ready_state w.ws) ≡ false
    → sent_of live_subscribe (mount w).ws ≡ sent_of live_subscribe w.ws
unfolding mount send schedule_reconnect
sent_of-mount w shut = ground (arith, shut)

-- A view of a room that comes up while the socket is not open sends no subscription, and whatever
-- calls, sockets, answers and timers follow, nothing makes up for it, as long as no other call sends
-- one: the subscriptions that were sent, each with its socket, are those from before.
pub sent_of-run-mount :
    (w : Watch) (es : List Event)
    → is_open_state (ready_state w.ws) ≡ false
    → IsWithout live_subscribe es
    → sent_of live_subscribe (run es (mount w).ws) ≡ sent_of live_subscribe w.ws
sent_of-run-mount w es shut quiet =
    sent_of-run live_subscribe es (mount w).ws refl quiet ∙ sent_of-mount w shut
