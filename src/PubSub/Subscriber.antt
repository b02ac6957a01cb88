-- ===== src/PubSub/Subscriber.antt =====
-- src/pubsub/subscriber.cpp. Handlers are named by numbers, and the frames of a poll are those that
-- the connection gives before it answers an error.
use modbus_pp.Common.{
  ℕ, suc, ◌≡◌, refl, true, false, Option, none, some, List, [], ◌∷◌, ◌++◌, map, arith, ◌==◌,
  if◌then◌else◌, length, All,
}
use modbus_pp.Core.Result.{Result, ◌>>=◌, ok}
use modbus_pp.Core.Timestamp.{Timestamp}
use modbus_pp.PubSub.Event.{EventNotification, event_frame, parse_event}
use modbus_pp.PubSub.Event.RoundTrip.{IsSendable, parse_event-event_frame}

-- `handlers_`, with at most one entry under an id.
abbrev pub Handlers : Type 0
Handlers = List (ℕ × ℕ)

-- `handlers_[id] = handler`
on_event : ℕ → ℕ → Handlers → Handlers
on_event id handler [] = (id, handler) ∷ []
on_event id handler (entry ∷ handlers) = elim (entry.0 == id) [
  | true ↦ (id, handler) ∷ handlers
  | false ↦ entry ∷ on_event id handler handlers
]

abbrev remove_handler : ℕ → Handlers → Handlers
remove_handler id [] = []
remove_handler id (entry ∷ handlers) =
    let rest = remove_handler id handlers in if entry.0 == id then handlers else entry ∷ rest

unfoldable pub find_handler : ℕ → Handlers → Option ℕ
find_handler id [] = none
find_handler id (entry ∷ handlers) =
    let rest = find_handler id handlers in if entry.0 == id then some entry.1 else rest

-- The call that a notification leads to, if its subscription has a handler.
abbrev pub dispatch : Handlers → EventNotification → Option ℕ → List (ℕ × EventNotification)
dispatch handlers notif none = []
dispatch handlers notif (some handler) = (handler, notif) ∷ []

-- The count of processed events and the calls, with those of one more frame.
abbrev processed :
    Handlers
    → Option EventNotification
    → ℕ × List (ℕ × EventNotification)
    → ℕ × List (ℕ × EventNotification)
processed handlers none rest = rest
processed handlers (some notif) rest =
    (suc rest.0, dispatch handlers notif (find_handler notif.subscription_id handlers) ++ rest.1)

pub poll : Timestamp → Handlers → List (List ℕ) → Result (ℕ × List (ℕ × EventNotification))
poll now handlers [] = ok (0, [])
poll now handlers (frame ∷ frames) = do
  event ← parse_event now frame
  rest ← poll now handlers frames
  ok (processed handlers event rest)

-- After a handler is set, its subscription has it, and every other what it had.
find_handler-on_event :
    (handlers : Handlers) (id other handler : ℕ)
    → find_handler other (on_event id handler handlers)
      ≡ (if id == other then some handler else find_handler other handlers)
unfolding find_handler on_event
find_handler-on_event [] id other handler = refl
find_handler-on_event (entry ∷ handlers) id other handler =
    let rest = find_handler-on_event handlers id other handler in ground (arith, rest)

-- The calls for these notifications, in their order.
abbrev pub calls_of : Handlers → List EventNotification → List (ℕ × EventNotification)
calls_of handlers [] = []
calls_of handlers (notif ∷ notifs) =
    dispatch handlers notif (find_handler notif.subscription_id handlers)
    ++ calls_of handlers notifs

-- The frames of sendable notifications are all processed, in their order, and each leads to one call
-- of its subscription's handler with the notification as it was sent, if there is such a handler.
pub poll-event_frame :
    (now : Timestamp) (handlers : Handlers) (notifs : List EventNotification)
    → All IsSendable notifs
    → poll now handlers (map event_frame notifs) ≡ ok (length notifs, calls_of handlers notifs)
unfolding poll
poll-event_frame now handlers [] h = refl
poll-event_frame now handlers (notif ∷ notifs) h =
    rw (parse_event-event_frame notif now h.0, poll-event_frame now handlers notifs h.1) refl
