-- ===== src/PubSub/Tests.antt =====
-- Notifications and subscriptions at concrete inputs.
use modbus_pp.Common.{
  ℕ, ◌≡◌, refl, ◌≢◌, ◌↔◌, true, false, none, some, List, [], ◌∷◌, map, arith, ltb, All,
}
use modbus_pp.Common.Int.{pos}
use modbus_pp.Core.Error.{illegal_data_address}
use modbus_pp.Core.Result.{Result, map_result, ok, err, fault}
use modbus_pp.Core.Timestamp.{Timestamp, from_epoch_us, before}
use modbus_pp.PubSub.Event.{EventNotification, event_frame, parse_event}
use modbus_pp.PubSub.Event.RoundTrip.{IsSendable, parse_event-ne-fault}
use modbus_pp.PubSub.Subscriber.{find_handler, poll, calls_of, poll-event_frame}
use modbus_pp.PubSub.Publisher
use modbus_pp.PubSub.Publisher.{
  Doubles, SubscriptionRequest, DataSource, slice, ActiveSubscription, Publisher,
  accept_subscription, remove_subscription, should_notify, notify, keep_reading, on_change,
}
use modbus_pp.PubSub.Publisher.Loop.{scan_sources, scan_and_notify, scan_and_notify-quiet}
use modbus_pp.PubSub.Publisher.Faults.{any_short, scan_and_notify_fault}
use modbus_pp.PubSub.Delivered.{keys, IsReport, poll-scan_and_notify}
use modbus_pp.PubSub.Publisher.Scan.{notify-first, remove_subscription-accept_subscription}

abbrev at : ℕ → Timestamp
at us = from_epoch_us (pos us)

abbrev event : EventNotification
event = record {
  subscription_id = 5;
  start_address = 102;
  timestamp = at 77;
  current_values = 8 ∷ 9 ∷ [];
}

event-IsSendable : IsSendable event
event-IsSendable = record {
  id_fits = omega arith;
  address_fits = omega arith;
  time_valid = omega arith;
  registers_fit = (omega arith, (omega arith, tt));
  few_registers = omega arith;
}

poll-event_frame_run :
    poll (at 99) ((5, 1) ∷ []) (map event_frame (event ∷ event ∷ []))
    ≡ ok (2, (1, event) ∷ (1, event) ∷ [])
unfolding find_handler
poll-event_frame_run =
    poll-event_frame (at 99) ((5, 1) ∷ []) (event ∷ event ∷ [])
      (event-IsSendable, (event-IsSendable, tt))

parse_event-ne-fault_run : parse_event (at 99) (0x6E ∷ 1 ∷ []) ≢ fault
parse_event-ne-fault_run = parse_event-ne-fault (at 99) (0x6E ∷ 1 ∷ [])

-- Whole numbers stand in for the doubles.
abbrev whole : Doubles
whole = record { Double = ℕ; above = λ v d. ltb d v; below = λ v d. ltb v d }

abbrev request : SubscriptionRequest whole
request = record {
  start_address = 102;
  count = 2;
  trigger = on_change;
  threshold_high = none;
  threshold_low = none;
  interval = none;
  dead_band = 0;
}

abbrev source : DataSource
source = record {
  start = 100;
  count = 10;
  current = 6 ∷ 7 ∷ 8 ∷ 9 ∷ 10 ∷ [];
  last_values = [];
  has_baseline = false;
}

abbrev subscription : ActiveSubscription whole
subscription = record { id = 5; client = 1; request = request; last_notified = at 0 }

notify-first_run :
    (notify whole (at 77) source subscription
      ≡ ok (record subscription { last_notified = at 77 }, event_frame event ∷ []))
    × (parse_event (at 99) (event_frame event) ≡ ok (some event))
notify-first_run =
    notify-first whole (at 77) (at 99) source subscription (8 ∷ 9 ∷ []) refl refl refl reading
      event-IsSendable
  where
    reading : slice source.current 2 2 ≡ ok (8 ∷ 9 ∷ [])
    reading = unfold slice in refl

remove_subscription-accept_subscription_run :
    let p : Publisher.Publisher whole = record { next_sub_id = 5; subscriptions = [] } in
    let (accepted, q) = accept_subscription whole (at 0) 1 request p in
    let (removed, r) = remove_subscription whole 5 q in
    (accepted ≡ ok 5)
    × (removed ≡ ok tt)
    × (r.subscriptions ≡ [])
    × ((remove_subscription whole 5 r).0 ≡ err illegal_data_address)
remove_subscription-accept_subscription_run =
    remove_subscription-accept_subscription whole (at 0) 1 request
      (record { next_sub_id = 5; subscriptions = [] }) none_held
  where
    none_held : Publisher.without whole 5 [] ≡ []
    none_held = unfold Publisher.without in refl

abbrev publisher : Publisher.Publisher whole
publisher = record { next_sub_id = 6; subscriptions = subscription ∷ [] }

-- The reading that ends before the range of the subscription.
abbrev short_source : DataSource
short_source = record source { current = 6 ∷ [] }

scan_and_notify_fault_example :
    (scan_and_notify whole (at 77) true (short_source ∷ []) publisher ≡ fault)
    ↔ (any_short whole (short_source ∷ []) (request ∷ []) ≡ true)
scan_and_notify_fault_example =
    scan_and_notify_fault whole (at 77) true (short_source ∷ []) publisher

short_faults : scan_and_notify whole (at 77) true (short_source ∷ []) publisher ≡ fault
short_faults = scan_and_notify_fault_example.1 refl

-- The temperatures of the README in tenths of a degree, with its band of 5 degrees: the third one is
-- more than the band from the one that was notified, and less than it from the one before.
abbrev celsius : SubscriptionRequest whole
celsius = record request { start_address = 100; count = 1; dead_band = 50 }

abbrev thermometer : ℕ → List ℕ → DataSource
thermometer value before = record {
  start = 100;
  count = 1;
  current = value ∷ [];
  last_values = before;
  has_baseline = true;
}

abbrev sensor : Publisher.Publisher whole
sensor = record {
  next_sub_id = 43;
  subscriptions = record { id = 42; client = 1; request = celsius; last_notified = at 1 } ∷ [];
}

scan_and_notify-quiet_example :
    scan_and_notify whole (at 90) true (thermometer 261 (223 ∷ []) ∷ []) sensor
    ≡ ok (0, [], keep_reading (thermometer 261 (223 ∷ [])) ∷ [], sensor)
unfolding slice
scan_and_notify-quiet_example =
    scan_and_notify-quiet whole (at 90) true (thermometer 261 (223 ∷ []) ∷ []) sensor (
      (
        (λ inside. record {
          to_changes = refl;
          baseline = refl;
          current = 261 ∷ [];
          first = 223;
          others = [];
          reads = refl;
          has_read = refl;
          within = (refl, tt);
        }),
        tt,
      ),
      tt,
    )

-- Of 20.0, 22.3 and 26.1 degrees the first one is notified, and neither of the others.
abbrev sent_by : Result (ℕ × List (List ℕ) × List DataSource × Publisher.Publisher whole) → Result ℕ
sent_by r = map_result (λ x. x.0) r

drift_is_silent :
    (sent_by (
        scan_and_notify whole
          (at 80)
          true
          (record (thermometer 200 []) { has_baseline = false } ∷ [])
          sensor)
      ≡ ok 1)
    × (sent_by (scan_and_notify whole (at 81) true (thermometer 223 (200 ∷ []) ∷ []) sensor) ≡ ok 0)
    × (sent_by (scan_and_notify whole (at 82) true (thermometer 261 (223 ∷ []) ∷ []) sensor) ≡ ok 0)
unfolding scan_and_notify scan_sources notify should_notify slice
drift_is_silent = (refl, refl, refl)

-- The first scan, by contrast, sends one notification.
first_scan :
    map_result (λ r. r.0) (scan_and_notify whole (at 80) true (source ∷ []) publisher) ≡ ok 1
unfolding scan_and_notify scan_sources notify should_notify slice
first_scan = refl

-- Handler 1 is called with the two registers of the range.
poll-scan_and_notify_example :
    (notifs : List EventNotification) × (poll (at 99) ((5, 1) ∷ []) (event_frame event ∷ [])
      ≡ ok (1, calls_of ((5, 1) ∷ []) notifs))
    × All (IsReport whole (at 77) (source ∷ []) ((5, request) ∷ [])) notifs
    × (keys whole (record subscription { last_notified = at 77 } ∷ [])
        ≡ keys whole (subscription ∷ []))
unfolding scan_and_notify scan_sources notify should_notify slice
poll-scan_and_notify_example =
    poll-scan_and_notify whole (at 77) (at 99) (source ∷ []) publisher ((5, 1) ∷ []) (omega arith)
      ((omega arith, (omega arith, (omega arith, (omega arith, (omega arith, tt))))), tt)
      ((omega arith, omega arith, omega arith), tt) scanned
  where
    scanned :
        scan_and_notify whole (at 77) true (source ∷ []) publisher
        ≡ ok (
          1,
          event_frame event ∷ [],
          keep_reading source ∷ [],
          record publisher { subscriptions = record subscription { last_notified = at 77 } ∷ [] },
        )
    scanned = refl
