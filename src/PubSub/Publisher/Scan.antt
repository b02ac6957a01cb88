-- ===== src/PubSub/Publisher/Scan.antt =====
-- Subscriptions of the publisher, and what a scan sends for them.
use modbus_pp.Common.{
  ℕ, ◌-◌, ◌≡◌, refl, ◌∙◌, true, false, some, List, [], ◌∷◌, ◌++◌, arith, ◌==◌, eq→==, length,
  length-append,
}
use modbus_pp.Core.Error.{illegal_data_address}
use modbus_pp.Core.Result.{ok, err}
use modbus_pp.Core.Timestamp.{Timestamp}
use modbus_pp.PubSub.Event.{EventNotification, event_frame, parse_event}
use modbus_pp.PubSub.Event.RoundTrip.{IsSendable, parse_event-event_frame}
use modbus_pp.PubSub.Publisher.{
  Doubles, SubscriptionRequest, DataSource, slice, ActiveSubscription, Publisher,
  accept_subscription, without, remove_subscription, should_notify, overlaps, notify, on_change,
}

module _ (doubles : Doubles) where
  -- The first scan of a source notifies a subscription to changes that starts in it, where the reading reaches
  -- the subscribed range and one frame can carry the notification: one frame is sent, which a
  -- subscriber reads as the registers of the subscribed range that the reading has.
  pub notify-first :
      (now clock : Timestamp) (source : DataSource) (sub : ActiveSubscription doubles)
      (registers : List ℕ)
      → overlaps doubles sub source ≡ true
      → sub.request.trigger ≡ on_change
      → source.has_baseline ≡ false
      → slice source.current (sub.request.start_address - source.start) sub.request.count
        ≡ ok registers
      → let notif : EventNotification = record {
        subscription_id = sub.id;
        start_address = sub.request.start_address;
        timestamp = now;
        current_values = registers;
      } in
        IsSendable notif
        → (notify doubles now source sub
            ≡ ok (record sub { last_notified = now }, event_frame notif ∷ []))
          × (parse_event clock (event_frame notif) ≡ ok (some notif))
  unfolding notify should_notify
  notify-first now clock source sub registers inside changes first reading sendable =
      (rw (inside, reading, first, changes) refl, parse_event-event_frame _ clock sendable)

  without-append :
      (id : ℕ) (subs : List (ActiveSubscription doubles)) (sub : ActiveSubscription doubles)
      → sub.id ≡ id
      → without doubles id (subs ++ (sub ∷ [])) ≡ without doubles id subs
  unfolding without
  without-append id [] sub e = let same = eq→== sub.id id e in rw same refl
  without-append id (s ∷ subs) sub e = let rest = without-append id subs sub e in rw rest refl

  -- A subscription that is accepted under an identifier that no other has, and then removed, leaves
  -- the subscriptions as they were; a second removal is an error.
  pub remove_subscription-accept_subscription :
      (now : Timestamp) (client : ℕ) (request : SubscriptionRequest doubles) (p : Publisher doubles)
      → without doubles p.next_sub_id p.subscriptions ≡ p.subscriptions
      → let (accepted, q) = accept_subscription doubles now client request p in
        let (removed, r) = remove_subscription doubles p.next_sub_id q in
        (accepted ≡ ok p.next_sub_id)
        × (removed ≡ ok tt)
        × (r.subscriptions ≡ p.subscriptions)
        × ((remove_subscription doubles p.next_sub_id r).0 ≡ err illegal_data_address)
  unfolding accept_subscription remove_subscription
  remove_subscription-accept_subscription now client request p fresh =
      let sub : ActiveSubscription doubles = record {
        id = p.next_sub_id;
        client = client;
        request = request;
        last_notified = now;
      } in
      let gone = without-append p.next_sub_id p.subscriptions sub refl ∙ fresh in
      let shorter : (length p.subscriptions == length (p.subscriptions ++ (sub ∷ []))) ≡ false =
        ground (arith, length-append p.subscriptions (sub ∷ [])) in
      let same : (length p.subscriptions == length p.subscriptions) ≡ true = eq→== _ _ refl in
      rw (gone, fresh, shorter, same) (refl, refl, refl, refl)
