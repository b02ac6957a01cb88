-- ===== src/PubSub/Publisher.antt =====
-- src/pubsub/publisher.cpp. The comparisons of a register, or of the distance of two registers, with
-- a `double` are parameters; the readings of the clock and of a data source are
-- arguments, and one reading of the clock stands for those of one notification.
pub mod Scan
pub mod Loop
pub mod Faults
use modbus_pp.Common.{
  ℕ, ◌+◌, ◌-◌, ◌%◌, ◌^◌, min, Bool, true, false, not, ◌&&◌, ◌||◌, Option, none, some, List, [], ◌∷◌,
  ◌++◌, ltb, leb, ◌==◌, if◌then◌else◌, length, take, drop,
}
use modbus_pp.Common.Int.{ℤ, ltb_ℤ}
use modbus_pp.Core.Error.{illegal_data_address}
use modbus_pp.Core.Result.{Result, ◌>>=◌, ok, err, fault}
use modbus_pp.Core.Timestamp.{Timestamp, elapsed}
use modbus_pp.Pipeline.RequestQueue.{times_1000}
use modbus_pp.PubSub.Event.{event_frame}

pub data Trigger : Type 0 where
  on_change : Trigger
  on_threshold : Trigger
  periodic : Trigger

-- `value > d` and `value < d` for a whole number from 0 to 65535.
pub record Doubles : Type 1 where
  pub Double : Type 0
  pub above : ℕ → Double → Bool
  pub below : ℕ → Double → Bool

pub record SubscriptionRequest (doubles : Doubles) : Type 0 where
  pub start_address : ℕ
  pub count : ℕ
  pub trigger : Trigger
  pub threshold_high : Option doubles.Double
  pub threshold_low : Option doubles.Double
  pub interval : Option ℤ
  pub dead_band : doubles.Double

-- What a data source stands for in one scan: its range, its reading, and the reading before it.
pub record DataSource : Type 0 where
  pub start : ℕ
  pub count : ℕ
  pub current : List ℕ
  pub last_values : List ℕ
  pub has_baseline : Bool

-- `sources_.push_back({start, count, reader, {}, false})`; the reader answers at each scan.
abbrev pub register_data_source : ℕ → ℕ → List ℕ → List DataSource → List DataSource
register_data_source start count reading sources =
    sources
    ++ (record {
      start = start;
      count = count;
      current = reading;
      last_values = [];
      has_baseline = false;
    }
        ∷ [])

-- `std::abs(a - b)`
abbrev distance : ℕ → ℕ → ℕ
distance a b = (a - b) + (b - a)

-- The slice from `offset` on. Where the range starts behind the end of the reading, the iterators
-- are in the wrong order.
unfoldable pub slice : List ℕ → ℕ → ℕ → Result (List ℕ)
slice values offset count =
    let end = min (offset + count) (length values) in
    if leb offset end then ok (take (end - offset) (drop offset values)) else fault

module _ (doubles : Doubles) where
  pub record ActiveSubscription : Type 0 where
    pub id : ℕ
    pub client : ℕ
    pub request : SubscriptionRequest doubles
    pub last_notified : Timestamp

  pub record Publisher : Type 0 where
    pub next_sub_id : ℕ
    pub subscriptions : List ActiveSubscription

  pub accept_subscription :
      Timestamp → ℕ → SubscriptionRequest doubles → Publisher → Result ℕ × Publisher
  accept_subscription now client request p =
      let id = p.next_sub_id in
      let sub : ActiveSubscription = record {
        id = id;
        client = client;
        request = request;
        last_notified = now;
      } in
      (
        ok id,
        record p { next_sub_id = (id + 1) % 2 ^ 32; subscriptions = p.subscriptions ++ (sub ∷ []) },
      )

  -- `std::remove_if`
  unfoldable pub without : ℕ → List ActiveSubscription → List ActiveSubscription
  without id [] = []
  without id (sub ∷ subs) = let rest = without id subs in if sub.id == id then rest else sub ∷ rest

  pub remove_subscription : ℕ → Publisher → Result (Unit {0}) × Publisher
  remove_subscription id p =
      let kept = without id p.subscriptions in
      (
        if length kept == length p.subscriptions then err illegal_data_address else ok tt,
        record p { subscriptions = kept },
      )

  abbrev exceeds : (ℕ → doubles.Double → Bool) → ℕ → Option doubles.Double → Bool
  exceeds test value none = false
  exceeds test value (some bound) = test value bound

  -- Some register moved by more than the dead band.
  abbrev pub has_moved : doubles.Double → List ℕ → List ℕ → Bool
  has_moved dead_band [] previous = false
  has_moved dead_band (c ∷ current) [] = false
  has_moved dead_band (c ∷ current) (q ∷ previous) =
      doubles.above (distance c q) dead_band || has_moved dead_band current previous

  abbrev is_due : Timestamp → Timestamp → Option ℤ → Bool
  is_due now last none = false
  is_due now last (some interval) = not (ltb_ℤ (elapsed now last) (times_1000 interval))

  abbrev pub has_changed : doubles.Double → List ℕ → List ℕ → Bool
  has_changed dead_band current [] = true
  has_changed dead_band current (q ∷ previous) = has_moved dead_band current (q ∷ previous)

  abbrev is_outside : Option doubles.Double → Option doubles.Double → List ℕ → Bool
  is_outside high low [] = false
  is_outside high low (value ∷ current) =
      exceeds doubles.above value high || exceeds doubles.below value low

  unfoldable pub should_notify : Timestamp → ActiveSubscription → List ℕ → List ℕ → Bool
  should_notify now sub current previous = elim sub.request.trigger [
    | periodic ↦ is_due now sub.last_notified sub.request.interval
    | on_change ↦ has_changed sub.request.dead_band current previous
    | on_threshold ↦ is_outside sub.request.threshold_high sub.request.threshold_low current
  ]

  -- `continue` is the other case: the range does not start in the source.
  abbrev pub overlaps : ActiveSubscription → DataSource → Bool
  overlaps sub source =
      leb source.start sub.request.start_address
      && ltb sub.request.start_address (source.start + source.count)

  -- What the scan of one source sends for one subscription, and the subscription then.
  unfoldable pub notify :
      Timestamp → DataSource → ActiveSubscription → Result (ActiveSubscription × List (List ℕ))
  notify now source sub =
      if overlaps sub source
      then (do
        let offset = sub.request.start_address - source.start
        current ← slice source.current offset sub.request.count
        previous ←
            if source.has_baseline then slice source.last_values offset sub.request.count else ok []
        ok (
            if should_notify now sub current previous
            then (
              record sub { last_notified = now },
              event_frame (record {
                subscription_id = sub.id;
                start_address = sub.request.start_address;
                timestamp = now;
                current_values = current;
              })
                  ∷ [],
            )
            else (sub, [])))
      else ok (sub, [])

  -- The inner loop of `scan_and_notify`, over a connection that is up.
  abbrev pub scan_source :
      Timestamp
      → DataSource
      → List ActiveSubscription
      → Result (List ActiveSubscription × List (List ℕ))
  scan_source now source [] = ok ([], [])
  scan_source now source (sub ∷ subs) = do
    (sub', frames) ← notify now source sub
    (subs', others) ← scan_source now source subs
    ok (sub' ∷ subs', frames ++ others)

-- What a scan leaves of the reading for the next one.
abbrev pub keep_reading : DataSource → DataSource
keep_reading source = record source { last_values = source.current; has_baseline = true }
