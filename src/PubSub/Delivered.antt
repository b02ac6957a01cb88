-- ===== src/PubSub/Delivered.antt =====
-- A scan of the publisher, and the poll of a subscriber at the other end of its connection.
use mathlib.Core.List.{Memᴰ}
use modbus_pp.Common.{
  ℕ, zero, suc, ◌+◌, ◌-◌, ◌^◌, ◌≤◌, ◌<◌, min, ◌≡◌, refl, sym, ap, ap₂, subst, ◌∙◌, inl, inr, true,
  List, [], ◌∷◌, ◌++◌, map, arith, leb, if◌then◌else◌, Bool-cases, length, take, drop, All,
  length-drop, All-join, All-map, All-take, All-drop, length-take_le, IsWord16,
}
use modbus_pp.Core.Result.{bind_ok, ok}
use modbus_pp.Core.Timestamp.{Timestamp, IsValid}
use modbus_pp.PubSub.Event.{EventNotification, event_frame}
use modbus_pp.PubSub.Event.RoundTrip.{IsSendable}
use modbus_pp.PubSub.Publisher.{
  Doubles, SubscriptionRequest, DataSource, slice, ActiveSubscription, Publisher, should_notify,
  overlaps, notify, scan_source, keep_reading,
}
use modbus_pp.PubSub.Publisher.Loop.{scan_sources, scan_and_notify}
use modbus_pp.PubSub.Subscriber.{Handlers, poll, calls_of, poll-event_frame}

All-at : {A : Type 0} (P : A → Type 0) {x : A} (xs : List A) → All P xs → Memᴰ x xs → P x
All-at P [] h m = elim m [ ]
All-at P (y ∷ xs) h (Memᴰ.head e) = subst P (sym e) h.0
All-at P (y ∷ xs) h (Memᴰ.tail m) = All-at P xs h.1 m

-- The one member of a list is a member of each list that starts with it.
front_member : {A : Type 0} {x y : A} (ys : List A) → Memᴰ x (y ∷ []) → Memᴰ x (y ∷ ys)
front_member ys (Memᴰ.head e) = Memᴰ.head e
front_member ys (Memᴰ.tail m) = elim m [ ]

take_short : (n : ℕ) (xs : List ℕ) → length xs ≤ n → take n xs ≡ take (length xs) xs
take_short zero [] h = refl
take_short zero (x ∷ xs) h = absurd (omega arith)
take_short (suc n) [] h = refl
take_short (suc n) (x ∷ xs) h = ap (λ zs. x ∷ zs) (take_short n xs (omega arith))

-- A slice is what stands behind the offset, and no more than was asked for.
slice_reads :
    (values : List ℕ) (offset count : ℕ) {registers : List ℕ}
    → slice values offset count ≡ ok registers
    → registers ≡ take count (drop offset values)
unfolding slice
slice_reads values offset count {registers} e =
    let end = min (offset + count) (length values) in
    let size = length-drop offset values in
    elim (Bool-cases (leb offset end)) [
      | inl inside ↦
          let e' = rw inside at e in
          let same : take (end - offset) (drop offset values) ≡ registers = cc in
          elim (Bool-cases (leb (offset + count) (length values))) [
            | inl whole ↦
                let exact : end - offset ≡ count = ground arith in
                sym same ∙ ap (λ n. take n (drop offset values)) exact
            | inr cut ↦
                let rest : end - offset ≡ length (drop offset values) = ground (arith, size) in
                let over : length (drop offset values) ≤ count = ground (arith, size) in
                sym same
                ∙ ap (λ n. take n (drop offset values)) rest
                ∙ sym (take_short count (drop offset values) over)
          ]
      | inr outside ↦ let e' = rw outside at e in absurd cc
    ]

module _ (doubles : Doubles) where
  -- What a scan never changes of a subscription: its identifier and its request.
  abbrev pub Key : Type 0
  Key = ℕ × SubscriptionRequest doubles

  abbrev key : ActiveSubscription doubles → Key
  key sub = (sub.id, sub.request)

  abbrev pub keys : List (ActiveSubscription doubles) → List Key
  keys [] = []
  keys (sub ∷ subs) = key sub ∷ keys subs

  -- A notification of one subscription, whose range starts in the source: the registers of the reading
  -- from there on, as many as were asked for or as there are.
  pub record Reports (now : Timestamp) (source : DataSource) (k : Key) (notif : EventNotification)
      : Type 0 where
    pub of_subscription : notif.subscription_id ≡ k.0
    pub of_range : notif.start_address ≡ k.1.start_address
    pub at_time : notif.timestamp ≡ now
    pub starts_behind : source.start ≤ k.1.start_address
    pub starts_before : k.1.start_address < source.start + source.count
    pub of_reading :
        notif.current_values
        ≡ take k.1.count (drop (k.1.start_address - source.start) source.current)

  abbrev pub IsReport : Timestamp → List DataSource → List Key → EventNotification → Type 0
  IsReport now sources ks notif =
      (source : DataSource) × Memᴰ source sources
      × (k : Key) × Memᴰ k ks
      × Reports now source k notif

  -- A range that one frame can carry.
  abbrev pub IsCarried : Key → Type 0
  IsCarried k = (k.0 < 2 ^ 32) × IsWord16 k.1.start_address × (k.1.count ≤ 32763)

  Reports-IsSendable :
      (now : Timestamp) (source : DataSource) (k : Key) (notif : EventNotification)
      → IsValid now
      → All IsWord16 source.current
      → IsCarried k
      → Reports now source k notif
      → IsSendable notif
  Reports-IsSendable now source k notif v words (small, address, few) r =
      let behind = drop (k.1.start_address - source.start) source.current in
      record {
        id_fits = omega (arith, r.of_subscription);
        address_fits = omega (arith, r.of_range);
        time_valid = subst IsValid (sym r.at_time) v;
        registers_fit = subst (All IsWord16) (sym r.of_reading) (
            All-take IsWord16 k.1.count behind
              (All-drop IsWord16 (k.1.start_address - source.start) source.current words));
        few_registers = omega (arith, ap length r.of_reading, length-take_le k.1.count behind);
      }

  -- What came of a step: frames of reports, and subscriptions with the keys that were there.
  record Sent (now : Timestamp) (sources : List DataSource) (ks : List Key)
      (subs : List (ActiveSubscription doubles)) (frames : List (List ℕ)) : Type 0 where
    notifs : List EventNotification
    frames_of : frames ≡ map event_frame notifs
    same_keys : keys subs ≡ ks
    reports : All (IsReport now sources ks) notifs

  silent :
      (now : Timestamp) (sources : List DataSource) (subs : List (ActiveSubscription doubles))
      → Sent now sources (keys subs) subs []
  silent now sources subs = record { notifs = []; frames_of = refl; same_keys = refl; reports = tt }

  report-Sent :
      (now : Timestamp) (source : DataSource) (sub : ActiveSubscription doubles) (current : List ℕ)
      → overlaps doubles sub source ≡ true
      → slice source.current (sub.request.start_address - source.start) sub.request.count
        ≡ ok current
      → let notif : EventNotification = record {
        subscription_id = sub.id;
        start_address = sub.request.start_address;
        timestamp = now;
        current_values = current;
      } in
        Sent now
          (source ∷ [])
          (key sub ∷ [])
          (record sub { last_notified = now } ∷ [])
          (event_frame notif ∷ [])
  report-Sent now source sub current inside reads = record {
    notifs =
        record {
          subscription_id = sub.id;
          start_address = sub.request.start_address;
          timestamp = now;
          current_values = current;
        }
        ∷ [];
    frames_of = refl;
    same_keys = refl;
    reports = (
      (
        source,
        Memᴰ.head refl,
        key sub,
        Memᴰ.head refl,
        record {
          of_subscription = refl;
          of_range = refl;
          at_time = refl;
          starts_behind = ground arith;
          starts_before = ground arith;
          of_reading =
              slice_reads source.current (sub.request.start_address - source.start)
                sub.request.count reads;
        },
      ),
      tt,
    );
  }

  notify-Sent :
      (now : Timestamp) (source : DataSource) (sub : ActiveSubscription doubles)
      {x : ActiveSubscription doubles × List (List ℕ)}
      → notify doubles now source sub ≡ ok x
      → Sent now (source ∷ []) (key sub ∷ []) (x.0 ∷ []) x.1
  unfolding notify
  notify-Sent now source sub {x} e =
      let offset = sub.request.start_address - source.start in
      let Step : ActiveSubscription doubles × List (List ℕ) → Type 0 =
        λ y. Sent now (source ∷ []) (key sub ∷ []) (y.0 ∷ []) y.1 in
      elim (Bool-cases (overlaps doubles sub source)) [
        | inl inside ↦
            let e0 = rw inside at e in
            let (current, reads, e1) =
              bind_ok (slice source.current offset sub.request.count) _ e0 in
            let (previous, reads', e2) =
              bind_ok
                (if source.has_baseline
                  then slice source.last_values offset sub.request.count
                  else ok [])
                _ e1 in
            elim (Bool-cases (should_notify doubles now sub current previous)) [
              | inl due ↦
                  let e3 = rw due at e2 in
                  let notif : EventNotification = record {
                    subscription_id = sub.id;
                    start_address = sub.request.start_address;
                    timestamp = now;
                    current_values = current;
                  } in
                  let same : (record sub { last_notified = now }, event_frame notif ∷ []) ≡ x =
                    cc in
                  subst Step same (report-Sent now source sub current inside reads)
              | inr quiet ↦
                  let e3 = rw quiet at e2 in
                  let same : (sub, []) ≡ x = cc in
                  subst Step same (silent now (source ∷ []) (sub ∷ []))
            ]
        | inr outside ↦
            let e' = rw outside at e in
            let same : (sub, []) ≡ x = cc in subst Step same (silent now (source ∷ []) (sub ∷ []))
      ]

  map-append_frames :
      (xs ys : List EventNotification)
      → map event_frame xs ++ map event_frame ys ≡ map event_frame (xs ++ ys)
  map-append_frames [] ys = refl
  map-append_frames (x ∷ xs) ys = ap (◌∷◌ (event_frame x)) (map-append_frames xs ys)

  -- Two steps one after the other.
  later :
      (now : Timestamp) {sources sources' all : List DataSource} {ks ks' every : List Key}
      {subs subs' : List (ActiveSubscription doubles)} {frames frames' : List (List ℕ)}
      (after : List (ActiveSubscription doubles))
      → keys after ≡ every
      → ((source : DataSource) → Memᴰ source sources → Memᴰ source all)
      → ((source : DataSource) → Memᴰ source sources' → Memᴰ source all)
      → ((k : Key) → Memᴰ k ks → Memᴰ k every)
      → ((k : Key) → Memᴰ k ks' → Memᴰ k every)
      → Sent now sources ks subs frames
      → Sent now sources' ks' subs' frames'
      → Sent now all every after (frames ++ frames')
  later now {sources} {sources'} {all} {ks} {ks'} {every} after same f f' g g' a b = record {
    notifs = a.notifs ++ b.notifs;
    frames_of = ap₂ ◌++◌ a.frames_of b.frames_of ∙ map-append_frames a.notifs b.notifs;
    same_keys = same;
    reports =
        All-join (IsReport now all every) a.notifs b.notifs
          (All-map (IsReport now sources ks) (IsReport now all every) a.notifs
            (λ notif (source, m, k, n, r). (source, f source m, k, g k n, r)) a.reports)
          (All-map (IsReport now sources' ks') (IsReport now all every) b.notifs
            (λ notif (source, m, k, n, r). (source, f' source m, k, g' k n, r)) b.reports);
  }

  scan_source-Sent :
      (now : Timestamp) (source : DataSource) (subs : List (ActiveSubscription doubles))
      {x : List (ActiveSubscription doubles) × List (List ℕ)}
      → scan_source doubles now source subs ≡ ok x
      → Sent now (source ∷ []) (keys subs) x.0 x.1
  scan_source-Sent now source [] {x} e =
      let same : ([], []) ≡ x = cc in
      subst (λ y. Sent now (source ∷ []) [] y.0 y.1) same (silent now (source ∷ []) [])
  scan_source-Sent now source (sub ∷ subs) {x} e =
      let (y, first, e1) = bind_ok (notify doubles now source sub) _ e in
      let (z, others, e2) = bind_ok (scan_source doubles now source subs) _ e1 in
      let same : (y.0 ∷ z.0, y.1 ++ z.1) ≡ x = cc in
      let a = notify-Sent now source sub first in
      let b = scan_source-Sent now source subs others in
      subst (λ v. Sent now (source ∷ []) (keys (sub ∷ subs)) v.0 v.1) same
        (later now (y.0 ∷ z.0) (ap₂ ◌++◌ a.same_keys b.same_keys) (λ s m. m) (λ s m. m)
          (λ k m. front_member (keys subs) m) (λ k m. Memᴰ.tail m) a b)

  scan_sources-Sent :
      (now : Timestamp) (sources : List DataSource) (subs : List (ActiveSubscription doubles))
      {x : List (ActiveSubscription doubles) × List (List ℕ) × List DataSource}
      → scan_sources doubles now sources subs ≡ ok x
      → Sent now sources (keys subs) x.0 x.1
  unfolding scan_sources
  scan_sources-Sent now [] subs {x} e =
      let same : (subs, [], []) ≡ x = cc in
      subst (λ y. Sent now [] (keys subs) y.0 y.1) same (silent now [] subs)
  scan_sources-Sent now (source ∷ sources) subs {x} e =
      let (y, first, e1) = bind_ok (scan_source doubles now source subs) _ e in
      let (z, others, e2) = bind_ok (scan_sources doubles now sources y.0) _ e1 in
      let same : (z.0, y.1 ++ z.1, keep_reading source ∷ z.2) ≡ x = cc in
      let a = scan_source-Sent now source subs first in
      let b = scan_sources-Sent now sources y.0 others in
      subst (λ v. Sent now (source ∷ sources) (keys subs) v.0 v.1) same
        (later now z.0 (b.same_keys ∙ a.same_keys) (λ s m. front_member sources m)
          (λ s m. Memᴰ.tail m) (λ k m. m) (λ k m. subst (Memᴰ k) a.same_keys m) a b)

  length-map_frames :
      (notifs : List EventNotification) → length (map event_frame notifs) ≡ length notifs
  length-map_frames [] = refl
  length-map_frames (notif ∷ notifs) = ap suc (length-map_frames notifs)

  -- What a scan sends over a connection that is up, a subscriber polls: as many events as the scan
  -- says that it sent, each calling the handler of its subscription, if it has one. Each event is of a
  -- subscription whose range starts in a source, and carries the registers that this source read from
  -- there on, as many as the subscription asked for or as the reading has. This holds where the scan
  -- ends without leaving a reading, the readings are 16-bit registers, the time fits its field, and one
  -- frame can carry each range. The scan leaves the identifiers and requests of all subscriptions as
  -- they were.
  pub poll-scan_and_notify :
      (now clock : Timestamp) (sources : List DataSource) (p : Publisher doubles)
      (handlers : Handlers) {n : ℕ} {frames : List (List ℕ)} {kept : List DataSource}
      {q : Publisher doubles}
      → IsValid now
      → All (λ source. All IsWord16 source.current) sources
      → All IsCarried (keys p.subscriptions)
      → scan_and_notify doubles now true sources p ≡ ok (n, frames, kept, q)
      → (notifs : List EventNotification) × (poll clock handlers frames
          ≡ ok (n, calls_of handlers notifs))
        × All (IsReport now sources (keys p.subscriptions)) notifs
        × (keys q.subscriptions ≡ keys p.subscriptions)
  unfolding scan_and_notify
  poll-scan_and_notify now clock sources p handlers {n} {frames} {kept} {q} v words carried e =
      let (x, scanned, e1) = bind_ok (scan_sources doubles now sources p.subscriptions) _ e in
      let s = scan_sources-Sent now sources p.subscriptions scanned in
      let scan : ℕ × List (List ℕ) × List DataSource × Publisher doubles =
        (length x.1, x.1, x.2, record p { subscriptions = x.0 }) in
      let same : scan ≡ (n, frames, kept, q) = cc in
      let sendable : All IsSendable s.notifs =
        All-map (IsReport now sources (keys p.subscriptions)) IsSendable s.notifs
          (λ notif (source, m, k, m', r).
            Reports-IsSendable now source k notif v (All-at _ sources words m)
              (All-at IsCarried _ carried m') r)
          s.reports in
      let counted : length s.notifs ≡ n =
        sym (length-map_frames s.notifs) ∙ ap length (sym s.frames_of) ∙ ap (λ r. r.0) same in
      (
        s.notifs,
        ap (poll clock handlers) (sym (ap (λ r. r.1) same) ∙ s.frames_of)
            ∙ poll-event_frame clock handlers s.notifs sendable
            ∙ ap (λ (k : ℕ). ok (k, calls_of handlers s.notifs)) counted,
        s.reports,
        ap (λ r. keys r.3.subscriptions) (sym same) ∙ s.same_keys,
      )
