-- ===== src/PubSub/Publisher/Loop.antt =====
-- Publisher::scan_and_notify: the loop over the data sources. One reading of the clock stands for
-- those of one scan, and a source comes with its reading.
use modbus_pp.Common.{
  ℕ, ◌+◌, ◌-◌, ◌≡◌, refl, inl, inr, Bool, true, false, List, [], ◌∷◌, ◌++◌, map, if◌then◌else◌,
  Bool-cases, if_by_cases, length, All,
}
use modbus_pp.Core.Result.{Result, ◌>>=◌, ok}
use modbus_pp.Core.Timestamp.{Timestamp}
use modbus_pp.PubSub.Publisher.{
  Doubles, DataSource, slice, ActiveSubscription, Publisher, has_moved, should_notify, overlaps,
  notify, scan_source, keep_reading, on_change,
}

module _ (doubles : Doubles) where
  abbrev pub subscription_count : Publisher doubles → ℕ
  subscription_count p = length p.subscriptions

  -- The notifications of each source come before those of the next one; the subscriptions that the
  -- next source meets are those that this one left.
  unfoldable pub scan_sources :
      Timestamp
      → List DataSource
      → List (ActiveSubscription doubles)
      → Result (List (ActiveSubscription doubles) × List (List ℕ) × List DataSource)
  scan_sources now [] subs = ok (subs, [], [])
  scan_sources now (source ∷ sources) subs = do
    (subs', frames) ← scan_source doubles now source subs
    (subs'', others, kept) ← scan_sources now sources subs'
    ok (subs'', frames ++ others, keep_reading source ∷ kept)

  -- What is sent, which is nothing where no connection is up, and `notifications_sent`.
  unfoldable pub scan_and_notify :
      Timestamp
      → Bool
      → List DataSource
      → Publisher doubles
      → Result (ℕ × List (List ℕ) × List DataSource × Publisher doubles)
  scan_and_notify now connected sources p = do
    (subs, frames, kept) ← scan_sources now sources p.subscriptions
    ok (length frames, if connected then frames else [], kept, record p { subscriptions = subs })

  -- Each register is no further than the band from the one before, as far as both lists reach.
  abbrev pub Within : doubles.Double → List ℕ → List ℕ → Type 0
  Within dead_band [] previous = Unit
  Within dead_band (c ∷ current) [] = Unit
  Within dead_band (c ∷ current) (q ∷ previous) =
      (doubles.above ((c - q) + (q - c)) dead_band ≡ false) × Within dead_band current previous

  -- A subscription to changes, of registers that moved by no more than its band since the scan before.
  pub record IsStill (source : DataSource) (sub : ActiveSubscription doubles) : Type 0 where
    pub to_changes : sub.request.trigger ≡ on_change
    pub baseline : source.has_baseline ≡ true
    pub current : List ℕ
    pub first : ℕ
    pub others : List ℕ
    pub reads :
        slice source.current (sub.request.start_address - source.start) sub.request.count
        ≡ ok current
    pub has_read :
        slice source.last_values (sub.request.start_address - source.start) sub.request.count
        ≡ ok (first ∷ others)
    pub within : Within sub.request.dead_band current (first ∷ others)

  -- Each subscription that starts in the source is still.
  abbrev pub StillAt : DataSource → ActiveSubscription doubles → Type 0
  StillAt source sub = overlaps doubles sub source ≡ true → IsStill source sub

  has_moved-Within :
      (dead_band : doubles.Double) (current previous : List ℕ)
      → Within dead_band current previous
      → has_moved doubles dead_band current previous ≡ false
  has_moved-Within dead_band [] previous h = refl
  has_moved-Within dead_band (c ∷ current) [] h = refl
  has_moved-Within dead_band (c ∷ current) (q ∷ previous) h =
      rw (h.0) (has_moved-Within dead_band current previous h.1)

  notify-quiet :
      (now : Timestamp) (source : DataSource) (sub : ActiveSubscription doubles)
      → StillAt source sub
      → notify doubles now source sub ≡ ok (sub, [])
  unfolding notify should_notify
  notify-quiet now source sub h = elim (Bool-cases (overlaps doubles sub source)) [
    | inl inside ↦
        let w = h inside in
        let still =
          has_moved-Within sub.request.dead_band w.current (w.first ∷ w.others) w.within in
        rw (inside, w.reads, w.baseline, w.has_read, w.to_changes, still) refl
    | inr outside ↦ rw outside refl
  ]

  scan_source-quiet :
      (now : Timestamp) (source : DataSource) (subs : List (ActiveSubscription doubles))
      → All (StillAt source) subs
      → scan_source doubles now source subs ≡ ok (subs, [])
  scan_source-quiet now source [] h = refl
  scan_source-quiet now source (sub ∷ subs) h =
      rw (notify-quiet now source sub h.0, scan_source-quiet now source subs h.1) refl

  scan_sources-quiet :
      (now : Timestamp) (sources : List DataSource) (subs : List (ActiveSubscription doubles))
      → All (λ source. All (StillAt source) subs) sources
      → scan_sources now sources subs ≡ ok (subs, [], map keep_reading sources)
  unfolding scan_sources
  scan_sources-quiet now [] subs h = refl
  scan_sources-quiet now (source ∷ sources) subs h =
      rw (scan_source-quiet now source subs h.0, scan_sources-quiet now sources subs h.1) refl

  -- A scan notifies nobody and leaves the subscriptions as they were, where each of them that starts in
  -- a source asks for changes of registers that the source's reading and the one of the scan before
  -- reach, and each of these registers is no further than the band from what it was at the scan before.
  -- This holds whatever value was notified last, and however far the registers have moved from it.
  pub scan_and_notify-quiet :
      (now : Timestamp) (connected : Bool) (sources : List DataSource) (p : Publisher doubles)
      → All (λ source. All (StillAt source) p.subscriptions) sources
      → scan_and_notify now connected sources p ≡ ok (0, [], map keep_reading sources, p)
  unfolding scan_and_notify
  scan_and_notify-quiet now connected sources p h =
      let silent : List (List ℕ) = [] in
      let nothing : (if connected then silent else silent) ≡ silent =
        if_by_cases (λ (x : List (List ℕ)). x ≡ silent) connected (λ b. refl) (λ b. refl) in
      rw (scan_sources-quiet now sources p.subscriptions h, nothing) refl
