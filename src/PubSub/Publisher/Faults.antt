-- ===== src/PubSub/Publisher/Faults.antt =====
-- When Publisher::scan_and_notify leaves a reading: the iterators of a slice in the wrong order.
use modbus_pp.Common.{
  ℕ, ◌+◌, ◌-◌, min, ◌≡◌, refl, ap₂, subst, ◌↔◌, ◌⊎◌, inl, inr, Bool, true, false, ◌&&◌, ◌||◌, List,
  [], ◌∷◌, arith, ltb, leb, if◌then◌else◌, Bool-cases, if_by_cases, length,
}
use modbus_pp.Core.Result.{Result, ◌>>=◌, ok, fault}
use modbus_pp.Core.Timestamp.{Timestamp}
use modbus_pp.PubSub.Publisher.{
  Doubles, SubscriptionRequest, DataSource, slice, ActiveSubscription, Publisher, should_notify,
  overlaps, notify, scan_source,
}
use modbus_pp.PubSub.Publisher.Loop.{scan_sources, scan_and_notify}

-- A computation that faults where `b` says so, and else answers something with `P`.
Ends : {A : Type 0} → Result A → Bool → (A → Type 0) → Type 0
Ends {A} r b P = ((r ≡ fault) × (b ≡ true)) ⊎ ((a : A) × (r ≡ ok a) × (b ≡ false) × P a)

Ends-bind :
    {A B : Type 0} (r : Result A) (b : Bool) (P : A → Type 0) (f : A → Result B) (c : Bool)
    (Q : B → Type 0)
    → Ends r b P
    → ((a : A) → P a → Ends (f a) c Q)
    → Ends (r >>= f) (b || c) Q
unfolding Ends
Ends-bind r b P f c Q (inl (e, t)) next = inl (rw e refl, rw t refl)
Ends-bind r b P f c Q (inr (a, e, t, p)) next = rw (e, t) (next a p)

Ends-map :
    {A B : Type 0} (r : Result A) (b : Bool) (P : A → Type 0) (g : A → B) (Q : B → Type 0)
    → Ends r b P
    → ((a : A) → P a → Q (g a))
    → Ends (r >>= λ a. ok (g a)) b Q
unfolding Ends
Ends-map r b P g Q (inl (e, t)) h = inl (rw e refl, t)
Ends-map r b P g Q (inr (a, e, t, p)) h = inr (g a, rw e refl, t, h a p)

-- The range starts in the source, and behind the end of its reading or of the one kept.
abbrev pub is_short : {doubles : Doubles} → DataSource → SubscriptionRequest doubles → Bool
is_short source request =
    let offset = request.start_address - source.start in
    (leb source.start request.start_address
      && ltb request.start_address (source.start + source.count))
    && (ltb (length source.current) offset
        || source.has_baseline && ltb (length source.last_values) offset)

slice-Ends :
    (values : List ℕ) (offset count : ℕ)
    → Ends (slice values offset count) (ltb (length values) offset) (λ registers. Unit)
unfolding Ends slice
slice-Ends values offset count =
    elim (Bool-cases (leb offset (min (offset + count) (length values)))) [
      | inl inside ↦
          let long : ltb (length values) offset ≡ false = ground arith in
          rw (inside, long) (inr (_, refl, refl, tt))
      | inr outside ↦
          let short : ltb (length values) offset ≡ true = ground arith in
          rw (outside, short) (inl (refl, refl))
    ]

previous-Ends :
    (source : DataSource) (offset count : ℕ)
    → Ends
        (if source.has_baseline then slice source.last_values offset count else ok [])
        (source.has_baseline && ltb (length source.last_values) offset)
        (λ registers. Unit)
previous-Ends source offset count = elim (Bool-cases source.has_baseline) [
  | inl kept ↦ rw kept (slice-Ends source.last_values offset count)
  | inr first ↦ rw first (unfold Ends in inr ([], refl, refl, tt))
]

module _ (doubles : Doubles) where
  abbrev pub requests : List (ActiveSubscription doubles) → List (SubscriptionRequest doubles)
  requests [] = []
  requests (sub ∷ subs) = sub.request ∷ requests subs

  abbrev pub some_short : DataSource → List (SubscriptionRequest doubles) → Bool
  some_short source [] = false
  some_short source (request ∷ rs) = is_short source request || some_short source rs

  abbrev pub any_short : List DataSource → List (SubscriptionRequest doubles) → Bool
  any_short [] rs = false
  any_short (source ∷ sources) rs = some_short source rs || any_short sources rs

  notify-Ends :
      (now : Timestamp) (source : DataSource) (sub : ActiveSubscription doubles)
      → Ends
          (notify doubles now source sub)
          (is_short source sub.request)
          (λ x. x.0.request ≡ sub.request)
  unfolding notify
  notify-Ends now source sub = elim (Bool-cases (overlaps doubles sub source)) [
    | inl inside ↦ rw inside (
        let offset = sub.request.start_address - source.start in
        let later = source.has_baseline && ltb (length source.last_values) offset in
        Ends-bind (slice source.current offset sub.request.count)
          (ltb (length source.current) offset) (λ registers. Unit) _ later
          (λ x. x.0.request ≡ sub.request) (slice-Ends source.current offset sub.request.count)
          (λ current u.
            Ends-map _ later (λ registers. Unit) _ (λ x. x.0.request ≡ sub.request)
              (previous-Ends source offset sub.request.count)
              (λ previous v.
                if_by_cases
                  (λ (x : ActiveSubscription doubles × List (List ℕ)). x.0.request ≡ sub.request)
                  (should_notify doubles now sub current previous) (λ b. refl) (λ b. refl))))
    | inr outside ↦ rw outside (unfold Ends in inr ((sub, []), refl, refl, refl))
  ]

  scan_source-Ends :
      (now : Timestamp) (source : DataSource) (subs : List (ActiveSubscription doubles))
      → Ends
          (scan_source doubles now source subs)
          (some_short source (requests subs))
          (λ x. requests x.0 ≡ requests subs)
  scan_source-Ends now source [] = unfold Ends in inr (([], []), refl, refl, refl)
  scan_source-Ends now source (sub ∷ subs) =
      Ends-bind (notify doubles now source sub) (is_short source sub.request)
        (λ x. x.0.request ≡ sub.request) _ (some_short source (requests subs))
        (λ x. requests x.0 ≡ requests (sub ∷ subs)) (notify-Ends now source sub)
        (λ x same.
          Ends-map (scan_source doubles now source subs) (some_short source (requests subs))
            (λ y. requests y.0 ≡ requests subs) _ (λ y. requests y.0 ≡ requests (sub ∷ subs))
            (scan_source-Ends now source subs) (λ y others. ap₂ ◌∷◌ same others))

  scan_sources-Ends :
      (now : Timestamp) (sources : List DataSource) (subs : List (ActiveSubscription doubles))
      → Ends (scan_sources doubles now sources subs) (any_short sources (requests subs)) (λ x. Unit)
  unfolding scan_sources
  scan_sources-Ends now [] subs = unfold Ends in inr ((subs, [], []), refl, refl, tt)
  scan_sources-Ends now (source ∷ sources) subs =
      Ends-bind (scan_source doubles now source subs) (some_short source (requests subs))
        (λ x. requests x.0 ≡ requests subs) _ (any_short sources (requests subs)) (λ x. Unit)
        (scan_source-Ends now source subs)
        (λ x same.
          Ends-map (scan_sources doubles now sources x.0) (any_short sources (requests subs))
            (λ y. Unit) _ (λ y. Unit)
            (subst
              (λ rs. Ends (scan_sources doubles now sources x.0) (any_short sources rs) (λ y. Unit))
              same (scan_sources-Ends now sources x.0))
            (λ y u. tt))

  faults_iff :
      {A : Type 0} (r : Result A) (b : Bool) (P : A → Type 0)
      → Ends r b P
      → (r ≡ fault) ↔ (b ≡ true)
  unfolding Ends
  faults_iff r b P (inl (e, t)) = (λ x. t, λ x. e)
  faults_iff r b P (inr (a, e, t, p)) = (λ x. absurd cc, λ x. absurd cc)

  -- A scan leaves a reading exactly where some subscription starts in some source, and so far behind
  -- its start that the source's reading, or the one kept of the scan before, ends before it.
  pub scan_and_notify_fault :
      (now : Timestamp) (connected : Bool) (sources : List DataSource) (p : Publisher doubles)
      → (scan_and_notify doubles now connected sources p ≡ fault)
        ↔ (any_short sources (requests p.subscriptions) ≡ true)
  unfolding scan_and_notify
  scan_and_notify_fault now connected sources p =
      faults_iff _ (any_short sources (requests p.subscriptions)) (λ x. Unit)
        (Ends-map (scan_sources doubles now sources p.subscriptions)
          (any_short sources (requests p.subscriptions)) (λ x. Unit) _ (λ x. Unit)
          (scan_sources-Ends now sources p.subscriptions) (λ x u. tt))
