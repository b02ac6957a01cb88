-- ===== src/Discovery/Range.antt =====
-- The loops of the scanner over the units of its range.
use modbus_pp.Common.{
  ℕ, zero, suc, ◌+◌, ◌-◌, ◌%◌, ◌^◌, ◌<◌, ◌≡◌, refl, ap, ◌∙◌, fun_ext, inl, inr, Bool, true, false,
  Option, List, [], ◌∷◌, arith, leb, ◌==◌, if◌then◌else◌, Bool-cases,
}
use modbus_pp.Core.Result.{Result, ok, err, fault}
use modbus_pp.Transport.Interface.{Transport}
use modbus_pp.Core.Timestamp.{Timestamp}
use modbus_pp.Discovery.Scanner.{
  DeviceInfo, ScannerConfig, probe, push_front, after_probe, scan_loop, scan, after_async_probe,
  scan_async_loop, complete, scan_async,
}

-- The `n` units from `first` on.
unfoldable pub units : ℕ → ℕ → List ℕ
units first zero = []
units first (suc n) = first ∷ units (suc first) n

module _ {W : Type 0} (transport : Transport W) (now : W → Timestamp) where
  -- One probe per unit of a list, in its order.
  pub probe_each : List ℕ → W → Result (List DeviceInfo) × W
  probe_each [] w = (ok [], w)
  probe_each (id ∷ ids) w = after_probe transport now (probe_each ids) (probe transport now id w)

  loop_tail :
      (rounds n id last : ℕ)
      → last ≡ id + n
      → last < 2 ^ 8
      → ((m : ℕ) (w : W)
          → n ≡ suc m
          → scan_loop transport now rounds last (suc id) w ≡ probe_each (units (suc id) (suc m)) w)
      → (w : W)
      → (if id == last
          then (ok [], w)
          else scan_loop transport now rounds last ((id + 1) % 2 ^ 8) w)
        ≡ probe_each (units (suc id) n) w
  loop_tail rounds zero id last e k f w =
      let hit : (id == last) ≡ true = ground arith in rw hit (unfold units probe_each in refl)
  loop_tail rounds (suc n) id last e k f w =
      let miss : (id == last) ≡ false = ground arith in
      let next : (id + 1) % 2 ^ 8 ≡ suc id = omega arith in rw (miss, next) (f n w refl)

  scan_loop-units :
      (rounds d id last : ℕ) (w : W)
      → last ≡ id + d
      → last < 2 ^ 8
      → d < rounds
      → scan_loop transport now rounds last id w ≡ probe_each (units id (suc d)) w
  unfolding scan_loop units probe_each
  scan_loop-units zero d id last w e k h = absurd (omega arith)
  scan_loop-units (suc rounds) d id last w e k h =
      let inside : leb id last ≡ true = ground arith in
      rw inside (
        ap (λ go_on. after_probe transport now go_on (probe transport now id w))
          (fun_ext (
            loop_tail rounds d id last e k
              (λ m w' q. scan_loop-units rounds m (suc id) last w' (omega arith) k (omega arith)))))

  scan_loop_empty :
      (rounds last id : ℕ) (w : W)
      → leb id last ≡ false
      → scan_loop transport now (suc rounds) last id w ≡ (ok [], w)
  unfolding scan_loop
  scan_loop_empty rounds last id w h = rw h refl

  -- A scan probes each unit from `range_start` to `range_end` once, in this order, the last one
  -- included also where it is 255, and answers the devices found, in this order; where the range is
  -- empty it probes none.
  pub scan-probe_each :
      (config : ScannerConfig) (w : W)
      → config.range_end < 2 ^ 8
      → scan transport now config w
        ≡ probe_each (units config.range_start (config.range_end + 1 - config.range_start)) w
  unfolding scan
  scan-probe_each config w k =
      let first = config.range_start in
      let last = config.range_end in
      elim (Bool-cases (leb first last)) [
        | inl h ↦
            let count : last + 1 - first ≡ suc (last - first) = ground arith in
            rw count
              (scan_loop-units 256 (last - first) first last w (ground arith) k (ground arith))
        | inr h ↦
            let count : last + 1 - first ≡ 0 = ground arith in
            rw (scan_loop_empty 255 last first w h, count) (unfold units probe_each in refl)
      ]

  module _ {C : Type 0} (on_found : DeviceInfo → C → C) (on_complete : Option (C → C)) where
    tell_all : List DeviceInfo → C → C
    tell_all [] c = c
    tell_all (info ∷ devices) c = tell_all devices (on_found info c)

    pub told : Result (List DeviceInfo) × W → C → Result C × W
    told (ok devices, w) c = (ok (tell_all devices c), w)
    told (err e, w) c = (err e, w)
    told (fault, w) c = (fault, w)

    told-push_front :
        (info : DeviceInfo) (r : Result (List DeviceInfo) × W) (c : C)
        → told r (on_found info c) ≡ told (push_front transport now info r) c
    unfolding told tell_all
    told-push_front info (ok devices, w) c = refl
    told-push_front info (err e, w) c = refl
    told-push_front info (fault, w) c = refl

    after_async_probe-told :
        (go : W → Result (List DeviceInfo) × W) (go' : C → W → Result C × W)
        → ((c : C) (w : W) → go' c w ≡ told (go w) c)
        → (c : C) (p : Result DeviceInfo × W)
        → after_async_probe transport now on_found on_complete go' c p
          ≡ told (after_probe transport now go p) c
    after_async_probe-told go go' f c (ok info, w) =
        f (on_found info c) w ∙ told-push_front info (go w) c
    after_async_probe-told go go' f c (err e, w) = f c w
    after_async_probe-told go go' f c (fault, w) = unfold told in refl

    nobody : (c : C) (w : W) → (ok c, w) ≡ told (ok [], w) c
    unfolding told tell_all
    nobody c w = refl

    choice_told :
        (b : Bool) (r r' : Result (List DeviceInfo) × W) (s s' : Result C × W) (c : C)
        → s ≡ told r c
        → s' ≡ told r' c
        → (if b then s else s') ≡ told (if b then r else r') c
    choice_told true r r' s s' c e e' = e
    choice_told false r r' s s' c e e' = e'

    scan_async_loop-told :
        (rounds last id : ℕ) (c : C) (w : W)
        → scan_async_loop transport now on_found on_complete rounds last id c w
          ≡ told (scan_loop transport now rounds last id w) c
    unfolding scan_async_loop scan_loop
    scan_async_loop-told zero last id c w = unfold told in refl
    scan_async_loop-told (suc rounds) last id c w =
        let further = (id + 1) % 2 ^ 8 in
        choice_told (leb id last) _ _ _ _ c
          (after_async_probe-told
            (λ w'.
              if id == last then (ok [], w') else scan_loop transport now rounds last further w')
            (λ c' w'.
              if id == last
              then (ok c', w')
              else scan_async_loop transport now on_found on_complete rounds last further c' w')
            (λ c' w'.
              choice_told (id == last) _ _ _ _ c' (nobody c' w')
                (scan_async_loop-told rounds last further c' w'))
            c (probe transport now id w))
          (nobody c w)

    -- `scan_async` calls `on_found` with exactly the devices that `scan` answers, in their order, then
    -- `on_complete` if there is one, and leaves the connection as `scan` does.
    pub scan_async-scan :
        (config : ScannerConfig) (c : C) (w : W)
        → scan_async transport now on_found on_complete config c w
          ≡ complete transport now on_found on_complete (told (scan transport now config w) c)
    unfolding scan_async scan
    scan_async-scan config c w =
        ap (complete transport now on_found on_complete)
          (scan_async_loop-told 256 config.range_end config.range_start c w)
