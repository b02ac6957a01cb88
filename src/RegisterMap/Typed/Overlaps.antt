-- ===== src/RegisterMap/Typed/Overlaps.antt =====
-- What the check on overlapping descriptors of a map decides.
use modbus_pp.Common.{
  ℕ, ◌+◌, ◌%◌, ◌^◌, ◌≤◌, ◌<◌, max, ◌≡◌, refl, ◌↔◌, inl, inr, Bool, true, false, not, ◌&&◌, List, [],
  ◌∷◌, arith, ltb, Bool-cases, All,
}
use modbus_pp.RegisterMap.Typed.{
  RegisterDescriptor, end_address, descriptors_overlap, no_overlaps_with, no_overlaps,
}

-- The addresses of two descriptors have a register in common.
pub Shares : RegisterDescriptor → RegisterDescriptor → Type 0
Shares a b =
    (n : ℕ) × ((a.address ≤ n) × (n < a.address + a.count))
    × ((b.address ≤ n) × (n < b.address + b.count))

-- No two descriptors of a list have a register in common.
abbrev pub IsApart : List RegisterDescriptor → Type 0
IsApart [] = Unit
IsApart (d ∷ ds) = All (λ e. ¬ Shares d e) ds × IsApart ds

-- A descriptor of at least one register, which ends below the last address of 16 bits.
abbrev EndsBelow : RegisterDescriptor → Type 0
EndsBelow d = (0 < d.count) × (d.address + d.count < 2 ^ 16)

apart :
    (a b : RegisterDescriptor)
    → EndsBelow a
    → EndsBelow b
    → descriptors_overlap a b ≡ false
    → ¬ Shares a b
unfolding descriptors_overlap end_address Shares
apart a b h k e = λ s. ground arith

overlap-Shares :
    (a b : RegisterDescriptor)
    → EndsBelow a
    → EndsBelow b
    → ¬ Shares a b
    → descriptors_overlap a b ≡ false
unfolding descriptors_overlap end_address Shares
overlap-Shares a b h k e =
    elim (Bool-cases (
      ltb a.address ((b.address + b.count) % 2 ^ 16)
      && ltb b.address ((a.address + a.count) % 2 ^ 16))) [
        | inl p ↦ absurd (e (max a.address b.address, ground arith, ground arith))
        | inr p ↦ p
      ]

three : (a b c : Bool) → (a && b && c) ≡ true → (a ≡ true) × (b ≡ true) × (c ≡ true)
three a b c p = ground arith

with-Apart :
    (first : RegisterDescriptor) (ds : List RegisterDescriptor)
    → EndsBelow first
    → All EndsBelow ds
    → no_overlaps_with first ds ≡ true
    → All (λ e. ¬ Shares first e) ds × (no_overlaps ds ≡ true)
unfolding no_overlaps_with
with-Apart first [] h k p = (tt, refl)
with-Apart first (second ∷ rest) h k p =
    let (s, t, u) =
      three (not (descriptors_overlap first second)) (no_overlaps_with first rest)
        (no_overlaps_with second rest) p in
    let (others, left) = with-Apart first rest h k.1 t in
    ((apart first second h k.0 (ground arith), others), u)

no_overlaps_sound :
    (ds : List RegisterDescriptor) → All EndsBelow ds → no_overlaps ds ≡ true → IsApart ds
no_overlaps_sound [] h p = tt
no_overlaps_sound (d ∷ ds) h p =
    let (q, r) = with-Apart d ds h.0 h.1 p in (q, no_overlaps_sound ds h.1 r)

Apart-with :
    (first : RegisterDescriptor) (ds : List RegisterDescriptor)
    → EndsBelow first
    → All EndsBelow ds
    → All (λ e. ¬ Shares first e) ds
    → no_overlaps ds ≡ true
    → no_overlaps_with first ds ≡ true
unfolding no_overlaps_with
Apart-with first [] h k q r = refl
Apart-with first (second ∷ rest) h k q r =
    let (others, left) = with-Apart second rest k.0 k.1 r in
    rw (overlap-Shares first second h k.0 q.0, Apart-with first rest h k.1 q.1 left) r

-- Where every descriptor has at least one register and ends below the register 65535, a map passes
-- the check on overlaps if and only if no register belongs to two of its descriptors.
pub no_overlaps-IsApart :
    (ds : List RegisterDescriptor) → All EndsBelow ds → (no_overlaps ds ≡ true) ↔ IsApart ds
no_overlaps-IsApart ds h = (no_overlaps_sound ds h, complete ds h)
  where
    complete :
        (ds : List RegisterDescriptor) → All EndsBelow ds → IsApart ds → no_overlaps ds ≡ true
    complete [] h p = refl
    complete (d ∷ ds) h p = Apart-with d ds h.0 h.1 p.0 (complete ds h.1 p.1)

-- A descriptor whose last register is 65535 passes the check beside every other descriptor, also
-- beside one that holds the same registers: its end address has wrapped around to 0.
pub last_register_unchecked :
    (d e : RegisterDescriptor) → d.address + d.count ≡ 2 ^ 16 → no_overlaps (d ∷ e ∷ []) ≡ true
unfolding no_overlaps_with descriptors_overlap end_address
last_register_unchecked d e h = ground arith
