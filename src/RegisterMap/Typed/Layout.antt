-- ===== src/RegisterMap/Typed/Layout.antt =====
-- Where the registers of a map lie in its flat buffer, and what a write leaves of the others.
use modbus_pp.Common.{
  ℕ, zero, suc, ◌+◌, ◌^◌, ◌≤◌, ◌<◌, ◌≡◌, refl, sym, ap, ◌∙◌, some, List, [], ◌∷◌, ◌++◌, arith,
  length, get_elem?, take, drop, take-drop, length-take, drop-append,
}
use modbus_pp.Core.Result.{ok}
use modbus_pp.RegisterMap.Typed.{RegisterDescriptor, count_of, register_offset, write_at}

-- The sum that `total_register_count` computes, without a bound.
abbrev pub sum_counts : List RegisterDescriptor → ℕ
sum_counts [] = 0
sum_counts (d ∷ ds) = d.count + sum_counts ds

offset_sum : ℕ → List RegisterDescriptor → ℕ
offset_sum zero ds = 0
offset_sum (suc i) [] = 0
offset_sum (suc i) (d ∷ ds) = d.count + offset_sum i ds

offset_sum-next :
    (i : ℕ) (ds : List RegisterDescriptor)
    → offset_sum (suc i) ds ≡ offset_sum i ds + count_of (get_elem? ds i)
unfolding offset_sum
offset_sum-next zero [] = refl
offset_sum-next zero (d ∷ ds) = omega arith
offset_sum-next (suc i) [] = refl
offset_sum-next (suc i) (d ∷ ds) = omega (arith, offset_sum-next i ds)

offset_sum-le : (i : ℕ) (ds : List RegisterDescriptor) → offset_sum i ds ≤ sum_counts ds
unfolding offset_sum
offset_sum-le zero ds = omega arith
offset_sum-le (suc i) [] = omega arith
offset_sum-le (suc i) (d ∷ ds) = omega (arith, offset_sum-le i ds)

register_offset-sum :
    (i : ℕ) (ds : List RegisterDescriptor)
    → sum_counts ds < 2 ^ 16
    → register_offset i ds ≡ offset_sum i ds
unfolding register_offset offset_sum
register_offset-sum zero ds h = refl
register_offset-sum (suc i) ds h =
    omega (arith, register_offset-sum i ds h, offset_sum-next i ds, offset_sum-le (suc i) ds)

offset_sum_mono :
    (i j : ℕ) (ds : List RegisterDescriptor) → i ≤ j → offset_sum i ds ≤ offset_sum j ds
unfolding offset_sum
offset_sum_mono zero j ds h = omega arith
offset_sum_mono (suc i) zero ds h = absurd (omega arith)
offset_sum_mono (suc i) (suc j) [] h = omega arith
offset_sum_mono (suc i) (suc j) (d ∷ ds) h = omega (arith, offset_sum_mono i j ds (omega arith))

module _ (ds : List RegisterDescriptor) (fits : sum_counts ds < 2 ^ 16) where
  -- A descriptor's registers lie inside of the buffer, and before those of each later descriptor.
  pub offset_inside :
      (i : ℕ) (d : RegisterDescriptor)
      → get_elem? ds i ≡ some d
      → register_offset i ds + d.count ≤ sum_counts ds
  offset_inside i d e = omega (
    arith,
    ap count_of e,
    register_offset-sum i ds fits,
    offset_sum-next i ds,
    offset_sum-le (suc i) ds,
  )

  pub offset_before :
      (i j : ℕ) (d : RegisterDescriptor)
      → get_elem? ds i ≡ some d
      → i < j
      → register_offset i ds + d.count ≤ register_offset j ds
  offset_before i j d e h = omega (
    arith,
    ap count_of e,
    register_offset-sum i ds fits,
    register_offset-sum j ds fits,
    offset_sum-next i ds,
    offset_sum_mono (suc i) j ds (omega arith),
  )

-- The buffer after a write that fits.
abbrev pub overlay : ℕ → List ℕ → List ℕ → List ℕ
overlay n values regs = take n regs ++ (values ++ drop (n + length values) regs)

pub write_at-overlay :
    (regs : List ℕ) (n : ℕ) (values : List ℕ)
    → n + length values ≤ length regs
    → write_at regs n values ≡ ok (overlay n values regs)
unfolding write_at
write_at-overlay regs n values h = ground arith

pub drop-overlay_here :
    (n : ℕ) (values regs : List ℕ)
    → n ≤ length regs
    → drop n (overlay n values regs) ≡ values ++ drop (n + length values) regs
drop-overlay_here zero values regs h = refl
drop-overlay_here (suc n) values [] h = absurd (omega arith)
drop-overlay_here (suc n) values (r ∷ regs) h =
    let next : suc n + length values ≡ suc (n + length values) = omega arith in
    rw next (drop-overlay_here n values regs (omega arith))

behind_values :
    (values regs : List ℕ) (m : ℕ)
    → length values ≤ m
    → length values ≤ length regs
    → drop m (values ++ drop (length values) regs) ≡ drop m regs
behind_values [] regs m h k = refl
behind_values (v ∷ values) regs zero h k = absurd (omega arith)
behind_values (v ∷ values) [] (suc m) h k = absurd (omega arith)
behind_values (v ∷ values) (r ∷ regs) (suc m) h k =
    behind_values values regs m (omega arith) (omega arith)

-- What stands behind the values is what stood there.
pub drop-overlay_behind :
    (n : ℕ) (values regs : List ℕ) (m : ℕ)
    → n + length values ≤ m
    → n + length values ≤ length regs
    → drop m (overlay n values regs) ≡ drop m regs
drop-overlay_behind zero values regs m h k =
    let same : 0 + length values ≡ length values = omega arith in
    rw same (behind_values values regs m (omega arith) (omega arith))
drop-overlay_behind (suc n) values regs zero h k = absurd (omega arith)
drop-overlay_behind (suc n) values [] (suc m) h k = absurd (omega arith)
drop-overlay_behind (suc n) values (r ∷ regs) (suc m) h k =
    let next : suc n + length values ≡ suc (n + length values) = omega arith in
    rw next (drop-overlay_behind n values regs m (omega arith) (omega arith))

-- What stands before the values is what stood there.
pub drop-overlay_before :
    (n : ℕ) (values regs : List ℕ) (m : ℕ)
    → m ≤ n
    → n ≤ length regs
    → drop m (overlay n values regs)
      ≡ drop m (take n regs) ++ (values ++ drop (n + length values) regs)
drop-overlay_before n values regs m h k =
    drop-append m (take n regs) _ (omega (arith, length-take n regs k))

pub drop_split :
    (n : ℕ) (regs : List ℕ) (m : ℕ)
    → m ≤ n
    → n ≤ length regs
    → drop m regs ≡ drop m (take n regs) ++ drop n regs
drop_split n regs m h k =
    ap (drop m) (sym (take-drop n regs))
    ∙ drop-append m (take n regs) (drop n regs) (omega (arith, length-take n regs k))
