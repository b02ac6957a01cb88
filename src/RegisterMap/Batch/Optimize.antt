-- ===== src/RegisterMap/Batch/Optimize.antt =====
-- BatchRequest::optimized reads the same registers in no more items.
use mathlib.Core.List.{Perm, Permᴰ, Mem, Memᴰ, mem-cons_self, mem-cons_of_mem}
use mathlib.Core.List.Perm
use mathlib.Core.Logic.{∥∥₁_elim}
use mathlib.Core.Bool.{Bool-set}
use native.Mathlib.Bridge.{le_prop}
use modbus_pp.Common.{
  ℕ, suc, ◌+◌, ◌^◌, ◌≤◌, ◌<◌, ◌≡◌, refl, sym, ap, ap₂, subst, ◌∙◌, inl, inr, Bool, true, false,
  ◌&&◌, ◌||◌, List, [], ◌∷◌, arith, ltb, leb, ◌==◌, Bool-cases, length, All,
}
use modbus_pp.RegisterMap.Batch.{
  BatchItem, BatchRequest, mergeable, merged, merge_loop, merge_all, optimized,
}

-- Whether an item of the byte order `order` reads the register `addr`.
abbrev pub item_covers : ℕ → ℕ → BatchItem → Bool
item_covers order addr item =
    item.byte_order == order
    && (leb item.start_address addr && ltb addr (item.start_address + item.count))

abbrev pub covers : ℕ → ℕ → BatchRequest → Bool
covers order addr [] = false
covers order addr (item ∷ items) = item_covers order addr item || covers order addr items

-- The item ends at the register 65535 at the latest, and not after its last one: the exclusive end
-- is a 16-bit word.
abbrev EndsInside : BatchItem → Type 0
EndsInside item = item.start_address + item.count < 2 ^ 16

abbrev IsSortedFrom : ℕ → List BatchItem → Type 0
IsSortedFrom low [] = Unit
IsSortedFrom low (item ∷ items) = (low ≤ item.start_address) × IsSortedFrom item.start_address items

merged-covers :
    (order addr : ℕ) (last curr : BatchItem)
    → EndsInside last
    → EndsInside curr
    → last.start_address ≤ curr.start_address
    → mergeable last curr ≡ true
    → item_covers order addr (merged last curr)
      ≡ (item_covers order addr last || item_covers order addr curr)
unfolding merged
merged-covers order addr last curr h k le m =
    joined (ltb addr (last.start_address + (merged last curr).count)) refl
  where
    joined :
        (inside : Bool)
        → ltb addr (last.start_address + (merged last curr).count) ≡ inside
        → (last.byte_order == order && (leb last.start_address addr && inside))
          ≡ (item_covers order addr last || item_covers order addr curr)
    joined true e = ground arith
    joined false e = ground arith

merged-EndsInside :
    (last curr : BatchItem)
    → EndsInside last
    → EndsInside curr
    → last.start_address ≤ curr.start_address
    → EndsInside (merged last curr)
unfolding merged
merged-EndsInside last curr h k le = ground arith

IsSortedFrom-weaken :
    {a b : ℕ} (items : List BatchItem) → a ≤ b → IsSortedFrom b items → IsSortedFrom a items
IsSortedFrom-weaken [] h s = tt
IsSortedFrom-weaken (item ∷ items) h s = (omega arith, s.1)

or_assoc : (a b c : Bool) → ((a || b) || c) ≡ (a || (b || c))
or_assoc true b c = refl
or_assoc false b c = refl

-- The merging loop keeps what is read.
merge_loop-covers :
    (order addr : ℕ) (last : BatchItem) (rest : List BatchItem)
    → All EndsInside (last ∷ rest)
    → IsSortedFrom last.start_address rest
    → covers order addr (merge_loop last rest) ≡ covers order addr (last ∷ rest)
unfolding merge_loop
merge_loop-covers order addr last [] h s = refl
merge_loop-covers order addr last (curr ∷ rest) h s = elim (Bool-cases (mergeable last curr)) [
  | inl m ↦
      rw (m, merge_loop)
        (merge_loop-covers order addr (merged last curr) rest
            (merged-EndsInside last curr h.0 h.1.0 s.0, h.1.1)
            (unfold merged in IsSortedFrom-weaken rest s.0 s.1)
          ∙ ap (λ b. b || covers order addr rest)
              (merged-covers order addr last curr h.0 h.1.0 s.0 m)
          ∙ or_assoc (item_covers order addr last) (item_covers order addr curr)
              (covers order addr rest))
  | inr m ↦
      rw (m, merge_loop)
        (ap (◌||◌ (item_covers order addr last)) (merge_loop-covers order addr curr rest h.1 s.1))
]

or_swap : (a b c : Bool) → (a || (b || c)) ≡ (b || (a || c))
or_swap true true c = refl
or_swap true false c = refl
or_swap false b c = refl

-- The order of the items does not matter to what they read.
covers-permᴰ :
    (order addr : ℕ) {xs ys : List BatchItem}
    → Permᴰ xs ys
    → covers order addr xs ≡ covers order addr ys
covers-permᴰ order addr Permᴰ.nil = refl
covers-permᴰ order addr (Permᴰ.cons e p) =
    ap₂ (λ x b. item_covers order addr x || b) e (covers-permᴰ order addr p)
covers-permᴰ order addr (Permᴰ.swap {a' = a'} {b' = b'} {l = l} e f) =
    ap₂ (λ x y. item_covers order addr x || (item_covers order addr y || covers order addr l)) e f
    ∙ or_swap (item_covers order addr b') (item_covers order addr a') (covers order addr l)
covers-permᴰ order addr (Permᴰ.trans p q) = covers-permᴰ order addr p ∙ covers-permᴰ order addr q

covers-perm :
    (order addr : ℕ) {xs ys : List BatchItem}
    → Perm xs ys
    → covers order addr xs ≡ covers order addr ys
covers-perm order addr p = ∥∥₁_elim p (Bool-set _ _) (covers-permᴰ order addr)

length-permᴰ : {xs ys : List BatchItem} → Permᴰ xs ys → length xs ≡ length ys
length-permᴰ Permᴰ.nil = refl
length-permᴰ (Permᴰ.cons e p) = ap suc (length-permᴰ p)
length-permᴰ (Permᴰ.swap e f) = refl
length-permᴰ (Permᴰ.trans p q) = length-permᴰ p ∙ length-permᴰ q

All-of_mem :
    (items : List BatchItem)
    → ((item : BatchItem) → Mem item items → EndsInside item)
    → All EndsInside items
All-of_mem [] h = tt
All-of_mem (item ∷ items) h =
    (h item mem-cons_self, All-of_mem items (λ x m. h x (mem-cons_of_mem item m)))

EndsInside-of_mem :
    (items : List BatchItem) {item : BatchItem}
    → All EndsInside items
    → Mem item items
    → EndsInside item
EndsInside-of_mem items h m = ∥∥₁_elim m le_prop λ d. found items h d
  where
    found :
        (items : List BatchItem) {item : BatchItem}
        → All EndsInside items
        → Memᴰ item items
        → EndsInside item
    found [] h m = elim m [ ]
    found (x ∷ xs) h (Memᴰ.head e) = subst EndsInside (sym e) h.0
    found (x ∷ xs) h (Memᴰ.tail d) = found xs h.1 d

merge_all-covers :
    (order addr : ℕ) (sorted : List BatchItem)
    → All EndsInside sorted
    → IsSortedFrom 0 sorted
    → covers order addr (merge_all sorted) ≡ covers order addr sorted
unfolding merge_all
merge_all-covers order addr [] h s = refl
merge_all-covers order addr (first ∷ rest) h s = merge_loop-covers order addr first rest h s.1

-- Where the sort returns the items in the order of their addresses, and each item ends below the
-- last register, the optimised request reads exactly the registers of the request, each in its
-- byte order.
pub optimized-covers :
    (sort : List BatchItem → List BatchItem) (items : BatchRequest)
    → Perm (sort items) items
    → IsSortedFrom 0 (sort items)
    → All EndsInside items
    → (order addr : ℕ) → covers order addr (optimized sort items) ≡ covers order addr items
unfolding optimized
optimized-covers sort items p s h order addr = elim (Bool-cases (leb (length items) 1)) [
  | inl small ↦ rw small
  | inr large ↦ rw large (
      merge_all-covers order addr (sort items)
        (All-of_mem (sort items) (λ item m. EndsInside-of_mem items h (Perm.subset p item m))) s
      ∙ covers-perm order addr p)
]

length-merge_loop-le :
    (last : BatchItem) (rest : List BatchItem) → length (merge_loop last rest) ≤ suc (length rest)
unfolding merge_loop
length-merge_loop-le last [] = omega arith
length-merge_loop-le last (curr ∷ rest) =
    ground (arith, length-merge_loop-le (merged last curr) rest, length-merge_loop-le curr rest)

length-merge_all-le : (sorted : List BatchItem) → length (merge_all sorted) ≤ length sorted
unfolding merge_all
length-merge_all-le [] = omega arith
length-merge_all-le (first ∷ rest) = length-merge_loop-le first rest

-- Where the sort returns the items in some order, the optimised request has no more items than the
-- request.
pub length-optimized-le :
    (sort : List BatchItem → List BatchItem) (items : BatchRequest)
    → Perm (sort items) items
    → length (optimized sort items) ≤ length items
unfolding optimized
length-optimized-le sort items p =
    ∥∥₁_elim p le_prop λ d. ground (arith, length-permᴰ d, length-merge_all-le (sort items))

-- A range of at least one register that ends with the register 65535 is lost when it is merged into
-- a range before it that ends below that register: the merged item does not read it.
pub merged_drops_last_register :
    (last curr : BatchItem)
    → EndsInside last
    → last.start_address ≤ curr.start_address
    → curr.start_address + curr.count ≡ 2 ^ 16
    → 0 < curr.count
    → mergeable last curr ≡ true
    → (item_covers curr.byte_order 65535 curr ≡ true)
      × (item_covers curr.byte_order 65535 (merged last curr) ≡ false)
unfolding merged
merged_drops_last_register last curr h le ends nonempty m = (ground arith, ground arith)
