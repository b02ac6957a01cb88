-- ===== src/RegisterMap/Typed/Access.antt =====
-- RegisterMap::decode and RegisterMap::encode.
use modbus_pp.Common.{
  ℕ, zero, suc, ◌+◌, ◌^◌, ◌≤◌, ◌<◌, ◌≡◌, refl, sym, ap, ◌∙◌, ◌≢◌, ◌⊎◌, inl, inr, Bool, some, List,
  ◌++◌, arith, length, get_elem?, take, drop, length-drop, length-take,
}
use modbus_pp.Core.Result.{◌>>=◌, ok}
use modbus_pp.Core.Endian.{FloatBits}
use modbus_pp.RegisterMap.Typed.{
  RegisterDescriptor, register_offset, Value, encoded, decoded, decode, encode,
}
use modbus_pp.RegisterMap.Typed.Values.{
  width, IsValue, length-encoded, decoded-encoded, decoded-front,
}
use modbus_pp.RegisterMap.Typed.Layout.{
  sum_counts, offset_inside, offset_before, overlay, write_at-overlay, drop-overlay_here,
  drop-overlay_behind, drop-overlay_before, drop_split,
}

-- A map whose registers a `quantity_t` counts, a buffer for them, and a descriptor of the map that
-- has room for its type.
pub record IsAt (ds : List RegisterDescriptor) (i : ℕ) (d : RegisterDescriptor) : Type 0 where
  pub found : get_elem? ds i ≡ some d
  pub room : width d.type d.count ≤ d.count

other_index : (i j : ℕ) → i ≢ j → (i < j) ⊎ (j < i)
other_index zero zero h = absurd (h refl)
other_index zero (suc j) h = inl (omega arith)
other_index (suc i) zero h = inr (omega arith)
other_index (suc i) (suc j) h = elim (other_index i j (λ p. h (ap suc p))) [
  | inl p ↦ inl (omega arith)
  | inr p ↦ inr (omega arith)
]

module _ (float : FloatBits 32) (double : FloatBits 64) (char_signed : Bool) where
  module _ (ds : List RegisterDescriptor) (regs : List ℕ) (fits : sum_counts ds < 2 ^ 16)
      (long : sum_counts ds ≤ length regs) where
    encode-overlay :
        (i : ℕ) (d : RegisterDescriptor) (value : Value float double char_signed d.type)
        → IsAt ds i d
        → encode float double char_signed ds i d value regs
          ≡ ok (
              overlay
                (register_offset i ds)
                (encoded float double char_signed d.type d.order d.count value)
                regs)
    unfolding encode
    encode-overlay i d value a =
        write_at-overlay regs (register_offset i ds)
          (encoded float double char_signed d.type d.order d.count value)
          (omega (
            arith,
            length-encoded float double char_signed d.type d.order d.count value,
            a.room,
            offset_inside ds fits i d a.found,
            long,
          ))

    -- A value that is written to a descriptor of the map is read back from it. The counts of the map add
    -- up to less than 65536 and to no more than the buffer has registers, the count of the descriptor
    -- is at least as many registers as its type takes, and the value is one of the type: a number of
    -- its width, or a text of at most two characters for each register, none of them 0 or above 0xFF and, where
    -- `char` is signed, all of them below 0x80.
    pub decode-encode :
        (i : ℕ) (d : RegisterDescriptor) (value : Value float double char_signed d.type)
        → IsAt ds i d
        → IsValue float double char_signed d.type d.count value
        → (encode float double char_signed ds i d value regs
            >>= decode float double char_signed ds i d)
          ≡ ok value
    unfolding decode
    decode-encode i d value a v =
        let n = register_offset i ds in
        let values = encoded float double char_signed d.type d.order d.count value in
        ap (λ r. r >>= decode float double char_signed ds i d) (encode-overlay i d value a)
        ∙ ap (decoded float double char_signed d.type d.order d.count) (
            drop-overlay_here n values regs
              (omega (arith, offset_inside ds fits i d a.found, long)))
        ∙ decoded-encoded float double char_signed d.type d.order d.count value _ v

    untouched :
        (i j : ℕ) (d e : RegisterDescriptor) (values : List ℕ)
        → IsAt ds i d
        → IsAt ds j e
        → length values ≡ width d.type d.count
        → (i < j) ⊎ (j < i)
        → decoded float double char_signed e.type e.order e.count
            (drop (register_offset j ds) (overlay (register_offset i ds) values regs))
          ≡ decoded float double char_signed e.type e.order e.count
              (drop (register_offset j ds) regs)
    untouched i j d e values a b w (inl h) =
        ap (decoded float double char_signed e.type e.order e.count) (
          drop-overlay_behind (register_offset i ds) values regs (register_offset j ds)
            (omega (arith, w, a.room, offset_before ds fits i j d a.found h))
            (omega (arith, w, a.room, offset_inside ds fits i d a.found, long)))
    untouched i j d e values a b w (inr h) =
        let n = register_offset i ds in
        let m = register_offset j ds in
        let before = offset_before ds fits j i e b.found h in
        let inside = offset_inside ds fits i d a.found in
        let le : m ≤ n = omega arith in
        let short : n ≤ length regs = omega (arith, long) in
        let enough : width e.type e.count ≤ length (drop m (take n regs)) =
          omega (arith, b.room, length-drop m (take n regs), length-take n regs short) in
        let read = decoded float double char_signed e.type e.order e.count in
        let only =
          decoded-front float double char_signed e.type e.order e.count (drop m (take n regs)) in
        ap read (drop-overlay_before n values regs m le short)
        ∙ only (values ++ drop (n + length values) regs) enough
        ∙ sym (only (drop n regs) enough)
        ∙ sym (ap read (drop_split n regs m le short))

    -- A value that is written to one descriptor of the map leaves what is decoded of every other one,
    -- whether the value is in the range of its type or not. The counts of the map add up to less than
    -- 65536 and to no more than the buffer has registers, and the count of each of the two descriptors
    -- is at least as many registers as its type takes.
    pub decode-encode_other :
        (i j : ℕ) (d e : RegisterDescriptor) (value : Value float double char_signed d.type)
        → IsAt ds i d
        → IsAt ds j e
        → i ≢ j
        → (encode float double char_signed ds i d value regs
            >>= decode float double char_signed ds j e)
          ≡ decode float double char_signed ds j e regs
    unfolding decode
    decode-encode_other i j d e value a b ne =
        ap (λ r. r >>= decode float double char_signed ds j e) (encode-overlay i d value a)
        ∙ untouched i j d e (encoded float double char_signed d.type d.order d.count value) a b
            (length-encoded float double char_signed d.type d.order d.count value)
            (other_index i j ne)
