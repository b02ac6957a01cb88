-- ===== src/RegisterMap/Typed.antt =====
-- include/modbus_pp/register_map/register_descriptor.hpp and register_map.hpp: typed registers at
-- addresses. The list of descriptors of a map stands for its template arguments, and the descriptor
-- at an index is passed beside the index, since its type is that of the value.
pub mod Overlaps
pub mod Values
pub mod Layout
pub mod Access
mod Tests
use modbus_pp.Common.{
  ℕ, zero, suc, ◌+◌, ◌%◌, ◌^◌, Bool, true, not, ◌&&◌, Option, none, some, List, [], ◌∷◌, ◌++◌, map,
  ltb, leb, if◌then◌else◌, length, get_elem?, take, drop,
}
use modbus_pp.Common.Int.{ℤ, to_unsigned, of_unsigned}
use modbus_pp.Core.Result.{Result, ◌>>=◌, ok, fault}
use modbus_pp.Core.Endian.{ByteOrder, FloatBits}
use modbus_pp.Core.Span.{read, subspan}
use modbus_pp.RegisterMap.TypeCodec
use modbus_pp.RegisterMap.TypeCodec.{encode_string, decode_string}

pub data RegisterType : Type 0 where
  uint16 : RegisterType
  int16 : RegisterType
  uint32 : RegisterType
  int32 : RegisterType
  float32 : RegisterType
  float64 : RegisterType
  string : RegisterType

abbrev default_register_count : RegisterType → ℕ
default_register_count uint16 = 1
default_register_count int16 = 1
default_register_count uint32 = 2
default_register_count int32 = 2
default_register_count float32 = 2
default_register_count float64 = 4
default_register_count string = 0

pub record RegisterDescriptor : Type 0 where
  pub type : RegisterType
  pub address : ℕ
  pub count : ℕ
  pub order : ByteOrder

-- `Addr + Count`, as an `address_t`.
pub end_address : RegisterDescriptor → ℕ
end_address d = (d.address + d.count) % 2 ^ 16

pub descriptors_overlap : RegisterDescriptor → RegisterDescriptor → Bool
descriptors_overlap a b = ltb a.address (end_address b) && ltb b.address (end_address a)

-- `no_overlaps<First, Rest...>` and `no_overlaps<Second, Rest...>` with the first one that is left.
pub no_overlaps_with : RegisterDescriptor → List RegisterDescriptor → Bool
no_overlaps_with first [] = true
no_overlaps_with first (second ∷ rest) =
    not (descriptors_overlap first second)
    && no_overlaps_with first rest
    && no_overlaps_with second rest

abbrev pub no_overlaps : List RegisterDescriptor → Bool
no_overlaps [] = true
no_overlaps (first ∷ rest) = no_overlaps_with first rest

abbrev total_register_count : List RegisterDescriptor → ℕ
total_register_count [] = 0
total_register_count (d ∷ ds) = (d.count + total_register_count ds) % 2 ^ 16

abbrev pub count_of : Option RegisterDescriptor → ℕ
count_of none = 0
count_of (some d) = d.count

pub register_offset : ℕ → List RegisterDescriptor → ℕ
register_offset zero ds = 0
register_offset (suc i) ds = (register_offset i ds + count_of (get_elem? ds i)) % 2 ^ 16

abbrev descriptor_info : List RegisterDescriptor → List (ℕ × ℕ × RegisterType × ByteOrder)
descriptor_info ds = map (λ d. (d.address, d.count, d.type, d.order)) ds

-- Writing registers from `offset` on; a write behind the end of the buffer faults.
pub write_at : List ℕ → ℕ → List ℕ → Result (List ℕ)
write_at regs offset values =
    if leb (offset + length values) (length regs)
    then ok (take offset regs ++ (values ++ drop (offset + length values) regs))
    else fault

abbrev pub read_two : List ℕ → Result (ℕ × ℕ)
read_two regs = do hi ← read regs 0; lo ← read regs 1; ok (hi, lo)

abbrev pub read_four : List ℕ → Result (ℕ × ℕ × ℕ × ℕ)
read_four regs = do
  a ← read regs 0
  b ← read regs 1
  c ← read regs 2
  d ← read regs 3
  ok (a, b, c, d)

module _ (float : FloatBits 32) (double : FloatBits 64) (char_signed : Bool) where
  -- `value_type`
  abbrev pub Value : RegisterType → Type 0
  Value uint16 = ℕ
  Value int16 = ℤ
  Value uint32 = ℕ
  Value int32 = ℤ
  Value float32 = float.Float
  Value float64 = double.Float
  Value string = List ℕ

  -- The registers that `encode_register` writes. The reinterpretations of a signed value are those
  -- that `memcpy` makes.
  abbrev pub encoded : (type : RegisterType) → ByteOrder → ℕ → Value type → List ℕ
  encoded uint16 order count value = value ∷ []
  encoded int16 order count value = to_unsigned (2 ^ 15) value ∷ []
  encoded uint32 order count value =
      let (hi, lo) = TypeCodec.encode_uint32 order value in hi ∷ lo ∷ []
  encoded int32 order count value =
      let (hi, lo) = TypeCodec.encode_int32 order value in hi ∷ lo ∷ []
  encoded float32 order count value =
      let (hi, lo) = TypeCodec.encode_float float order value in hi ∷ lo ∷ []
  encoded float64 order count value =
      let (a, b, c, d) = TypeCodec.encode_double double order value in a ∷ b ∷ c ∷ d ∷ []
  encoded string order count value = encode_string char_signed value count

  -- `decode_register`, from the registers that its pointer leads to.
  abbrev pub decoded : (type : RegisterType) → ByteOrder → ℕ → List ℕ → Result (Value type)
  decoded uint16 order count regs = read regs 0
  decoded int16 order count regs = do reg ← read regs 0; ok (of_unsigned (2 ^ 15) reg)
  decoded uint32 order count regs = do two ← read_two regs; ok (TypeCodec.decode_uint32 order two)
  decoded int32 order count regs = do two ← read_two regs; ok (TypeCodec.decode_int32 order two)
  decoded float32 order count regs = do
    two ← read_two regs
    ok (TypeCodec.decode_float float order two)
  decoded float64 order count regs = do
    four ← read_four regs
    ok (TypeCodec.decode_double double order four)
  decoded string order count regs = do text ← subspan regs 0 count; ok (decode_string text)

  -- `RegisterMap::decode<I>` and `RegisterMap::encode<I>`, with the descriptor `d` at the index.
  pub decode :
      List RegisterDescriptor → ℕ → (d : RegisterDescriptor) → List ℕ → Result (Value d.type)
  decode ds i d regs = decoded d.type d.order d.count (drop (register_offset i ds) regs)

  pub encode :
      List RegisterDescriptor
      → ℕ
      → (d : RegisterDescriptor) → Value d.type
      → List ℕ
      → Result (List ℕ)
  encode ds i d value regs =
      write_at regs (register_offset i ds) (encoded d.type d.order d.count value)
