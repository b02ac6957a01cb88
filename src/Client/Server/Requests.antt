-- ===== src/Client/Server/Requests.antt =====
-- How a slave answers the requests of a master: handle_request, unit by unit.
use modbus_pp.Common.{
  ℕ, ◌≡◌, refl, ap, ap₂, false, some, List, [], ◌∷◌, arith, ltb, le→leb, length, All, IsWord16,
  hi_byte, lo_byte, word16_bytes, register_bytes,
}
use modbus_pp.Core.Result.{Result, ◌>>=◌, ok}
use modbus_pp.Core.Span.{read, subspan, read_word16}
use modbus_pp.Core.FunctionCodes
use modbus_pp.Core.Pdu.{make_standard}
use modbus_pp.Client.Server.{
  Server, word_pairs, read_response, handle_read, handle_write_single, handle_write_multiple,
  handle_pdu,
}

-- Registers that were written two bytes each are the pairs of those bytes.
pub word_pairs-register_bytes :
    (regs : List ℕ) → All IsWord16 regs → word_pairs (register_bytes regs) ≡ regs
unfolding word_pairs
word_pairs-register_bytes [] h = refl
word_pairs-register_bytes (reg ∷ regs) h =
    ap₂ (◌∷◌) (word16_bytes reg h.0) (word_pairs-register_bytes regs h.1)

-- The four bytes that carry two words, and what follows them.
abbrev pub two_words : ℕ → ℕ → List ℕ → List ℕ
two_words a b rest = hi_byte a ∷ lo_byte a ∷ hi_byte b ∷ lo_byte b ∷ rest

first_word : (a b : ℕ) (rest : List ℕ) → IsWord16 a → read_word16 (two_words a b rest) 0 ≡ ok a
unfolding read_word16 read
first_word a b rest h = ap ok (word16_bytes a h)

second_word : (a b : ℕ) (rest : List ℕ) → IsWord16 b → read_word16 (two_words a b rest) 2 ≡ ok b
unfolding read_word16 read
second_word a b rest h = ap ok (word16_bytes b h)

echoed : (a b : ℕ) (rest : List ℕ) → subspan (two_words a b rest) 0 4 ≡ ok (two_words a b [])
unfolding subspan
echoed a b rest = rw (le→leb 4 (length (two_words a b rest)) (omega arith)) refl

module _ {S : Type 0} (server : Server S) (s : S) where
  -- A read request reaches the handler with its address and count.
  pub handle_pdu_read :
      (handler : S → ℕ → ℕ → Result (List ℕ) × S) (addr count : ℕ)
      → server.read_handler ≡ some handler
      → IsWord16 addr
      → IsWord16 count
      → handle_pdu server s
          (make_standard FunctionCodes.read_holding_registers (two_words addr count []))
        ≡ (read_response FunctionCodes.read_holding_registers (handler s addr count).0 >>= λ pdu.
            ok ((handler s addr count).1, some pdu))
  unfolding handle_pdu handle_read make_standard
  handle_pdu_read handler addr count e h k =
      rw (e, first_word addr count [] h, second_word addr count [] k) refl

  -- A write of one register runs the handler and echoes the request, whatever the handler answers.
  pub handle_pdu_write_single :
      (handler : S → ℕ → List ℕ → Result (Unit {0}) × S) (addr val : ℕ)
      → server.write_handler ≡ some handler
      → IsWord16 addr
      → IsWord16 val
      → handle_pdu server s
          (make_standard FunctionCodes.write_single_register (two_words addr val []))
        ≡ ok (
          (handler s addr (val ∷ [])).1,
          some (make_standard FunctionCodes.write_single_register (two_words addr val [])),
        )
  unfolding handle_pdu handle_write_single make_standard
  handle_pdu_write_single handler addr val e h k =
      rw (e, first_word addr val [] h, second_word addr val [] k, echoed addr val []) refl

  -- A write of several registers runs the handler on the registers that the request carries, and
  -- echoes the address and the count. The count itself and the count of bytes are not looked at.
  pub handle_pdu_write_multiple :
      (handler : S → ℕ → List ℕ → Result (Unit {0}) × S) (addr count byte_count : ℕ) (regs : List ℕ)
      → server.write_handler ≡ some handler
      → IsWord16 addr
      → All IsWord16 regs
      → handle_pdu server s (
          make_standard FunctionCodes.write_multiple_registers
            (two_words addr count (byte_count ∷ register_bytes regs)))
        ≡ ok (
          (handler s addr regs).1,
          some (make_standard FunctionCodes.write_multiple_registers (two_words addr count [])),
        )
  unfolding handle_pdu handle_write_multiple make_standard
  handle_pdu_write_multiple handler addr count byte_count regs e h k =
      let not_short : ltb (length (two_words addr count (byte_count ∷ register_bytes regs))) 5
          ≡ false =
        ground arith in
      rw
        (
          e,
          not_short,
          first_word addr count (byte_count ∷ register_bytes regs) h,
          word_pairs-register_bytes regs k,
          echoed addr count (byte_count ∷ register_bytes regs),
        )
        refl
