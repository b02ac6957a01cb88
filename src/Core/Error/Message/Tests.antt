-- ===== src/Core/Error/Message/Tests.antt =====
-- Messages at concrete codes. Numbers are written in unary here: any text that tells numbers apart.
use Prim.Native.String.{String, ◌∷◌ as letter}
use text.Mathlib.TextLemmas.{cons-ne-nil}
use modbus_pp.Common.{ℕ, zero, suc, ◌≡◌, refl, sym, ap, ◌≢◌, arith}
use modbus_pp.Core.Error.{illegal_data_value, crc_mismatch}
use modbus_pp.Core.Error.Message.{message, message-ne}

abbrev strokes : ℕ → String
strokes zero = ""
strokes (suc n) = letter "I" (strokes n)

letter-inj : (s t : String) → Path String (letter "I" s) (letter "I" t) → s ≡ t
letter-inj s t e = cc

strokes-inj : (a b : ℕ) → strokes a ≡ strokes b → a ≡ b
strokes-inj zero zero e = refl
strokes-inj zero (suc b) e = absurd (cons-ne-nil "I" (strokes b) (sym e))
strokes-inj (suc a) zero e = absurd (cons-ne-nil "I" (strokes a) e)
strokes-inj (suc a) (suc b) e = ap suc (strokes-inj a b (letter-inj (strokes a) (strokes b) e))

crc_message : message strokes crc_mismatch ≡ "CRC mismatch"
unfolding message
crc_message = refl

unknown_message : message strokes 9 ≡ "Unknown error (IIIIIIIII)"
unfolding message
unknown_message = refl

message-ne_run : message strokes illegal_data_value ≢ message strokes 9
message-ne_run = message-ne strokes strokes-inj illegal_data_value 9 (omega arith)
