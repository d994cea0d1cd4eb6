-- ===== src/Options.antt =====
-- The command line: the numbers of common.hpp, and what cli.hpp shares between the two programs. An
-- argument is a text; its value ends where it ends. `std::stoull` and `std::stoul` are
-- those of the C++ library: they differ in the width of their numbers on Windows.
pub mod Arguments
pub mod Numbers
pub mod Server
pub mod Client
mod Tests
use Prim.Native.Char.{Char, code}
use Prim.Native.String.{[], String, ◌∷◌}
use text.Mathlib.Text.{◌==◌ as str_eq}
use udp_test.Base.{
  ℕ, ◌+◌, ◌-◌, ◌*◌, ◌%◌, ◌^◌, Bool, true, false, ◌&&◌, ◌||◌, Option, none, some, ltb, leb, ◌==◌,
  if◌then◌else◌, Result, returned, thrown,
}
use udp_test.Packet.{packet_header_size}
use udp_test.Server.Scan.{max_batch_size}

-- What the parsers throw.
pub data OptionError : Type 0 where
  unexpected_argument unknown_option requires_value : String → OptionError
  no_number number_out_of_range : OptionError
  port_out_of_range batch_size_out_of_range mss_out_of_range zero_count : OptionError
  loop_with_count uro_unsupported : OptionError
  port_required dest_required size_required mss_too_large size_too_large : OptionError

infixl 5 ◌>>=◌
abbrev pub ◌>>=◌ :
    {A B : Type 0} → Result OptionError A → (A → Result OptionError B) → Result OptionError B
returned a >>= f = f a
thrown e >>= f = thrown e

-- `std::isspace`, in the "C" locale
abbrev pub is_space : Char → Bool
is_space c = code c == 32 || leb 9 (code c) && leb (code c) 13

abbrev pub is_digit : Char → Bool
is_digit c = leb 48 (code c) && leb (code c) 57

-- The digits at the front, read after others of the given value; what follows them is ignored.
unfoldable pub digits : String → ℕ → ℕ
digits [] value = value
digits (c ∷ text) value =
    let more = digits text (10 * value + (code c - 48)) in if is_digit c then more else value

-- The number after the sign; `none` if no digit stands there.
unfoldable pub magnitude : String → Option ℕ
magnitude [] = none
magnitude (c ∷ text) = if is_digit c then some (digits (c ∷ text) 0) else none

-- A minus sign negates the number in its own width.
abbrev pub signed : ℕ → Bool → Option ℕ → Result OptionError ℕ
signed modulus negative none = thrown no_number
signed modulus negative (some value) =
    if leb modulus value
    then thrown number_out_of_range
    else returned (if negative then (modulus - value) % modulus else value)

-- A number of an unsigned type, whose values are those below the modulus.
unfoldable pub unsigned_number : ℕ → String → Result OptionError ℕ
unsigned_number modulus [] = thrown no_number
unsigned_number modulus (c ∷ text) =
    let rest = unsigned_number modulus text in
    if is_space c
    then rest
    else if code c == 45
    then signed modulus true (magnitude text)
    else if code c == 43
    then signed modulus false (magnitude text)
    else signed modulus false (magnitude (c ∷ text))

-- `std::stoull`: an `unsigned long long` has 64 bits.
abbrev pub stoull : String → Result OptionError ℕ
stoull text = unsigned_number (2 ^ 64) text

-- `std::stoul`: an `unsigned long` has 32 bits on Windows, and 64 on the other platforms.
abbrev pub stoul : Bool → String → Result OptionError ℕ
stoul windows text = unsigned_number (if windows then 2 ^ 32 else 2 ^ 64) text

unfoldable pub parse_port : Bool → String → Result OptionError ℕ
parse_port windows text =
    stoul windows text
    >>= (λ value. if ltb 65535 value then thrown port_out_of_range else returned value)

unfoldable pub parse_batch_size : String → Result OptionError ℕ
parse_batch_size text = stoull text >>= (λ value.
    if ltb value packet_header_size || ltb max_batch_size value
    then thrown batch_size_out_of_range
    else returned value)

unfoldable pub parse_mss : String → Result OptionError ℕ
parse_mss text =
    stoull text
    >>= (λ value. if ltb max_batch_size value then thrown mss_out_of_range else returned value)

unfoldable pub parse_count : String → Result OptionError ℕ
parse_count text =
    stoull text >>= (λ value. if value == 0 then thrown zero_count else returned value)

unfoldable pub is_help_flag : String → Bool
is_help_flag arg = str_eq arg "--help" || str_eq arg "-h"

-- The text before the first `=`, and the text behind it.
unfoldable pub option_key : String → String
option_key [] = []
option_key (c ∷ arg) = let rest = c ∷ option_key arg in if code c == 61 then [] else rest

unfoldable pub attached : String → Option String
attached [] = none
attached (c ∷ arg) = let rest = attached arg in if code c == 61 then some arg else rest

-- The value, and whether it is the next argument.
unfoldable pub option_value : String → Option String → Result OptionError (String × Bool)
option_value arg next = elim (attached arg) [
  | some value ↦ returned (value, false)
  | none ↦ elim next [ some value ↦ returned (value, true) | none ↦ thrown (requires_value arg) ]
]

-- `arg[0] == '-'`
unfoldable pub is_dashed : String → Bool
is_dashed [] = false
is_dashed (c ∷ arg) = code c == 45

-- `next[0] >= '0' && next[0] <= '9'`
unfoldable pub starts_with_digit : String → Bool
starts_with_digit [] = false
starts_with_digit (c ∷ arg) = is_digit c
