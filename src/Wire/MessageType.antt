-- ===== src/Wire/MessageType.antt =====
-- include/bsomeip/wire/message_type.hpp and return_code.hpp. Both are enums over `uint8_t` that
-- the code casts from any byte, so a value is its byte.
use bsomeip.Common.{
  ℕ, ◌%◌, ◌^◌, ◌<◌, bit_and, bit_or, ◌≡◌, refl, Bool, true, false, ◌||◌, ◌&&◌, not, ◌==◌, arith,
}
use bsomeip.Common.Table.{all_below, all_below_sound}

abbrev pub request : ℕ
request = 0x00

abbrev pub notification : ℕ
notification = 0x02

abbrev pub request_ack : ℕ
request_ack = 0x40

abbrev pub response : ℕ
response = 0x80

abbrev pub error : ℕ
error = 0x81

abbrev pub e_ok : ℕ
e_ok = 0x00

unfoldable pub is_request : ℕ → Bool
is_request t = t == request || t == request_ack

unfoldable pub is_response : ℕ → Bool
is_response t = not (bit_and t 0x80 == 0)

unfoldable pub is_tp : ℕ → Bool
is_tp t = not (bit_and t 0x20 == 0)

unfoldable pub with_tp : ℕ → ℕ
with_tp t = bit_or t 0x20 % 2 ^ 8

-- `~0x20` is taken on an int.
unfoldable pub without_tp : ℕ → ℕ
without_tp t = bit_and t 0xFFFFFFDF % 2 ^ 8

-- A return code other than `e_ok`.
unfoldable pub is_error : ℕ → Bool
is_error rc = not (rc == e_ok)

tp_table :
    all_below 256 (λ t.
      is_tp (with_tp t)
      && not (is_tp (without_tp t))
      && (is_tp t || without_tp (with_tp t) == t)
      && (not (is_tp t) || with_tp (without_tp t) == t)
      && without_tp (with_tp t) == without_tp t
      && (not (is_response t) || is_response (with_tp t))
      && (is_response t || not (is_response (with_tp t))))
    ≡ true
unfolding all_below is_tp with_tp without_tp is_response
tp_table = refl

-- On every byte: `with_tp` sets the TP flag and `without_tp` clears it, each undoes the other on
-- the types that lacked or had the flag, and the flag does not turn a request into a response or
-- back.
pub tp_flag :
    (t : ℕ)
    → t < 2 ^ 8
    → (is_tp (with_tp t) ≡ true)
      × (is_tp (without_tp t) ≡ false)
      × (is_tp t ≡ false → without_tp (with_tp t) ≡ t)
      × (is_tp t ≡ true → with_tp (without_tp t) ≡ t)
      × (without_tp (with_tp t) ≡ without_tp t)
      × (is_response (with_tp t) ≡ is_response t)
tp_flag t h = ground (arith, all_below_sound 256 _ t tp_table h)
