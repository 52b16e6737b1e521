-- ===== src/Sd/Message/RoundTrip.antt =====
-- A message survives the wire.
use bsomeip.Common.{
  ℕ, zero, suc, ◌+◌, ◌*◌, ◌/◌, ◌%◌, ◌^◌, ◌≤◌, ◌<◌, ◌≡◌, refl, sym, ap, ◌∙◌, Bool, true, false, not,
  ◌||◌, List, [], ◌∷◌, ◌++◌, append-nil, append_assoc, length, length-append, take, drop,
  take-append, drop-append, replicate, All, ltb, ◌==◌, inl, inr, arith,
}
use bsomeip.Wire.Bytes.{byte, read_u32_be}
use bsomeip.Sd.Entry.{SdEntry, read_entry}
use bsomeip.Sd.Entry.RoundTrip.{Fits, read_entry-write_entry}
use bsomeip.Sd.Option.{SdOption, ipv4, ipv6, read_option_size, peek_option_type}
use bsomeip.Sd.Option.RoundTrip.{
  OptionFits, option_bytes, option_size, type_of, length-option_bytes, option_bytes-head,
  read-option_bytes4, read-option_bytes6,
}
use bsomeip.Sd.Discovery.{SdMessage}
use bsomeip.Sd.Message.{
  to_byte, from_byte, ok, options_length, read_entries, read_option, read_options, read_all_options,
  deserialize_sd, serialize_sd,
}
use bsomeip.Sd.Message.Bytes.{
  entry_bytes, entries_bytes, options_bytes, length-entry_bytes, options_length-size,
}
use bsomeip.Wire.Bytes.Append.{u32_bytes, read_u32_be-append}
use bsomeip.Sd.Message.Serialize.{
  head_bytes, front_bytes, sd_bytes, total_of, length-head_entries, length-front_bytes,
  length-sd_bytes, serialize_sd-room,
}

from_byte-to_byte : (reboot unicast : Bool) → from_byte (to_byte reboot unicast) ≡ (reboot, unicast)
unfolding from_byte to_byte
from_byte-to_byte true true = refl
from_byte-to_byte true false = refl
from_byte-to_byte false true = refl
from_byte-to_byte false false = refl

drop_front :
    (front a b : List ℕ) (off : ℕ) → off ≡ length front → drop off ((front ++ a) ++ b) ≡ a ++ b
drop_front front a b off e =
    ap (drop off) (append_assoc front a b) ∙ drop-append off front (a ++ b) e

read_entry-entry_bytes : (e : SdEntry) → Fits e → read_entry (entry_bytes e) ≡ e
unfolding entry_bytes
read_entry-entry_bytes e fits = read_entry-write_entry (replicate 16 0) e (omega arith) fits

-- `front` is what was read, `p` what is left.
read_entries-bytes :
    (front p : List ℕ) (off : ℕ) (es acc : List SdEntry)
    → off ≡ length front
    → All Fits es
    → read_entries (length es) ((front ++ entries_bytes es) ++ p) off acc
      ≡ ok (acc ++ es, off + length es * 16)
unfolding read_entries
read_entries-bytes front p off [] acc at fits = λ i. ok (sym (append-nil acc) i, add-zero off i)
  where
    add-zero : (n : ℕ) → n ≡ n + 0 * 16
    add-zero n = omega arith
read_entries-bytes front p off (e ∷ es) acc at fits =
    let eb = entry_bytes e in
    let rest = entries_bytes es in
    let payload = (front ++ (eb ++ rest)) ++ p in
    let size = length-entry_bytes e in
    let slice : take 16 (drop off payload) ≡ eb =
      ap (take 16) (drop_front front (eb ++ rest) p off at ∙ append_assoc eb rest p)
      ∙ take-append 16 eb (rest ++ p) (sym size) in
    let entry : read_entry (take 16 (drop off payload)) ≡ e =
      ap read_entry slice ∙ read_entry-entry_bytes e fits.0 in
    let room : ltb (length payload) (off + 16) ≡ false = ground (
      arith,
      length-append (front ++ (eb ++ rest)) p,
      length-append front (eb ++ rest),
      length-append eb rest,
      size,
    ) in
    let next : payload ≡ ((front ++ eb) ++ rest) ++ p =
      ap (λ l. l ++ p) (sym (append_assoc front eb rest)) in
    let later =
      read_entries-bytes (front ++ eb) p (off + 16) es (acc ++ e ∷ [])
        (omega (arith, length-append front eb, size)) fits.1 in
    let sum : off + 16 + length es * 16 ≡ off + suc (length es) * 16 = omega arith in
    rw room (
      (λ i. read_entries (length es) (next i) (off + 16) (acc ++ entry i ∷ [])) ∙ later ∙ λ i.
      ok (append_assoc acc (e ∷ []) es i, sum i))

-- One option is added.
read_option-bytes :
    (o : SdOption) (rest : List ℕ)
    → OptionFits o
    → read_option (type_of o) (option_size o) (option_bytes o ++ rest) ≡ ok (o ∷ [])
unfolding read_option
read_option-bytes (ipv4 o) rest fits =
    let slice = take-append 12 (option_bytes (ipv4 o)) rest (sym (length-option_bytes (ipv4 o))) in
    let known : (o.option_type == 0x04 || o.option_type == 0x14) ≡ true = elim fits.0 [
      | inl t ↦ rw t
      | inr t ↦ rw t
    ] in
    rw (known, slice) (ap (λ r. ok (ipv4 r ∷ [])) (read-option_bytes4 o fits))
read_option-bytes (ipv6 o) rest fits =
    let slice = take-append 24 (option_bytes (ipv6 o)) rest (sym (length-option_bytes (ipv6 o))) in
    let other : (o.option_type == 0x04 || o.option_type == 0x14) ≡ false = elim fits.0 [
      | inl t ↦ rw t
      | inr t ↦ rw t
    ] in
    let known : (o.option_type == 0x06 || o.option_type == 0x16) ≡ true = elim fits.0 [
      | inl t ↦ rw t
      | inr t ↦ rw t
    ] in
    rw (other, known, slice) (ap (λ r. ok (ipv6 r ∷ [])) (read-option_bytes6 o fits))

option_size-ge : (o : SdOption) → 12 ≤ option_size o
option_size-ge (ipv4 o) = omega arith
option_size-ge (ipv6 o) = omega arith

read_options-bytes :
    (fuel : ℕ) (front p : List ℕ) (off options_end : ℕ) (os acc : List SdOption)
    → off ≡ length front
    → options_end ≡ off + options_length os
    → options_end < off + fuel
    → All OptionFits os
    → read_options fuel ((front ++ options_bytes os) ++ p) off options_end acc ≡ ok (acc ++ os)
unfolding read_options
read_options-bytes zero front p off options_end os acc at end h fits = absurd (omega arith)
read_options-bytes (suc fuel) front p off options_end [] acc at end h fits =
    let done : not (ltb off options_end) ≡ true = ground arith in
    rw done (ap ok (sym (append-nil acc)))
read_options-bytes (suc fuel) front p off options_end (o ∷ os) acc at end h fits =
    let ob = option_bytes o in
    let rest = options_bytes os in
    let payload = (front ++ (ob ++ rest)) ++ p in
    let size = length-option_bytes o in
    let n = option_size o in
    let head = options_length-size o os in
    let big = option_size-ge o in
    let here : drop off payload ≡ ob ++ (rest ++ p) =
      drop_front front (ob ++ rest) p off at ∙ append_assoc ob rest p in
    let (size_is, type_is) = option_bytes-head o (rest ++ p) in
    let size_read : read_option_size (drop off payload) ≡ n = ap read_option_size here ∙ size_is in
    let type_read = ap peek_option_type here ∙ type_is in
    let read : read_option (peek_option_type (drop off payload)) n (drop off payload)
        ≡ ok (o ∷ []) =
      (λ i. read_option (type_read i) n (here i)) ∙ read_option-bytes o (rest ++ p) fits.0 in
    let goes_on : not (ltb off options_end) ≡ false = ground (arith, head, big) in
    let header : ltb options_end (off + 4) ≡ false = ground (arith, head, big) in
    let whole : ltb options_end (off + n) ≡ false = ground (arith, head) in
    let next : payload ≡ ((front ++ ob) ++ rest) ++ p =
      ap (λ l. l ++ p) (sym (append_assoc front ob rest)) in
    let later =
      read_options-bytes fuel (front ++ ob) p (off + n) options_end os (acc ++ o ∷ [])
        (omega (arith, length-append front ob, size)) (omega (arith, head)) (omega (arith, big))
        fits.1 in
    rw (goes_on, header, size_read, whole, read)
      (ap (λ l. read_options fuel l (off + n) options_end (acc ++ o ∷ [])) next
        ∙ later
        ∙ ap ok (append_assoc acc (o ∷ []) os))

read_all_options-sd_bytes :
    (msg : SdMessage SdOption) (tail : List ℕ)
    → All OptionFits msg.options
    → total_of msg < 2 ^ 32
    → read_all_options (sd_bytes msg ++ tail) (8 + length msg.entries * 16) ≡ ok msg.options
unfolding read_all_options
read_all_options-sd_bytes msg tail fits small =
    let off = 8 + length msg.entries * 16 in
    let len = options_length msg.options in
    let hE = head_bytes msg ++ entries_bytes msg.entries in
    let O = options_bytes msg.options in
    let payload = sd_bytes msg ++ tail in
    let wraps : len % 2 ^ 32 ≡ len = omega arith in
    let read : read_u32_be payload off ≡ len =
      ap (λ l. read_u32_be l off) (append_assoc (front_bytes msg) O tail)
      ∙ read_u32_be-append hE (O ++ tail) off (len % 2 ^ 32) (sym (length-head_entries msg))
          (omega arith)
      ∙ wraps in
    let size = length-append (sd_bytes msg) tail in
    let total = length-sd_bytes msg in
    let room : ltb (length payload) (off + 4) ≡ false = ground (arith, size, total) in
    let whole : ltb (length payload) (off + 4 + len) ≡ false = ground (arith, size, total) in
    rw (room, read, whole)
      (read_options-bytes (suc len) (front_bytes msg) tail (off + 4) (off + 4 + len) msg.options []
        (omega (arith, length-front_bytes msg)) refl (omega arith) fits)

entries_len_read :
    (msg : SdMessage SdOption) (tail : List ℕ)
    → total_of msg < 2 ^ 32
    → (read_u32_be (sd_bytes msg ++ tail) 4 ≡ length msg.entries * 16)
      × (byte (sd_bytes msg ++ tail) 0 ≡ to_byte msg.reboot msg.unicast)
unfolding head_bytes
entries_len_read msg tail small =
    let n = length msg.entries * 16 in
    let U = u32_bytes (options_length msg.options % 2 ^ 32) in
    let behind = ((entries_bytes msg.entries ++ U) ++ options_bytes msg.options) ++ tail in
    (
      read_u32_be-append (to_byte msg.reboot msg.unicast ∷ 0 ∷ 0 ∷ 0 ∷ []) behind 4 (n % 2 ^ 32)
            refl (omega arith)
          ∙ omega arith,
      refl,
    )

pub deserialize_sd-sd_bytes :
    (msg : SdMessage SdOption) (tail : List ℕ)
    → All Fits msg.entries
    → All OptionFits msg.options
    → total_of msg < 2 ^ 32
    → deserialize_sd (sd_bytes msg ++ tail) ≡ ok msg
unfolding deserialize_sd head_bytes
deserialize_sd-sd_bytes msg tail fe fo small =
    let n = length msg.entries * 16 in
    let U = u32_bytes (options_length msg.options % 2 ^ 32) in
    let O = options_bytes msg.options in
    let hE = head_bytes msg ++ entries_bytes msg.entries in
    let payload = sd_bytes msg ++ tail in
    let (len_read, flags_read) = entries_len_read msg tail small in
    let flags = ap from_byte flags_read ∙ from_byte-to_byte msg.reboot msg.unicast in
    let size = length-append (sd_bytes msg) tail in
    let total = length-sd_bytes msg in
    let room : ltb (length payload) 12 ≡ false = ground (arith, size, total) in
    let inside : ltb (length payload) ((8 + n + 4) % 2 ^ 32) ≡ false =
      ground (arith, size, total) in
    let even : not (n % 16 == 0) ≡ false = ground arith in
    let count : n / 16 ≡ length msg.entries = omega arith in
    let split : payload ≡ hE ++ ((U ++ O) ++ tail) =
      ap (λ l. l ++ tail) (append_assoc hE U O) ∙ append_assoc hE (U ++ O) tail in
    let entries : read_entries (n / 16) payload 8 [] ≡ ok (msg.entries, 8 + n) =
      (λ i. read_entries (count i) (split i) 8 [])
      ∙ read_entries-bytes (head_bytes msg) ((U ++ O) ++ tail) 8 msg.entries [] refl fe in
    let options = read_all_options-sd_bytes msg tail fo small in
    rw (room, len_read, inside, even, entries, options)
      (λ i. ok (record {
        reboot = (flags i).0;
        unicast = (flags i).1;
        entries = msg.entries;
        options = msg.options;
      }))

-- A message whose entries and options fit, serialized into a buffer with room for it, is there
-- behind the flags, and is read back as it was, whatever the bytes of the buffer behind it; they
-- are unchanged, and the number returned is the size of the message. Its size fits 32 bits.
pub deserialize_sd-serialize_sd :
    (buf : List ℕ) (msg : SdMessage SdOption)
    → All Fits msg.entries
    → All OptionFits msg.options
    → total_of msg < 2 ^ 32
    → total_of msg ≤ length buf
    → let (buf', n) = serialize_sd buf msg in
      (deserialize_sd buf' ≡ ok msg)
      × (deserialize_sd (take n buf') ≡ ok msg)
      × (n ≡ total_of msg)
      × (drop n buf' ≡ drop n buf)
deserialize_sd-serialize_sd buf msg fe fo small room =
    let tail = drop (total_of msg) buf in
    let total = length-sd_bytes msg in
    let e = serialize_sd-room buf msg room in
    let cut : take (total_of msg) (sd_bytes msg ++ tail) ≡ sd_bytes msg ++ [] =
      take-append (total_of msg) (sd_bytes msg) tail (sym total)
      ∙ sym (append-nil (sd_bytes msg)) in
    rw e (
      deserialize_sd-sd_bytes msg tail fe fo small,
      ap deserialize_sd cut ∙ deserialize_sd-sd_bytes msg [] fe fo small,
      refl,
      drop-append (total_of msg) (sd_bytes msg) tail (sym total),
    )
