-- ===== src/Sd/Message/Serialize.antt =====
-- What serialization leaves in the buffer.
use bsomeip.Common.{
  ℕ, ◌+◌, ◌-◌, ◌*◌, ◌%◌, ◌^◌, ◌≤◌, ◌<◌, ◌≡◌, refl, sym, ap, ◌∙◌, true, false, List, ◌∷◌, ◌++◌,
  length, length-append, length-drop, drop, drop-drop, ltb, arith,
}
use bsomeip.Wire.Bytes.{write_u32_be}
use bsomeip.Sd.Option.{SdOption}
use bsomeip.Sd.Discovery.{SdMessage}
use bsomeip.Sd.Message.{to_byte, options_length, write_entries, write_options, serialize_sd}
use bsomeip.Sd.Message.Bytes.{
  entries_bytes, options_bytes, length-entries_bytes, length-options_bytes, write_entries-append,
  write_options-append,
}
use bsomeip.Wire.Bytes.Append.{u32_bytes, write_u32_be-append}

abbrev pub total_of : SdMessage SdOption → ℕ
total_of msg = 12 + length msg.entries * 16 + options_length msg.options

-- Flags, reserved bytes and the length of the entries.
unfoldable pub head_bytes : SdMessage SdOption → List ℕ
unfolding u32_bytes
head_bytes msg =
    to_byte msg.reboot msg.unicast ∷ 0 ∷ 0 ∷ 0 ∷ u32_bytes (length msg.entries * 16 % 2 ^ 32)

-- All before the options.
abbrev pub front_bytes : SdMessage SdOption → List ℕ
front_bytes msg =
    (head_bytes msg ++ entries_bytes msg.entries) ++ u32_bytes (options_length msg.options % 2 ^ 32)

abbrev pub sd_bytes : SdMessage SdOption → List ℕ
sd_bytes msg = front_bytes msg ++ options_bytes msg.options

pub length-head_entries :
    (msg : SdMessage SdOption)
    → length (head_bytes msg ++ entries_bytes msg.entries) ≡ 8 + length msg.entries * 16
unfolding head_bytes
length-head_entries msg = omega (
  arith,
  length-append (head_bytes msg) (entries_bytes msg.entries),
  length-entries_bytes msg.entries,
)

pub length-front_bytes :
    (msg : SdMessage SdOption) → length (front_bytes msg) ≡ 12 + length msg.entries * 16
unfolding u32_bytes
length-front_bytes msg = omega (
  arith,
  length-head_entries msg,
  length-append (head_bytes msg ++ entries_bytes msg.entries)
      (u32_bytes (options_length msg.options % 2 ^ 32)),
)

pub length-sd_bytes : (msg : SdMessage SdOption) → length (sd_bytes msg) ≡ total_of msg
length-sd_bytes msg = omega (
  arith,
  length-front_bytes msg,
  length-append (front_bytes msg) (options_bytes msg.options),
  length-options_bytes msg.options,
)

-- The loops behind the first eight bytes.
after_head :
    (msg : SdMessage SdOption) (rest : List ℕ)
    → total_of msg ≤ length rest + 8
    → let (p, off) = write_entries (head_bytes msg ++ rest) 8 msg.entries in
      write_options (write_u32_be p off (options_length msg.options % 2 ^ 32)) (off + 4) msg.options
      ≡ sd_bytes msg ++ drop (total_of msg - 8) rest
unfolding head_bytes
after_head msg rest h =
    let n = length msg.entries * 16 in
    let len = options_length msg.options in
    let front = head_bytes msg ++ entries_bytes msg.entries in
    let size = length-head_entries msg in
    let entries = write_entries-append (head_bytes msg) rest 8 msg.entries refl (omega arith) in
    let left = length-drop n rest in
    let options_len =
      write_u32_be-append front (drop n rest) (8 + n) (len % 2 ^ 32) (omega (arith, size))
        (omega (arith, left)) in
    ap
      (λ (s : List ℕ × ℕ).
        write_options (write_u32_be s.0 s.1 (len % 2 ^ 32)) (s.1 + 4) msg.options)
      entries
    ∙ ap (λ l. write_options l (8 + n + 4) msg.options) options_len
    ∙ write_options-append (front_bytes msg) (drop 4 (drop n rest)) (8 + n + 4) msg.options
        (omega (arith, length-front_bytes msg)) (omega (arith, left, length-drop 4 (drop n rest)))
    ∙ ap (λ l. sd_bytes msg ++ l)
        (drop-drop 4 len (4 + len) (drop n rest) refl
          ∙ drop-drop n (4 + len) (total_of msg - 8) rest (omega arith))

-- In a buffer with room the message is written at the front and the rest is left as it was.
pub serialize_sd-room :
    (buf : List ℕ) (msg : SdMessage SdOption)
    → total_of msg ≤ length buf
    → serialize_sd buf msg ≡ (sd_bytes msg ++ drop (total_of msg) buf, total_of msg)
unfolding serialize_sd head_bytes
serialize_sd-room (b0 ∷ b1 ∷ b2 ∷ b3 ∷ b4 ∷ b5 ∷ b6 ∷ b7 ∷ rest) msg h =
    let room : ltb (length (b0 ∷ b1 ∷ b2 ∷ b3 ∷ b4 ∷ b5 ∷ b6 ∷ b7 ∷ rest)) (total_of msg) ≡ false =
      ground arith in
    let tail : drop (total_of msg) (b0 ∷ b1 ∷ b2 ∷ b3 ∷ b4 ∷ b5 ∷ b6 ∷ b7 ∷ rest)
        ≡ drop (total_of msg - 8) rest =
      sym (
        drop-drop 8 (total_of msg - 8) (total_of msg) (b0 ∷ b1 ∷ b2 ∷ b3 ∷ b4 ∷ b5 ∷ b6 ∷ b7 ∷ rest)
          (omega arith)) in
    rw room (λ i. (
      (after_head msg rest (omega arith) ∙ ap (λ l. sd_bytes msg ++ l) (sym tail)) i,
      total_of msg,
    ))
serialize_sd-room _ msg h = absurd (omega arith)

pub serialize_sd-small :
    (buf : List ℕ) (msg : SdMessage SdOption)
    → length buf < total_of msg
    → serialize_sd buf msg ≡ (buf, 0)
unfolding serialize_sd
serialize_sd-small buf msg h =
    let small : ltb (length buf) (total_of msg) ≡ true = ground arith in rw small
