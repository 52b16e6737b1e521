-- ===== src/Io/Framer.antt =====
-- include/bsomeip/io/framer.hpp: the framer of a TCP stream. The rescan loop runs on fuel; each
-- round removes a byte at least, so the size of the buffer is enough.
pub mod Stream
pub mod Chunks
pub mod Recovery
use bsomeip.Common.{
  ℕ, zero, suc, ◌+◌, ◌*◌, Bool, ◌&&◌, ◌||◌, Option, none, some, List, [], ◌∷◌, ◌++◌, length, take,
  drop, ltb, ◌==◌, if◌then◌else◌,
}
use bsomeip.Wire.HeaderView
use bsomeip.Wire.HeaderView.{header_size, someip_header_size, service, method, message_size}

pub record Framer : Type 0 where
  pub buf : List ℕ
  pub consumed : ℕ

abbrev pub max_tcp_message_size : ℕ
max_tcp_message_size = 4096 * 1024

abbrev pub empty : Framer
empty = record { buf = []; consumed = 0 }

unfoldable pub feed : Framer → List ℕ → Framer
feed f bytes = record f { buf = f.buf ++ bytes }

unfoldable pub is_magic_cookie : List ℕ → Bool
unfolding service method HeaderView.length
is_magic_cookie buf =
    let svc = service buf in
    let mtd = method buf in
    (svc == 0xFFFF && mtd == 0x0000 || svc == 0xDEAD && mtd == 0xBEEF)
    && HeaderView.length buf == someip_header_size

-- What one round of the loop does: wait for more bytes, give out a message, or erase and rescan.
pub data Round : Type 0 where
  need_more : Round
  message : ℕ → Round
  skip : ℕ → Round

abbrev pub round_of : (size : ℕ) → (cookie : Bool) → (msg_size : ℕ) → Round
round_of size cookie msg_size =
    if ltb size header_size
    then need_more
    else if cookie
    then skip header_size
    else if ltb max_tcp_message_size msg_size
    then skip 1
    else if ltb size msg_size
    then need_more
    else message msg_size

unfoldable pub round : List ℕ → Round
unfolding is_magic_cookie message_size
round buf = round_of (length buf) (is_magic_cookie buf) (message_size buf)

-- The buffer after the loop, and the size of the message at its start.
unfoldable pub scan : (fuel : ℕ) → List ℕ → List ℕ × Option ℕ
unfolding round
scan zero buf = (buf, none)
scan (suc fuel) buf = elim (round buf) [
  | need_more ↦ (buf, none)
  | message n ↦ (buf, some n)
  | skip n ↦ scan fuel (drop n buf)
]

abbrev pub given : List ℕ → Option ℕ → Framer × Option (List ℕ)
given buf none = (record { buf = buf; consumed = 0 }, none)
given buf (some n) = (record { buf = buf; consumed = n }, some (take n buf))

unfoldable pub next_message : Framer → Framer × Option (List ℕ)
unfolding scan
next_message f =
    let buf = drop f.consumed f.buf in let (buf, found) = scan (length buf) buf in given buf found

unfoldable pub reset : Framer → Framer
reset f = empty

unfoldable pub buffered : Framer → ℕ
buffered f = length f.buf

-- The caller's loop: `while (auto msg = framer.next_message()) { ... }`.
unfoldable pub drain : (fuel : ℕ) → Framer → List (List ℕ) × Framer
unfolding next_message
drain zero f = ([], f)
drain (suc fuel) f =
    let (g, msg) = next_message f in
    elim msg [ none ↦ ([], g) | some m ↦ let (ms, h) = drain fuel g in (m ∷ ms, h) ]

-- Receiving chunk by chunk, each fed and drained.
unfoldable pub receive : List (List ℕ) → Framer → List (List ℕ) × Framer
unfolding feed drain
receive [] f = ([], f)
receive (chunk ∷ chunks) f =
    let g = feed f chunk in
    let (ms, h) = drain (suc (length g.buf)) g in let (ns, k) = receive chunks h in (ms ++ ns, k)
