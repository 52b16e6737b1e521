-- ===== src/Io/Framer/Recovery.antt =====
-- A sender's messages and magic cookies come out of the receiver's framer.
use bsomeip.Common.{
  ℕ, ◌≤◌, ◌≡◌, refl, sym, subst, true, false, List, [], ◌∷◌, ◌++◌, length, length-append, drop,
  take-append, drop-append, arith,
}
use bsomeip.Wire.HeaderView.{message_size}
use bsomeip.Io.Framer.{empty, message, skip, round, is_magic_cookie, max_tcp_message_size, receive}
use bsomeip.Io.Framer.Stream.{Stream, rest, found, skipped, header_append, Stream-unique}
use bsomeip.Io.Framer.Chunks.{concat, receive-Stream, empty-Idle, empty_waits}

-- A whole message of a size that TCP allows.
pub record IsMessage (m : List ℕ) : Type 0 where
  pub header : 16 ≤ length m
  pub size : message_size m ≡ length m
  pub allowed : length m ≤ max_tcp_message_size
  pub no_cookie : is_magic_cookie m ≡ false

pub record IsCookie (c : List ℕ) : Type 0 where
  pub header : length c ≡ 16
  pub magic : is_magic_cookie c ≡ true

-- What a sender writes.
pub data Item : Type 0 where
  message_item : (m : List ℕ) → IsMessage m → Item
  cookie_item : (c : List ℕ) → IsCookie c → Item

abbrev pub bytes_of : List Item → List ℕ
bytes_of [] = []
bytes_of (message_item m h ∷ items) = m ++ bytes_of items
bytes_of (cookie_item c h ∷ items) = c ++ bytes_of items

abbrev pub messages_of : List Item → List (List ℕ)
messages_of [] = []
messages_of (message_item m h ∷ items) = m ∷ messages_of items
messages_of (cookie_item c h ∷ items) = messages_of items

round-message : (m more : List ℕ) → IsMessage m → round (m ++ more) ≡ message (length m)
unfolding round
round-message m more h =
    let (cookie, size) = header_append m more (h.header) in
    rw (cookie, size, h.no_cookie, h.size)
      (ground (arith, length-append m more, h.header, h.allowed))

round-cookie : (c more : List ℕ) → IsCookie c → round (c ++ more) ≡ skip 16
unfolding round
round-cookie c more h =
    let (cookie, size) = header_append c more (omega (arith, h.header)) in
    rw (cookie, h.magic) (ground (arith, length-append c more, h.header))

items-Stream : (items : List Item) → Stream (bytes_of items) (messages_of items) []
items-Stream [] = rest [] empty_waits
items-Stream (message_item m h ∷ items) =
    let all = m ++ bytes_of items in
    let later : Stream (drop (length m) all) (messages_of items) [] =
      rw (drop-append (length m) m (bytes_of items) refl) (items-Stream items) in
    subst (λ x. Stream all (x ∷ messages_of items) [])
      (take-append (length m) m (bytes_of items) refl)
      (found all (length m) (messages_of items) [] (round-message m (bytes_of items) h) later)
items-Stream (cookie_item c h ∷ items) =
    let all = c ++ bytes_of items in
    let later : Stream (drop 16 all) (messages_of items) [] =
      rw (drop-append 16 c (bytes_of items) (sym h.header)) (items-Stream items) in
    skipped all 16 (messages_of items) [] (round-cookie c (bytes_of items) h) later

-- Messages and magic cookies that a sender writes one after another come out of the framer as
-- exactly these messages, in order, however TCP cuts the stream into chunks.
pub receive-items :
    (items : List Item) (chunks : List (List ℕ))
    → concat chunks ≡ bytes_of items
    → (receive chunks empty).0 ≡ messages_of items
receive-items items chunks e =
    let (got, _) = receive-Stream chunks empty empty-Idle in
    Stream-unique (bytes_of items) _ (messages_of items) _ []
      (subst (λ b. Stream b (receive chunks empty).0 (receive chunks empty).1.buf) e got)
      (items-Stream items)
