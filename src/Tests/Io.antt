-- ===== src/Tests/Io.antt =====
-- include/bsomeip/io at concrete inputs.
use bsomeip.Common.{ℕ, ◌+◌, ◌*◌, ◌≤◌, ◌<◌, ◌≡◌, inl, refl, some, List, [], ◌∷◌, length, All, arith}
use bsomeip.Io.BufferPool.{Buffer, create, acquire, available}
use bsomeip.Io.BufferPool.Uses.{Use, acquires, releases, use_all}
use bsomeip.Io.BufferPool.Held.{Apart, use_all_lem}
use bsomeip.Wire.HeaderView.{service, method, message_size}
use bsomeip.Io.Framer.{empty, is_magic_cookie, receive}
use bsomeip.Io.Framer.Chunks.{receive_chunks}
use bsomeip.Route.Dispatcher.{Handler, MessageView, view_of, register_handler}
use bsomeip.Route.Manager.{Manager}
use bsomeip.Route.Manager.Delivery.{route_all, handle_all, route_all-receive}
use bsomeip.Io.Framer.Recovery.{Item, message_item, cookie_item, IsMessage, IsCookie, receive-items}

abbrev cookie : List ℕ
cookie = 0xFF ∷ 0xFF ∷ 0 ∷ 0 ∷ 0 ∷ 0 ∷ 0 ∷ 8 ∷ 0xDE ∷ 0xAD ∷ 0xBE ∷ 0xEF ∷ 1 ∷ 1 ∷ 1 ∷ 0 ∷ []

abbrev message : List ℕ
message = 0x12 ∷ 0x34 ∷ 0 ∷ 1 ∷ 0 ∷ 0 ∷ 0 ∷ 10 ∷ 0 ∷ 0x10 ∷ 0 ∷ 5 ∷ 1 ∷ 1 ∷ 0 ∷ 0 ∷ 7 ∷ 8 ∷ []

cookie-IsCookie : IsCookie cookie
unfolding is_magic_cookie
cookie-IsCookie = record { header = refl; magic = refl }

message-IsMessage : IsMessage message
unfolding is_magic_cookie message_size
message-IsMessage = record {
  header = omega arith;
  size = refl;
  allowed = omega arith;
  no_cookie = refl;
}

abbrev chunk1 : List ℕ
chunk1 = 0xFF ∷ 0xFF ∷ 0 ∷ 0 ∷ 0 ∷ 0 ∷ 0 ∷ 8 ∷ 0xDE ∷ 0xAD ∷ 0xBE ∷ 0xEF ∷ 1 ∷ 1 ∷ 1 ∷ 0 ∷ 0x12 ∷ []

abbrev chunk2 : List ℕ
chunk2 = 0x34 ∷ 0 ∷ 1 ∷ 0 ∷ 0 ∷ 0 ∷ 10 ∷ 0 ∷ 0x10 ∷ 0 ∷ 5 ∷ 1 ∷ 1 ∷ 0 ∷ 0 ∷ 7 ∷ 8 ∷ []

receive_chunks_example :
    (receive (chunk1 ∷ chunk2 ∷ []) empty).0 ≡ (receive (cookie ∷ message ∷ []) empty).0
receive_chunks_example = receive_chunks (chunk1 ∷ chunk2 ∷ []) (cookie ∷ message ∷ []) refl

receive-items_example : (receive (chunk1 ∷ chunk2 ∷ []) empty).0 ≡ message ∷ []
receive-items_example =
    receive-items (cookie_item cookie cookie-IsCookie ∷ message_item message message-IsMessage ∷ [])
      (chunk1 ∷ chunk2 ∷ []) refl

-- Four buffers of 16 bytes: two are acquired, the first is given back, and three more are asked for.
abbrev uses : List Use
uses = acquires ∷ acquires ∷ releases 1 ∷ acquires ∷ acquires ∷ acquires ∷ []

use_all_example :
    let u = use_all (record { pool = create 4 16; held = [] }) uses in
    (length u.held + available u.pool ≡ 4)
    × (u.pool.storage_size ≡ 4 * 16)
    × All (λ (b : Buffer). (b.size ≡ 16) × (b.offset + b.size ≤ u.pool.storage_size)) u.held
    × Apart u.held
    × (length u.held < 4 → (b : Buffer) × ((acquire u.pool).1 ≡ some b))
use_all_example = use_all_lem 4 16 uses (omega arith) (omega arith) (omega arith)

-- The message behind the cookie and one of another method, to a handler that keeps the views.
abbrev other_message : List ℕ
other_message = 0x12 ∷ 0x34 ∷ 0 ∷ 2 ∷ 0 ∷ 0 ∷ 0 ∷ 8 ∷ 0 ∷ 0x10 ∷ 0 ∷ 6 ∷ 1 ∷ 1 ∷ 0 ∷ 0 ∷ []

other_message-IsMessage : IsMessage other_message
unfolding is_magic_cookie message_size
other_message-IsMessage = record {
  header = omega arith;
  size = refl;
  allowed = omega arith;
  no_cookie = refl;
}

abbrev manager : Manager (List MessageView)
manager = record {
  registry = [];
  dispatcher = record { handlers = []; subscriptions = []; availability_handlers = [] };
}

abbrev keep : Handler (List MessageView)
keep view seen = view ∷ seen

abbrev written : List Item
written =
    cookie_item cookie cookie-IsCookie
    ∷ message_item message message-IsMessage
    ∷ message_item other_message other_message-IsMessage
    ∷ []

route_all_example :
    route_all
      (record manager { dispatcher = register_handler manager.dispatcher 0x1234 1 keep })
      (receive (chunk1 ∷ chunk2 ∷ other_message ∷ []) empty).0
      []
    ≡ view_of message (7 ∷ 8 ∷ []) ∷ []
unfolding handle_all service method
route_all_example =
    route_all-receive manager 0x1234 1 keep written (chunk1 ∷ chunk2 ∷ other_message ∷ []) [] refl
      (omega arith) (λ e. absurd (omega arith)) (inl (λ e. absurd (omega arith))) refl
