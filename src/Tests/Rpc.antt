-- ===== src/Tests/Rpc.antt =====
-- include/bsomeip/api/application.hpp, skeleton.hpp and proxy.hpp at concrete inputs.
use bsomeip.Common.{
  ℕ, ◌+◌, ◌%◌, ◌^◌, ◌≡◌, ◌≢◌, inl, refl, true, none, List, [], ◌∷◌, take, drop, arith,
}
use bsomeip.Wire.HeaderView.{
  service, method, interface_ver, payload_length, session, ret_code, msg_type,
}
use bsomeip.Wire.MessageType.{is_response}
use bsomeip.Wire.Codec.{Members, no_members, member, u16, u32, Values}
use bsomeip.Wire.Codec.Layout.{members_size}
use bsomeip.Sd.Discovery.{SdConfig}
use bsomeip.Api.Application.{
  App, create, subscribe, register_pending, pending_at, dispatch_raw, answered, route, next_session,
}
use bsomeip.Api.Application.Pending.{route-register_pending}
use bsomeip.Api.Application.Sessions.{after_calls, next_session_lem}
use bsomeip.Api.Rpc.{Method, System, listener, ran, out_of_fuel, completed, set_value, run}
use bsomeip.Api.Rpc.Recursion.{run-serve_never_ends}
use bsomeip.Api.Skeleton.{Skeleton, serve, notify}
use bsomeip.Api.Skeleton.Notify.{notify-subscribe}
use bsomeip.Api.Proxy.{target, async_call}
use bsomeip.Api.Proxy.Call.{async_call-serve}

abbrev config : SdConfig
config = record {
  initial_delay_min = 0;
  initial_delay_max = 3000;
  repetition_base_delay = 10;
  repetition_max = 3;
  cyclic_offer_delay = 1000;
  offer_ttl = 3;
  find_ttl = 3;
}

-- Client 1 with session 5 gets a response.
abbrev response_raw : List ℕ
response_raw = 0x12 ∷ 0x34 ∷ 0 ∷ 1 ∷ 0 ∷ 0 ∷ 0 ∷ 10 ∷ 0 ∷ 1 ∷ 0 ∷ 5 ∷ 1 ∷ 0 ∷ 0x80 ∷ 0 ∷ 7 ∷ 8 ∷ []

abbrev fresh : App ℕ ℕ
fresh = record {
  client = 1;
  router = record {
    registry = [];
    dispatcher = record { handlers = []; subscriptions = []; availability_handlers = [] };
  };
  discovery = record {
    config = config;
    reboot_flag = true;
    offers = [];
    pending_stop_offers = [];
    finds = [];
  };
  session_counter = 1;
  pending = [];
}

route-register_pending_example :
    let (after, r) = route (register_pending fresh (session response_raw) 42) response_raw in
    (r
      ≡ answered 42
          (take (payload_length response_raw) (drop 16 response_raw))
          (ret_code response_raw))
    × (pending_at after (session response_raw) ≡ none)
    × (route after response_raw ≡ dispatch_raw after response_raw)
    × ((j : ℕ) → session response_raw ≢ j → pending_at after j ≡ pending_at fresh j)
unfolding is_response msg_type
route-register_pending_example = route-register_pending fresh response_raw 42 (omega arith) refl

next_session_example : (next_session (after_calls 65535 (create {K = ℕ} {P = ℕ} 1 config))).1 ≡ 1
next_session_example = next_session_lem ℕ ℕ 65535 1 config

abbrev add_request : Members
add_request = member u16 (member u16 no_members)

abbrev add_response : Members
add_response = member u32 no_members

-- The sum, and a count of the calls.
abbrev add : Method ℕ
add = record {
  req = add_request;
  resp = add_response;
  handler = λ (calls : ℕ) (v : Values add_request). (calls + 1, ((v.0 + v.1.0) % 2 ^ 32, tt));
}

abbrev skeleton : Skeleton
skeleton = record { service = 0x1234; instance_id = 1 }

abbrev system : System ℕ
system = record {
  app = record {
    client = 1;
    router = record {
      registry = [];
      dispatcher = record { handlers = []; subscriptions = []; availability_handlers = [] };
    };
    discovery = record {
      config = config;
      reboot_flag = true;
      offers = [];
      pending_stop_offers = [];
      finds = [];
    };
    session_counter = 1;
    pending = [];
  };
  impl = 0;
  events = [];
}

abbrev served_system : System ℕ
served_system = record system { app = serve skeleton system.app 1 add }

async_call_example :
    (after : System ℕ) × (async_call members_size 2
        (target 0x1234 1)
        served_system
        1
        add_request
        add_response
        (20, (22, tt))
        9
      ≡ ran after)
    × (after.impl ≡ 1)
    × (after.events ≡ completed 9 (set_value add_response (42, tt)) ∷ [])
    × (pending_at after.app (next_session served_system.app).1 ≡ none)
async_call_example =
    async_call-serve members_size (λ ms. omega arith) system skeleton 1 add (20, (22, tt)) 9 0
      (inl (λ e. absurd (omega arith))) (omega arith) (omega arith) (omega arith) (omega arith)
      (omega arith) (omega arith) (omega arith)

-- A request from elsewhere: 20 + 22, with session 5.
abbrev request_raw : List ℕ
request_raw =
    0x12 ∷ 0x34 ∷ 0 ∷ 1 ∷ 0 ∷ 0 ∷ 0 ∷ 12 ∷ 0 ∷ 7 ∷ 0 ∷ 5 ∷ 1 ∷ 0 ∷ 0 ∷ 0 ∷ 0 ∷ 20 ∷ 0 ∷ 22 ∷ []

run-serve_example :
    run members_size 50 (record system { app = serve skeleton system.app 1 add }) request_raw
    ≡ out_of_fuel
unfolding service method session payload_length interface_ver
run-serve_example =
    run-serve_never_ends members_size (λ ms. omega arith) add (omega arith) (omega arith)
      (λ (impl : ℕ) (v : Values add_request). (omega arith, tt)) (omega arith) 50 system skeleton
      request_raw (inl (λ e. absurd (omega arith))) refl (omega arith) (omega arith) (omega arith)
      refl

abbrev subscribed_system : System ℕ
subscribed_system = record system { app = subscribe system.app 0x1234 1 (listener 3) }

notify_example :
    notify members_size skeleton 2 subscribed_system 0x8001 add_response (42, tt)
    ≡ ran subscribed_system
notify_example =
    notify-subscribe members_size skeleton 1 system 0x8001 1 (listener 3) add_response (42, tt) refl
      (omega arith, omega arith) (omega arith, tt) (omega arith)
