-- ===== src/Tests/Comm.antt =====
-- include/bsomeip/comm at concrete inputs.
use bsomeip.Common.{◌≡◌, refl, true, [], ◌∷◌, ◌++◌, ◌==◌, arith}
use bsomeip.Wire.Codec.{Members, no_members, member, u16, Values}
use bsomeip.Wire.Codec.Layout.{members_size}
use bsomeip.Api.Rpc.{Attribute, System, ran, one_byte, completed, set_value}
use bsomeip.Api.Skeleton.{Skeleton}
use bsomeip.Route.Manager.Routing.{no_calls}
use bsomeip.Api.Proxy.{target}
use bsomeip.Comm.{serve_attribute, async_set, async_get}
use bsomeip.Comm.Sets.{async_set-async_get}

abbrev speed_type : Members
speed_type = member u16 no_members

-- The state is the value itself.
abbrev speed : Attribute (Values speed_type)
speed = record {
  service = 0x1234;
  event = 0x8001;
  value_type = speed_type;
  value = λ (s : Values speed_type). s;
  store = λ (s : Values speed_type) (v : Values speed_type). v;
  same_bytes = λ (u : Values speed_type) (v : Values speed_type). u.0 == v.0;
}

abbrev skeleton : Skeleton
skeleton = record { service = 0x1234; instance_id = 1 }

abbrev system : System (Values speed_type)
system = record {
  app = record {
    client = 1;
    router = record {
      registry = [];
      dispatcher = record { handlers = []; subscriptions = []; availability_handlers = [] };
    };
    discovery = record {
      config = record {
        initial_delay_min = 0;
        initial_delay_max = 3000;
        repetition_base_delay = 10;
        repetition_max = 3;
        cyclic_offer_delay = 1000;
        offer_ttl = 3;
        find_ttl = 3;
      };
      reboot_flag = true;
      offers = [];
      pending_stop_offers = [];
      finds = [];
    };
    session_counter = 1;
    pending = [];
  };
  impl = (0, tt);
  events = [];
}

abbrev served_system : System (Values speed_type)
served_system = record system { app = serve_attribute skeleton system.app speed 1 2 }

async_set_example :
    (mid : System (Values speed_type)) × (after : System (Values speed_type)) × (async_set
        members_size 2
        (target 0x1234 1)
        served_system
        2
        speed_type
        (88, tt)
        3
      ≡ ran mid)
    × (mid.impl ≡ (88, tt))
    × (async_get members_size 2 (target 0x1234 1) mid 1 speed_type 4 ≡ ran after)
    × (after.impl ≡ (88, tt))
    × (after.events
        ≡ ([] ++ completed 3 (set_value one_byte (0, tt)) ∷ [])
          ++ completed 4 (set_value speed_type (88, tt)) ∷ [])
async_set_example =
    async_set-async_get members_size (λ ms. omega arith) system skeleton speed 1 2 (88, tt) 3 4 0
      (λ s u. refl) refl (λ e. absurd (omega arith))
      (λ raw es em. no_calls system.app.router raw [] refl)
      (
        (λ e. absurd (omega arith)),
        (λ e. absurd (omega arith)),
        (λ e. absurd (omega arith)),
        (λ e. absurd (omega arith)),
        (λ e. absurd (omega arith)),
      )
      (omega arith) (omega arith, omega arith) (omega arith, tt) (omega arith, tt) (omega arith)
