-- ===== src/Sd/Discovery.antt =====
-- include/bsomeip/sd/discovery.hpp: the state machine of offers and finds. Times are counts of clock
-- ticks from any origin; the options of an offer are of any type `O`.
pub mod Phases
pub mod Announced
use bsomeip.Common.{
  ℕ, ◌+◌, ◌-◌, ◌*◌, ◌%◌, ◌^◌, Bool, true, false, ◌&&◌, not, List, [], ◌∷◌, ◌++◌, map, length, ltb,
  leb, ◌==◌, if◌then◌else◌,
}
use bsomeip.Sd.Entry.{SdEntry, make_find_service, make_offer_service, make_stop_offer}

pub data SdPhase : Type 0 where
  down initial_wait repetition main : SdPhase

pub record SdConfig : Type 0 where
  pub initial_delay_min : ℕ
  pub initial_delay_max : ℕ
  pub repetition_base_delay : ℕ
  pub repetition_max : ℕ
  pub cyclic_offer_delay : ℕ
  pub offer_ttl : ℕ
  pub find_ttl : ℕ

-- What the state machine moves: `phase`, `next_send` and `repetition_count` of an offer or a find.
pub record Timer : Type 0 where
  pub phase : SdPhase
  pub next_send : ℕ
  pub repetition_count : ℕ

pub record OfferState (O : Type 0) : Type 0 where
  pub service : ℕ
  pub instance_id : ℕ
  pub major_version : ℕ
  pub minor_version : ℕ
  pub options : List O
  pub timer : Timer

pub record FindState : Type 0 where
  pub service : ℕ
  pub instance_id : ℕ
  pub major_version : ℕ
  pub minor_version : ℕ
  pub timer : Timer

pub record SdMessage (O : Type 0) : Type 0 where
  pub reboot : Bool
  pub unicast : Bool
  pub entries : List SdEntry
  pub options : List O

pub record Discovery (O : Type 0) : Type 0 where
  pub config : SdConfig
  pub reboot_flag : Bool
  pub offers : List (OfferState O)
  pub pending_stop_offers : List (OfferState O)
  pub finds : List FindState

abbrev pub first_wait : SdConfig → (now : ℕ) → Timer
first_wait config now = record {
  phase = initial_wait;
  next_send = now + config.initial_delay_min;
  repetition_count = 0;
}

-- `base * (1u << (count - 1))`, a shift in 32 bits, which the language defines for counts from 1 to
-- 32; above, the bits are all shifted out here.
abbrev pub backoff : SdConfig → ℕ → ℕ
backoff config count = config.repetition_base_delay * (2 ^ (count - 1) % 2 ^ 32)

unfoldable pub advance_phase : SdConfig → Timer → (now : ℕ) → Timer
advance_phase config s now =
    let count = s.repetition_count + 1 in
    elim s.phase [
      | initial_wait ↦ record {
        phase = repetition;
        next_send = now + config.repetition_base_delay;
        repetition_count = 1;
      }
      | repetition ↦
          if leb config.repetition_max count
          then record {
            phase = main;
            next_send = now + config.cyclic_offer_delay;
            repetition_count = count;
          }
          else record {
            phase = repetition;
            next_send = now + backoff config count;
            repetition_count = count;
          }
      | main ↦ record s { next_send = now + config.cyclic_offer_delay }
      | down ↦ s
    ]

-- A find stops after its repetitions.
unfoldable pub advance_find_phase : SdConfig → Timer → (now : ℕ) → Timer
advance_find_phase config s now =
    let count = s.repetition_count + 1 in
    elim s.phase [
      | initial_wait ↦ record {
        phase = repetition;
        next_send = now + config.repetition_base_delay;
        repetition_count = 1;
      }
      | repetition ↦
          if leb config.repetition_max count
          then record { phase = down; next_send = s.next_send; repetition_count = count }
          else record {
            phase = repetition;
            next_send = now + backoff config count;
            repetition_count = count;
          }
      | main ↦ s
      | down ↦ s
    ]

-- Whether a tick sends for this timer.
abbrev pub due : Timer → (now : ℕ) → Bool
due s now = elim s.phase [ down ↦ false | _ ↦ not (ltb now s.next_send) ]

abbrev pub other_finds : List FindState → (service instance_id : ℕ) → List FindState
other_finds [] s i = []
other_finds (f ∷ finds) s i =
    let rest = other_finds finds s i in
    if f.service == s && f.instance_id == i then rest else f ∷ rest

unfoldable pub tick_finds : SdConfig → (now : ℕ) → List FindState → List SdEntry × List FindState
unfolding advance_find_phase
tick_finds config now [] = ([], [])
tick_finds config now (f ∷ finds) =
    let sends = due f.timer now in
    let (entries, later) = tick_finds config now finds in
    let entry =
      make_find_service f.service f.instance_id f.major_version f.minor_version config.find_ttl in
    (
      (if sends then entry ∷ entries else entries),
      (if sends then record f { timer = advance_find_phase config f.timer now } else f) ∷ later,
    )

module _ {O : Type 0} where
  abbrev offer_of :
      SdConfig → (service instance_id major minor : ℕ) → List O → (now : ℕ) → OfferState O
  offer_of config s i major minor options now = record {
    service = s;
    instance_id = i;
    major_version = major;
    minor_version = minor;
    options = options;
    timer = first_wait config now;
  }

  unfoldable pub start_offer :
      Discovery O → (service instance_id major minor : ℕ) → List O → (now : ℕ) → Discovery O
  start_offer d s i major minor options now = record d {
    offers = d.offers ++ offer_of d.config s i major minor options now ∷ [];
  }

  abbrev pub is_offer_of : OfferState O → (service instance_id : ℕ) → Bool
  is_offer_of o s i = o.service == s && o.instance_id == i

  -- The first offer of the service and instance, as a list, and the others.
  unfoldable pub take_offer :
      List (OfferState O) → (service instance_id : ℕ) → List (OfferState O) × List (OfferState O)
  take_offer [] s i = ([], [])
  take_offer (o ∷ offers) s i =
      let (taken, left) = take_offer offers s i in
      if is_offer_of o s i then (o ∷ [], offers) else (taken, o ∷ left)

  unfoldable pub stop_offer : Discovery O → (service instance_id : ℕ) → Discovery O
  unfolding take_offer
  stop_offer d s i =
      let (taken, left) = take_offer d.offers s i in
      record d { offers = left; pending_stop_offers = d.pending_stop_offers ++ taken }

  unfoldable pub start_find : Discovery O → (service instance_id major minor now : ℕ) → Discovery O
  start_find d s i major minor now =
      let state : FindState = record {
        service = s;
        instance_id = i;
        major_version = major;
        minor_version = minor;
        timer = first_wait d.config now;
      } in
      record d { finds = d.finds ++ state ∷ [] }

  unfoldable pub stop_find : Discovery O → (service instance_id : ℕ) → Discovery O
  stop_find d s i = record d { finds = other_finds d.finds s i }

  abbrev pub stop_entry : OfferState O → SdEntry
  stop_entry o = make_stop_offer o.service o.instance_id o.major_version o.minor_version

  -- The entry of a due offer; its options go behind the `before` options that are there.
  abbrev pub offer_entry : SdConfig → OfferState O → (before : ℕ) → SdEntry
  offer_entry config o before =
      let entry =
        make_offer_service o.service o.instance_id o.major_version o.minor_version
          config.offer_ttl in
      if length o.options == 0
      then entry
      else record entry { index_1st = before % 2 ^ 8; num_options_1st = length o.options % 2 ^ 8 }

  -- Entries, options, and the offers with their timers moved.
  unfoldable pub tick_offers :
      SdConfig
      → (now : ℕ) → List (OfferState O)
      → List O
      → List SdEntry × List O × List (OfferState O)
  unfolding advance_phase
  tick_offers config now [] options = ([], options, [])
  tick_offers config now (o ∷ offers) options =
      let sends = due o.timer now in
      let (entries, all, later) =
        tick_offers config now offers (if sends then options ++ o.options else options) in
      (
        (if sends then offer_entry config o (length options) ∷ entries else entries),
        all,
        (if sends then record o { timer = advance_phase config o.timer now } else o) ∷ later,
      )

  -- A message when there are entries.
  abbrev pub messages_of : Bool → List SdEntry → List O → List (SdMessage O)
  messages_of reboot [] options = []
  messages_of reboot (e ∷ entries) options =
      record { reboot = reboot; unicast = true; entries = e ∷ entries; options = options } ∷ []

  unfoldable pub tick : Discovery O → (now : ℕ) → List (SdMessage O) × Discovery O
  unfolding tick_offers tick_finds
  tick d now =
      let (offer_entries, options, offers) = tick_offers d.config now d.offers [] in
      let (find_entries, finds) = tick_finds d.config now d.finds in
      (
        messages_of d.reboot_flag (map stop_entry d.pending_stop_offers ++ offer_entries) options
            ++ messages_of d.reboot_flag find_entries [],
        record d { pending_stop_offers = []; offers = offers; finds = finds },
      )

  unfoldable pub set_reboot_flag : Discovery O → Bool → Discovery O
  set_reboot_flag d v = record d { reboot_flag = v }
