-- ===== src/Sd/Entry.antt =====
-- include/bsomeip/sd/entry.hpp: the entries of service discovery. A type is its byte, as the cast
-- from the wire lets any byte be one. A buffer begins at the entry.
pub mod RoundTrip
use bsomeip.Common.{
  ℕ, ◌+◌, ◌*◌, ◌/◌, ◌%◌, ◌^◌, bit_and, bit_or, Bool, List, set, leb, if◌then◌else◌,
}
use bsomeip.Wire.Bytes.{byte, read_u16_be, read_u32_be, write_u16_be, write_u32_be}

abbrev pub find_service : ℕ
find_service = 0x00

abbrev pub offer_service : ℕ
offer_service = 0x01

abbrev pub subscribe_eventgroup : ℕ
subscribe_eventgroup = 0x06

abbrev pub subscribe_eventgroup_ack : ℕ
subscribe_eventgroup_ack = 0x07

abbrev pub entry_size : ℕ
entry_size = 16

abbrev pub is_service_entry : ℕ → Bool
is_service_entry t = leb t 0x02

abbrev pub is_eventgroup_entry : ℕ → Bool
is_eventgroup_entry t = leb 0x04 t

pub record SdEntry : Type 0 where
  pub entry_type : ℕ
  pub index_1st : ℕ
  pub index_2nd : ℕ
  pub num_options_1st : ℕ
  pub num_options_2nd : ℕ
  pub service : ℕ
  pub instance_id : ℕ
  pub major_version : ℕ
  pub ttl : ℕ
  pub minor_version : ℕ
  pub eventgroup : ℕ

unfoldable pub read_entry : List ℕ → SdEntry
unfolding read_u16_be read_u32_be
read_entry p =
    let t = byte p 0 in
    let opts_byte = byte p 3 in
    record {
      entry_type = t;
      index_1st = byte p 1;
      index_2nd = byte p 2;
      num_options_1st = bit_and (opts_byte / 2 ^ 4) 0x0F;
      num_options_2nd = bit_and opts_byte 0x0F;
      service = read_u16_be p 4;
      instance_id = read_u16_be p 6;
      major_version = byte p 8;
      ttl = bit_or (bit_or (byte p 9 * 2 ^ 16) (byte p 10 * 2 ^ 8)) (byte p 11);
      minor_version = if is_service_entry t then read_u32_be p 12 else 0;
      eventgroup = if is_service_entry t then 0 else read_u16_be p 14;
    }

-- The twelve bytes that all entries share.
unfoldable pub write_common : List ℕ → SdEntry → List ℕ
unfolding write_u16_be
write_common p e =
    let p = set p 0 e.entry_type in
    let p = set p 1 e.index_1st in
    let p = set p 2 e.index_2nd in
    let p = set p 3 (bit_or (e.num_options_1st * 2 ^ 4) (bit_and e.num_options_2nd 0x0F) % 2 ^ 8) in
    let p = write_u16_be p 4 e.service in
    let p = write_u16_be p 6 e.instance_id in
    let p = set p 8 e.major_version in
    let p = set p 9 (bit_and (e.ttl / 2 ^ 16) 0xFF) in
    let p = set p 10 (bit_and (e.ttl / 2 ^ 8) 0xFF) in set p 11 (bit_and e.ttl 0xFF)

unfoldable pub write_entry : List ℕ → SdEntry → List ℕ
unfolding write_common write_u16_be write_u32_be
write_entry p e =
    let p = write_common p e in
    if is_service_entry e.entry_type
    then write_u32_be p 12 e.minor_version
    else write_u16_be (set (set p 12 0) 13 0) 14 e.eventgroup

abbrev service_entry : (entry_type service instance_id major minor ttl : ℕ) → SdEntry
service_entry t s i major minor ttl = record {
  entry_type = t;
  index_1st = 0;
  index_2nd = 0;
  num_options_1st = 0;
  num_options_2nd = 0;
  service = s;
  instance_id = i;
  major_version = major;
  ttl = ttl;
  minor_version = minor;
  eventgroup = 0;
}

abbrev pub make_find_service : (service instance_id major minor ttl : ℕ) → SdEntry
make_find_service s i major minor ttl = service_entry find_service s i major minor ttl

abbrev pub make_offer_service : (service instance_id major minor ttl : ℕ) → SdEntry
make_offer_service s i major minor ttl = service_entry offer_service s i major minor ttl

abbrev pub make_stop_offer : (service instance_id major minor : ℕ) → SdEntry
make_stop_offer s i major minor = make_offer_service s i major minor 0

abbrev eventgroup_entry : (entry_type service instance_id major eventgroup ttl : ℕ) → SdEntry
eventgroup_entry t s i major eg ttl = record {
  entry_type = t;
  index_1st = 0;
  index_2nd = 0;
  num_options_1st = 0;
  num_options_2nd = 0;
  service = s;
  instance_id = i;
  major_version = major;
  ttl = ttl;
  minor_version = 0;
  eventgroup = eg;
}

abbrev pub make_subscribe : (service instance_id major eventgroup ttl : ℕ) → SdEntry
make_subscribe s i major eg ttl = eventgroup_entry subscribe_eventgroup s i major eg ttl

abbrev pub make_subscribe_ack : (service instance_id major eventgroup ttl : ℕ) → SdEntry
make_subscribe_ack s i major eg ttl = eventgroup_entry subscribe_eventgroup_ack s i major eg ttl

abbrev pub make_subscribe_nack : (service instance_id major eventgroup : ℕ) → SdEntry
make_subscribe_nack s i major eg = make_subscribe_ack s i major eg 0
