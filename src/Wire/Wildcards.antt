-- ===== src/Wire/Wildcards.antt =====
-- include/bsomeip/wire/constants.hpp: the identifiers that match any other.
use bsomeip.Common.{ℕ}

abbrev pub any_service : ℕ
any_service = 0xFFFF

abbrev pub any_instance : ℕ
any_instance = 0xFFFF

abbrev pub any_method : ℕ
any_method = 0xFFFF

abbrev pub any_event : ℕ
any_event = 0xFFFF

abbrev pub any_client : ℕ
any_client = 0xFFFF

abbrev pub any_eventgroup : ℕ
any_eventgroup = 0xFFFF

abbrev pub any_major : ℕ
any_major = 0xFF

abbrev pub any_minor : ℕ
any_minor = 0xFFFFFFFF
