-- ===== src/FileWatch/Tests.antt =====
-- Two events in UnixFileEventWatching.c, and one that is told when a watch ends, which has no
-- message.
use c_basics.Prelude.{ℕ, ◌==◌, if◌then◌else◌}
use c_basics.FileWatch.Events.{Event}

abbrev modify : Event
modify = record { mask = 2; len = 0 }

abbrev create : Event
create = record { mask = 0x100; len = 16 }

-- IN_IGNORED.
abbrev ignored : Event
ignored = record { mask = 0x8000; len = 0 }

abbrev two_events : ℕ → Event
two_events offset = if offset == 0 then create else modify

abbrev ignored_first : ℕ → Event
ignored_first offset = if offset == 0 then ignored else if offset == 16 then create else modify
