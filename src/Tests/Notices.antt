-- ===== src/Tests/Notices.antt =====
-- The events of a client's directory, as bytes.
use so2_final.Base.{◌≡◌, none, some, List, [], ◌∷◌, codes, map, Option, inr, arith}
use so2_final.Network.ByteOrder.{little_endian, little_endian-IsMemory}
use so2_final.Network.Channel.Queue.{queue_channel}
use so2_final.Transfer.{Host}
use so2_final.Client.Events.{handle_events}
use so2_final.Client.Events.Buffer.{watch_changes}
use so2_final.Client.Events.Buffer.Layout.{Notice, IsLaidOut, read_bytes}
use so2_final.Client.Events.Buffer.Reading.{watch_changes-notices}
use so2_final.Tests.Memory.{memory, disk}

abbrev written : Notice
written = record { wd = 1; mask = 0x8; cookie = 0; name = codes "f"; zeros = 15 }

abbrev deleted : Notice
deleted = record { wd = 1; mask = 0x200; cookie = 0; name = codes "notes.txt"; zeros = 7 }

abbrev noticed : List (Option (List Notice))
noticed = some (written ∷ deleted ∷ []) ∷ none ∷ some (deleted ∷ []) ∷ []

written-IsLaidOut : IsLaidOut written
written-IsLaidOut = record {
  mask-fits = omega arith;
  room-fits = omega arith;
  unbroken = (omega arith, tt);
  closed = inr (omega arith);
}

deleted-IsLaidOut : IsLaidOut deleted
deleted-IsLaidOut = record {
  mask-fits = omega arith;
  room-fits = omega arith;
  unbroken = omega arith;
  closed = inr (omega arith);
}

abbrev watching : Host queue_channel memory
watching = record {
  conn = record { inbox = []; outbox = [] };
  files = disk (codes "sync_dir/f") (codes "new");
}

watch_changes-notices_example :
    watch_changes little_endian queue_channel memory
      (map (read_bytes little_endian little_endian-IsMemory) noticed)
      watching
    ≡ handle_events queue_channel memory
        (record { mask = 0x8; len = 16; name = codes "f" }
          ∷ record { mask = 0x200; len = 16; name = codes "notes.txt" }
          ∷ record { mask = 0x200; len = 16; name = codes "notes.txt" }
          ∷ [])
        watching
watch_changes-notices_example =
    watch_changes-notices little_endian little_endian-IsMemory queue_channel memory noticed watching
      ((written-IsLaidOut, (deleted-IsLaidOut, tt)), (tt, ((deleted-IsLaidOut, tt), tt)))
