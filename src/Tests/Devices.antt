-- ===== src/Tests/Devices.antt =====
-- The theorems on the threads of a device at concrete inputs.
use so2_final.Base.{
  ℕ, ◌≡◌, refl, ◌≢◌, true, false, Option, none, some, List, [], ◌∷◌, codes, invalid_packet, ap,
  length, arith,
}
use so2_final.Network.Packet.{Packet, make_packet, is_packet_valid}
use so2_final.Network.Channel.Queue.{queue_send, queue_channel, queue_channel-IsChannel}
use so2_final.Files.System.{FilePath}
use so2_final.Files.Hash.{fnv1a}
use so2_final.Transfer.{Host}
use so2_final.Device.Watcher.{client_files}
use so2_final.Device.Commands.{command_thread, disconnected}
use so2_final.Device.Commands.Answers.{command_thread_long_listing}
use so2_final.Device.Mailbox.{Mailbox, send_push_to, push_round}
use so2_final.Device.Mailbox.Rounds.{Follows, push_round-Reach}
use so2_final.Device.Mailbox.Handover.{
  Trace, Reach, here, next, post, stop, leave, idle, ended, start, IsHandover, Reach-IsHandover,
  Reach-blocked,
}
use so2_final.Tests.Memory.{memory, disk, update}
use so2_final.Tests.Wired.{zeros}

abbrev ana : List ℕ
ana = codes "ana"

abbrev f_path : FilePath
f_path = codes "sync_dir_ana/f"

abbrev copy_path : FilePath
copy_path = codes "sync_dir_ana/copy_f"

abbrev Disk : Type 0
Disk = FilePath → Option (List ℕ)

-- The original holds "a", and the copy the given bytes.
abbrev two_files : List ℕ → Disk
two_files new = update (disk f_path (codes "a")) copy_path (some new)

hashes_differ : fnv1a (codes "a") ≢ fnv1a (codes "b")
unfolding fnv1a
hashes_differ e = absurd (omega arith)

abbrev Machine : Type 0
Machine = Host queue_channel memory

abbrev machine : List Packet → Machine
machine ps = record { conn = record { inbox = ps; outbox = [] }; files = disk f_path (codes "a") }

abbrev chunk : Packet
chunk = record { kind = 0; seqn = 0; total_size = 11; size = 1; payload = some (codes "b") }

-- The packet that `buildFile` waits for.
abbrev closing : Packet
closing = record {
  kind = 17;
  seqn = 1;
  total_size = 21;
  size = 11;
  payload = some (codes "END_OF_FILE");
}

abbrev asks : ℕ → List ℕ → Packet
asks kind text = record { kind = kind; seqn = 1; total_size = 11; size = 1; payload = some text }

-- A listing of 2049 bytes.
abbrev long_listing : Disk → List ℕ
long_listing s = 1 ∷ zeros 2048

command_thread_long_listing_example :
    (h' : Machine) × (command_thread queue_channel memory
        (client_files ana)
        long_listing
        1
        (machine (asks 16 (codes "x") ∷ []))
      ≡ disconnected invalid_packet h')
    × (h'.conn.outbox ≡ [])
command_thread_long_listing_example =
    command_thread_long_listing queue_channel queue_channel-IsChannel memory (client_files ana)
      long_listing 0 (asks 16 (codes "x")) (codes "x") (machine (asks 16 (codes "x") ∷ [])) [] []
      refl refl (omega arith) refl refl

abbrev full_mailbox : Mailbox
full_mailbox = record {
  locked = true;
  send_push = true;
  push_type = 1;
  push_command = codes "f";
  stop_requested = false;
}

abbrev posted_once : Trace
posted_once = record {
  mailbox = full_mailbox;
  posted = (1, codes "f") ∷ [];
  pushed = [];
  phase = idle;
}

reaches : Reach (start 0) posted_once
unfolding send_push_to
reaches = next here (post 1 (codes "f") full_mailbox refl)

Reach-IsHandover_example : IsHandover posted_once
Reach-IsHandover_example = Reach-IsHandover 0 reaches

-- The device has been told to stop before the command was pushed.
abbrev stuck : Trace
stuck = record posted_once {
  mailbox = record full_mailbox { stop_requested = true };
  phase = ended;
}

ends : Reach (start 0) stuck
ends = next (next reaches stop) (leave refl refl)

not_pushed : stuck.posted ≢ stuck.pushed
not_pushed e = absurd (omega (arith, ap length e))

Reach-blocked_example : send_push_to 1 (codes "g") stuck.mailbox ≡ none
Reach-blocked_example = Reach-blocked 0 ends refl not_pushed here 1 (codes "g")

abbrev pushed_machine : Machine
pushed_machine = record (machine []) {
  conn = record { inbox = []; outbox = make_packet 1 1 (codes "f") ∷ [] };
}

push_round-Reach_example :
    (u : Trace) × Reach posted_once u
    × (u.mailbox ≡ record full_mailbox { send_push = false; locked = false })
    × (u.posted ≡ posted_once.posted)
    × Follows queue_channel memory (client_files ana) posted_once (machine []) u pushed_machine
unfolding push_round queue_send is_packet_valid make_packet
push_round-Reach_example =
    push_round-Reach queue_channel memory (client_files ana) false posted_once (machine [])
      (record full_mailbox { send_push = false; locked = false }) pushed_machine refl refl
