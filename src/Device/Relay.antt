-- ===== src/Device/Relay.antt =====
-- `fileWatcherThread` as a whole: what it takes from its device, it passes on.
pub mod Deletion
use so2_final.Base.{
  Silence, endless, ℕ, Bool, true, false, Option, none, some, List, [], ◌∷◌, ◌++◌, length, drop, M,
  Error, ok, err, hang, ◌>>=◌, ◌>>◌, return,
}
use so2_final.Network.Packet.{Packet}
use so2_final.Network.Channel.{Channel}
use so2_final.Files.System.{FileSystem}
use so2_final.Transfer.{Host, on_conn}
use so2_final.Device.Watcher.{client_files, watch_packet}
use so2_final.ClientManager.Spread.{Herd, handle_new_push}

-- The memory of a packet's payload, which a copy of the packet shares.
pub data Payload : Type 0 where
  live freed : Payload

-- `~packet` on a payload; to free what is freed is undefined: `none`.
destroy : Payload → Option Payload
destroy live = some freed
destroy freed = none

-- The destructors of a copy and of the packet.
destroy_both : Payload → Option Payload
unfolding destroy
destroy_both m = elim (destroy m) [ none ↦ none | some m' ↦ destroy m' ]

-- How a round ends: at the end of its body, by an exception, or in undefined behaviour where the
-- packet is destroyed; or a call in it has no result.
pub data RoundEnd (S : Type 0) : Type 0 where
  goes_on : S → RoundEnd S
  throws : Error → S → RoundEnd S
  undefined : S → RoundEnd S
  never_back : Silence → RoundEnd S

-- The thread's connection, and what it shares with the other devices of the client.
pub record Station (C : Channel) (F : FileSystem) : Type 0 where
  pub conn : C.Conn
  pub herd : Herd C F

-- The herd when `handle_new_push` is through: the backups that it has been through, and those that
-- it has not come to.
abbrev pub settled : {C : Channel} {F : FileSystem} → Herd C F → Herd C F
settled g = record g { backups = g.told ++ drop (length g.told) g.backups; told = [] }

module _ (C : Channel) (F : FileSystem) (username : List ℕ) where
  abbrev pub on_watched {ℓ} : {A : Type ℓ} → M (Host C F) A → M (Station C F) A
  on_watched call s = elim (call (record { conn = s.conn; files = s.herd.files })) [
    | ok a h ↦ ok a (record { conn = h.conn; herd = record (s.herd) { files = h.files } })
    | err e h ↦ err e (record { conn = h.conn; herd = record (s.herd) { files = h.files } })
    | hang w ↦ hang w
  ]

  abbrev pub on_herd {ℓ} : {A : Type ℓ} → M (Herd C F) A → M (Station C F) A
  on_herd call s = elim (call s.herd) [
    | ok a g ↦ ok a (record s { herd = settled g })
    | err e g ↦ err e (record s { herd = settled g })
    | hang w ↦ hang w
  ]

  -- The part of the body in front of the call of `handle_new_push`, and whether it comes to that.
  listened : ℕ → M (Station C F) (Packet × Bool)
  listened fuel = do
    p ← on_watched (on_conn C F C.receive)
    changed ← on_watched (watch_packet F username C fuel p)
    return (p, changed)

  -- `handle_new_push` takes a copy of the packet. The copy is destroyed behind the call, and the
  -- packet at the end of the body, or both by an exception. The payload is not null, since its text
  -- has been read.
  pass_on : ℕ → Packet → Station C F → RoundEnd (Station C F)
  unfolding destroy_both
  pass_on caller p s = elim (on_herd (handle_new_push C F (client_files username) p caller) s) [
    | ok u s' ↦ elim (destroy_both live) [ none ↦ undefined s' | some m ↦ goes_on s' ]
    | err e s' ↦ elim (destroy_both live) [ none ↦ undefined s' | some m ↦ throws e s' ]
    | hang w ↦ never_back w
  ]

  -- The body of the loop; `caller` is the device.
  unfoldable pub relay_round : ℕ → ℕ → Station C F → RoundEnd (Station C F)
  unfolding listened pass_on
  relay_round caller fuel s = elim (listened fuel s) [
    | ok (p, true) s' ↦ pass_on caller p s'
    | ok (p, false) s' ↦ goes_on s'
    | err e s' ↦ throws e s'
    | hang w ↦ never_back w
  ]

  -- The loop, to its end or to where the behaviour is undefined. The list is what its tests of
  -- `stop_requested` find, and `never_back` with it used up; the number bounds the packets of a
  -- file. `null_payload` is not caught, and ends the process.
  unfoldable pub file_watcher_thread : ℕ → List Bool → ℕ → Station C F → RoundEnd (Station C F)
  unfolding relay_round
  file_watcher_thread caller [] packets s = never_back endless
  file_watcher_thread caller (true ∷ stops) packets s = goes_on s
  file_watcher_thread caller (false ∷ stops) packets s = elim (relay_round caller packets s) [
    | goes_on s' ↦ file_watcher_thread caller stops packets s'
    | throws e s' ↦ throws e s'
    | undefined s' ↦ undefined s'
    | never_back w ↦ never_back w
  ]
