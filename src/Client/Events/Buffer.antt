-- ===== src/Client/Events/Buffer.antt =====
-- The loops of `Client::handleFileThread`, over the bytes that `read` gets from inotify.
pub mod Layout
pub mod Reading
use so2_final.Base.{
  ℕ, zero, suc, ◌+◌, ◌≤◌, ◌<◌, ◌≡◌, refl, sym, ap, ◌∙◌, Bool, true, false, Option, none, some, List,
  [], ◌∷◌, ◌++◌, append_assoc, map, length, drop, take, drop-append, take-append, length-append,
  drop-drop, All, ltb, ◌==◌, if◌then◌else◌, M, ◌>>=◌, ◌>>◌, return, arith,
}
use so2_final.Network.ByteOrder.{ByteOrder}
use so2_final.Network.Wire.{slice}
use so2_final.Network.Channel.{Channel}
use so2_final.Files.System.{FileSystem}
use so2_final.Transfer.{Host}
use so2_final.Device.Text.{until_zero}
use so2_final.Client.Events.{Event, handle_events}

module _ (h : ByteOrder) where
  -- The `struct inotify_event` at the front of the bytes: `wd`, `mask`, `cookie` and `len` of four
  -- bytes each, and the name.
  pub event_at : List ℕ → Event
  event_at bytes = record {
    mask = h.load32 (slice 4 4 bytes);
    len = h.load32 (slice 12 4 bytes);
    name = until_zero (drop 16 bytes);
  }

  -- The fuel is the number of bytes, since each event takes some. The bytes are those from `i` on.
  events_loop : ℕ → List ℕ → List Event
  unfolding event_at
  events_loop fuel [] = []
  events_loop zero (b ∷ bs) = []
  events_loop (suc fuel) (b ∷ bs) =
      let e = event_at (b ∷ bs) in e ∷ events_loop fuel (drop (16 + e.len) (b ∷ bs))

  unfoldable pub events_in : List ℕ → List Event
  unfolding events_loop
  events_in bytes = events_loop (length bytes) bytes

  -- What one `read` after the other gets; `none` is a result below 0, after which the thread
  -- sleeps.
  unfoldable pub watch_changes :
      (C : Channel) (F : FileSystem) → List (Option (List ℕ)) → M (Host C F) (Unit {0})
  unfolding events_in
  watch_changes C F [] = return tt
  watch_changes C F (none ∷ reads) = watch_changes C F reads
  watch_changes C F (some bytes ∷ reads) = do
    handle_events C F (events_in bytes)
    watch_changes C F reads
