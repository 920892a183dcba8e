-- ===== src/Transfer.antt =====
-- A file over a connection: `sendFileInChunks` of Utils/NetworkManager.cpp, and the loops that
-- receive one in Server/ClientManager.cpp, Server/Device.cpp and Client/client.cpp.
pub mod Steps
pub mod Sending
pub mod Receiving
use so2_final.Base.{
  endless, ℕ, zero, suc, ◌+◌, ◌%◌, ◌^◌, ◌≡◌, refl, Bool, true, false, Option, none, some, List, [],
  ◌∷◌, ◌++◌, length, take, drop, codes, text_eq, ◌==◌, if◌then◌else◌, M, Result, Error, ok, err,
  hang, ◌>>=◌, ◌>>◌, return,
}
use so2_final.Network.Packet.{Packet, PacketType, number, data_chunk, end_of_file, write}
use so2_final.Network.Wire.{payload_bytes}
use so2_final.Network.Channel.{Channel, send_text, send_bare}
use so2_final.Files.System.{FileSystem}
use so2_final.Files.Manager.{FileManager, read_file, write_file}

-- What a thread works on: its connection and the files.
pub record Host (C : Channel) (F : FileSystem) : Type 0 where
  pub conn : C.Conn
  pub files : F.State

-- `try { call } catch (const std::exception &e) { log }`
abbrev pub attempt {ℓ} : {S : Type ℓ} → M S (Unit {0}) → M S (Unit {0})
attempt call s = elim (call s) [ ok a s' ↦ ok tt s' | err e s' ↦ ok tt s' | hang w ↦ hang w ]

abbrev pub next_seqn : ℕ → ℕ
next_seqn seqn = (seqn + 1) % 2 ^ 16

-- The packet's type ends the file.
abbrev pub ends_file : Packet → Bool
ends_file p = p.kind == number end_of_file

-- The payload ends the file.
abbrev pub says_end : Packet → Bool
says_end p = text_eq (payload_bytes p.payload) (codes "END_OF_FILE")

module _ (C : Channel) (F : FileSystem) where
  abbrev pub on_conn {ℓ} : {A : Type ℓ} → M C.Conn A → M (Host C F) A
  on_conn call h = elim (call h.conn) [
    | ok a c ↦ ok a (record h { conn = c })
    | err e c ↦ err e (record h { conn = c })
    | hang w ↦ hang w
  ]

  abbrev pub on_files {ℓ} : {A : Type ℓ} → M F.State A → M (Host C F) A
  on_files call h = elim (call h.files) [
    | ok a s ↦ ok a (record h { files = s })
    | err e s ↦ err e (record h { files = s })
    | hang w ↦ hang w
  ]

  -- The loop over the chunks of what is left of the file. It returns the next sequence number.
  unfoldable pub chunk_loop : ℕ → ℕ → ℕ → List ℕ → M (Host C F) ℕ
  chunk_loop fuel buffer_size seqn [] = return seqn
  chunk_loop zero buffer_size seqn (b ∷ bs) = λ h. hang endless
  chunk_loop (suc fuel) buffer_size seqn (b ∷ bs) = do
    on_conn (send_text C data_chunk seqn (take buffer_size (b ∷ bs)))
    chunk_loop fuel buffer_size (next_seqn seqn) (drop buffer_size (b ∷ bs))

  module _ (f : FileManager) where
    -- The `try` block.
    unfoldable pub send_chunks : ℕ → List ℕ → M (Host C F) (Unit {0})
    unfolding chunk_loop
    send_chunks buffer_size name = do
      bytes ← on_files (read_file F f name)
      seqn ← chunk_loop (length bytes) buffer_size 0 bytes
      on_conn (send_bare C end_of_file seqn)

    unfoldable pub send_file_in_chunks : ℕ → List ℕ → M (Host C F) (Unit {0})
    unfolding send_chunks
    send_file_in_chunks buffer_size name = attempt (send_chunks buffer_size name)

    -- A loop that receives packets and appends their payloads until a packet passes the test.
    -- The fuel bounds the packets.
    unfoldable pub receive_until : (Packet → Bool) → ℕ → List ℕ → M (Host C F) (Unit {0})
    receive_until stop zero name = λ h. hang endless
    receive_until stop (suc fuel) name = do
      p ← on_conn C.receive
      let rest = receive_until stop fuel name
      if stop p
          then return tt
          else (on_files (write_file F f name (payload_bytes p.payload)) >> rest)

    -- In `receivePushsOn` and for `download`.
    unfoldable pub receive_file : ℕ → List ℕ → M (Host C F) (Unit {0})
    unfolding receive_until
    receive_file = receive_until ends_file

    -- `Device::buildFile`
    unfoldable pub build_file : ℕ → List ℕ → M (Host C F) (Unit {0})
    unfolding receive_until
    build_file = receive_until says_end

    -- In `Client::handlePushThread`: the type tested is that of the packet before the file.
    unfoldable pub receive_push : Packet → ℕ → List ℕ → M (Host C F) (Unit {0})
    unfolding receive_until
    receive_push announced = receive_until (λ p. announced.kind == number end_of_file)
