-- ===== src/Device/Commands.antt =====
-- `Device::commandThread`: the rounds of the thread that answers a device.
pub mod Answers
use so2_final.Base.{
  Silence, endless, ℕ, zero, suc, Bool, true, false, List, [], ◌∷◌, ◌++◌, codes, if◌then◌else◌,
  ◌==◌, M, Error, null_payload, ok, err, hang, ◌>>=◌, ◌>>◌, return,
}
use so2_final.Network.Packet.{
  Packet, PacketType, number, upload, download, delete, list, file_not_found, file_found,
  data_chunk, end_of_file, max_packet_size,
}
use so2_final.Network.Channel.{Channel, send_text, send_bare}
use so2_final.Files.System.{FileSystem}
use so2_final.Files.Manager.{FileManager, is_file_exists}
use so2_final.Transfer.{Host, on_conn, send_file_in_chunks}
use so2_final.Device.Text.{c_string, first_word}

-- "NAO HÁ ARQUIVOS", in UTF-8.
abbrev no_files : List ℕ
no_files = codes "NAO H" ++ (0xc3 ∷ 0x81 ∷ codes " ARQUIVOS")

abbrev pub listing_or_notice : List ℕ → List ℕ
listing_or_notice [] = no_files
listing_or_notice (b ∷ bs) = b ∷ bs

-- How the thread ends: `disconnected` by a `std::runtime_error`, which sets `stop_requested`;
-- `terminated` with the whole process, by an exception of another class;
-- `unfinished` where the rounds are used up, or a call in it has no result.
pub data Ending (S : Type 0) : Type 0 where
  disconnected : Error → S → Ending S
  terminated : Ending S
  unfinished : Silence → Ending S

-- `list_files` is `getFiles`, whose text the file system and the locale determine.
module _ (C : Channel) (F : FileSystem) (f : FileManager) (list_files : F.State → List ℕ) where
  answer_download : List ℕ → M (Host C F) (Unit {0})
  answer_download name h =
      if is_file_exists F f name h.files
      then (do
        on_conn C F (send_bare C file_found 1)
        send_file_in_chunks C F f max_packet_size name)
          h
      else on_conn C F (send_bare C file_not_found 1) h

  answer_list : M (Host C F) (Unit {0})
  answer_list h =
      (do
        on_conn C F (send_text C data_chunk 1 (listing_or_notice (list_files h.files)))
        on_conn C F (send_bare C end_of_file 1))
        h

  -- The body of the loop behind `receivePacket`.
  unfoldable pub answer : Packet → M (Host C F) (Unit {0})
  unfolding answer_download answer_list
  answer p = do
    text ← c_string p.payload
    if p.kind == number download
        then answer_download (first_word text)
        else (if p.kind == number list then answer_list else return tt)

  -- A round: a command and its answer.
  unfoldable pub command_round : M (Host C F) (Unit {0})
  unfolding answer
  command_round = do p ← on_conn C F C.receive; answer p

  -- The loop, while no other thread stops the device. The fuel bounds the commands.
  unfoldable pub command_thread : ℕ → Host C F → Ending (Host C F)
  unfolding command_round
  command_thread zero h = unfinished endless
  command_thread (suc fuel) h = elim (command_round h) [
    | ok a h' ↦ command_thread fuel h'
    | err null_payload h' ↦ terminated
    | err e h' ↦ disconnected e h'
    | hang w ↦ unfinished w
  ]
