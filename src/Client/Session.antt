-- ===== src/Client/Session.antt =====
-- A download from end to end: the bytes that the server's command thread puts on its socket are
-- those that the client's `download` command reads.
use so2_final.Base.{
  ℕ, ◌^◌, ◌<◌, ◌≡◌, refl, sym, subst, Option, none, some, true, List, [], ◌∷◌, ◌++◌, codes, ok, All,
  All-append, arith,
}
use so2_final.Network.Packet.{Packet, number, data_chunk, end_of_file, file_found, download}
use so2_final.Network.Wire.{payload_bytes}
use so2_final.Network.Manager.{Platform, IsPlatform, Manager, connected}
use so2_final.Network.Channel.{IsSendable}
use so2_final.Network.Channel.Socket.{
  Carries, wires, make_packet-Carries, socket_channel, socket_channel-IsChannel, Outgoing, Incoming,
}
use so2_final.Files.System.{FileSystem, IsFileSystem, IsWilling}
use so2_final.Files.Manager.{FileManager, path}
use so2_final.Transfer.{Host, next_seqn}
use so2_final.Transfer.Sending.{IsChunking, end_packet}
use so2_final.Transfer.Receiving.{more}
use so2_final.Device.Text.{first_word, until_zero}
use so2_final.Device.Commands.{answer}
use so2_final.Device.Commands.Answers.{bare_packet, answer_download_found}
use so2_final.Client.{download_file}
use so2_final.Client.Download.{download_file_found}

pub IsChunking-Carries :
    (seqn : ℕ) (ps : List Packet) → seqn < 2 ^ 16 → IsChunking seqn ps → All Carries ps
IsChunking-Carries seqn [] h k = tt
IsChunking-Carries seqn (p ∷ ps) h k = (
  subst Carries (sym k.0)
      (make_packet-Carries (number data_chunk) seqn (payload_bytes p.payload) (omega arith) h k.1),
  IsChunking-Carries (next_seqn seqn) ps (omega arith) k.2,
)

pub end_packet-Carries : (last : ℕ) → last < 2 ^ 16 → Carries (end_packet last)
end_packet-Carries last h =
    make_packet-Carries (number end_of_file) last (codes "xxx") (omega arith) h (omega arith)

-- The packets of an answer can be read back.
answer-Carries :
    (last : ℕ) (sent : List Packet)
    → last < 2 ^ 16
    → IsChunking 0 sent
    → All Carries (bare_packet (number file_found) ∷ (sent ++ (end_packet last ∷ [])))
answer-Carries last sent h k = (
  make_packet-Carries (number file_found) 1 (codes "xxx") (omega arith) (omega arith) (omega arith),
  All-append Carries sent (end_packet last ∷ []) (IsChunking-Carries 0 sent (omega arith) k)
      (end_packet-Carries last h, tt),
)

module _ (P : Platform) (sound : IsPlatform P) where
  open sound use {up}

  pub Outgoing-open :
      (socket : Option P.kernel.Conn) (qs : List Packet)
      → Outgoing P sound socket qs
      → (c : P.kernel.Conn) × (socket ≡ some c) × (up.outgoing c ≡ wires qs)
  Outgoing-open none qs o = absurd o
  Outgoing-open (some c) qs o = (c, refl, o)

module _ (P Q : Platform) (p_sound : IsPlatform P) (q_sound : IsPlatform Q)
    (wired : List ℕ → Q.kernel.Conn)
    (reads : (bs : List ℕ) → q_sound.up.incoming (wired bs) ≡ bs) where
  -- The bytes that one host has put on its socket are, on the other, the packets that were sent.
  pub delivered :
      (socket : Option P.kernel.Conn) (out : List Packet)
      → All Carries out
      → Outgoing P p_sound socket out
      → (c : P.kernel.Conn) × (socket ≡ some c)
        × Incoming Q q_sound (some (wired (p_sound.up.outgoing c))) out
  delivered socket out carried o =
      let (c, opened, sends) = Outgoing-open P p_sound socket out o in
      (
        c,
        opened,
        (
          subst (λ t. q_sound.up.incoming (wired (p_sound.up.outgoing c)) ≡ t) sends
              (reads (p_sound.up.outgoing c)),
          carried,
        ),
      )

module _ (P Q : Platform) (p_sound : IsPlatform P) (q_sound : IsPlatform Q) (F G : FileSystem)
    (L : IsFileSystem F) (W : IsWilling F) where
  -- End to end over the sockets of two hosts with any byte orders and kernels that are reliable:
  -- if the request that `commandThread` has read is a download of a name that is its own first
  -- word and has 1 to 2048 bytes, the server can read the file, the server's connection has
  -- nothing left to read and nothing sent, and the client's connection is one on which a given
  -- list of bytes can be read and nothing has been sent, then the server's answer returns with its
  -- files as they were, and with the bytes that it has put on its socket as those to be read by
  -- the client, the client's `download` command returns after some number of rounds, and on the
  -- client's lawful and willing file system the file holds exactly the bytes of the server's.
  pub download-delivers :
      (list_files : G.State → List ℕ) (served here : FileManager) (request : Packet)
      (name bytes : List ℕ) (c : P.kernel.Conn) (server : List ℕ) (g : G.State)
      (wired : List ℕ → Q.kernel.Conn) (client : List ℕ) (s : F.State)
      → request.kind ≡ number download
      → request.payload ≡ some name
      → first_word (until_zero name) ≡ name
      → IsSendable name
      → G.read g (path served name) ≡ some bytes
      → p_sound.up.incoming c ≡ []
      → p_sound.up.outgoing c ≡ []
      → ((bs : List ℕ) → q_sound.up.incoming (wired bs) ≡ bs)
      → ((bs : List ℕ) → q_sound.up.outgoing (wired bs) ≡ [])
      → (m : Manager P) × (c' : P.kernel.Conn) × (fuel : ℕ) × (h : Host (socket_channel Q) F)
        × (answer
              (socket_channel P)
              G
              served
              list_files
              request
              (record { conn = connected P c server; files = g })
            ≡ ok tt (record { conn = m; files = g }))
        × (m.socket ≡ some c')
        × (download_file
              (socket_channel Q)
              F
              here
              fuel
              name
              (record { conn = connected Q (wired (p_sound.up.outgoing c')) client; files = s })
            ≡ ok true h)
        × (F.read h.files (path here name) ≡ some bytes)
  download-delivers list_files served here request name bytes c server g wired client s k e word
        fits found i o wi wo =
      let asked = subst (λ t. G.read g (path served t) ≡ some bytes) (sym word) found in
      let (last, sent, m, a, hl, chunked, whole, i', o') =
        answer_download_found (socket_channel P) (socket_channel-IsChannel P p_sound) G served
          list_files request name bytes (record { conn = connected P c server; files = g }) [] [] k
          e asked (i, tt) o in
      let out = bare_packet (number file_found) ∷ (sent ++ (end_packet last ∷ [])) in
      let (c', open_, arrived) =
        delivered P Q p_sound q_sound wired wi m.socket out (answer-Carries last sent hl chunked)
          o' in
      let (h, d, i'', o'', r, others) =
        download_file_found (socket_channel Q) (socket_channel-IsChannel Q q_sound) F L W here 0
          last name bytes
          (record { conn = connected Q (wired (p_sound.up.outgoing c')) client; files = s }) sent []
          [] fits chunked whole arrived (wo (p_sound.up.outgoing c')) in
      (m, c', more sent 1, h, a, open_, d, r)
