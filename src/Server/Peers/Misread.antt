-- ===== src/Server/Peers/Misread.antt =====
-- What a backup makes of the announcement of a client.
use so2_final.Base.{
  ℕ, ◌≤◌, ◌≡◌, refl, ap, ◌∙◌, none, List, [], ◌∷◌, ◌++◌, codes, All, ok, false, ◌==◌, arith,
}
use so2_final.Network.Packet.{number, make_packet, client_connection}
use so2_final.Network.Channel.{Channel}
use so2_final.Network.Sockets.{Sockets}
use so2_final.Files.System.{FileSystem}
use so2_final.Server.Peers.{first_word_announcement}
use so2_final.Files.Manager.{FileManager}
use so2_final.ClientManager.{make_client_files}
use so2_final.Decimal.{extract, low_bits}
use so2_final.Decimal.Extract.{extract-late}
use so2_final.Device.Text.{c_string, until_zero, first_word, behind_word}
use so2_final.Server.{
  Peer, backing, new_client, client_exists, register, announcements, announcements_from,
  answer_peer, connect_receiver, follow_client, follow_new,
}

-- The name is not empty, and starts with no space and with no byte that a number starts with.
abbrev pub StartsLate : List ℕ → Type 0
StartsLate [] = ⊥
StartsLate (b ∷ bs) = 64 ≤ b

-- The thread's state when a new client manager is made.
abbrev pub followed :
    (C : Channel) (N : Sockets) (F : FileSystem) → List ℕ → F.State → Peer C N F → Peer C N F
followed C N F username g p = record p {
  files = g;
  server = record (p.server) { clients = p.server.clients ++ (new_client backing username ∷ []) };
}

abbrev IsMisread :
    (C : Channel) (N : Sockets) (F : FileSystem) → F.State → Peer C N F → List ℕ → Type 0
IsMisread C N F g p m =
    answer_peer C N F (make_packet (number client_connection) 0 m) p
    ≡ connect_receiver C N F 0 (followed C N F (codes "CLIENT_CONNECTION") g p)

-- The port that is read in an announcement is 0.
port_read :
    (b : ℕ) (rest : List ℕ)
    → 64 ≤ b
    → low_bits (extract (behind_word (until_zero (codes "CLIENT_CONNECTION " ++ (b ∷ rest))))) ≡ 0
unfolding behind_word until_zero
port_read b rest late =
    let inside : (b == 0) ≡ false = ground arith in
    rw inside (extract-late b (until_zero rest) late)

follow_client-new :
    (C : Channel) (N : Sockets) (F : FileSystem) (p : Peer C N F) (f : FileManager) (g : F.State)
    (text : List ℕ) (b : ℕ) (bs : List ℕ) (port : ℕ)
    → first_word text ≡ b ∷ bs
    → low_bits (extract (behind_word text)) ≡ port
    → client_exists (b ∷ bs) p.server.clients ≡ none
    → make_client_files F (b ∷ bs) p.files ≡ ok f g
    → follow_client C N F text p ≡ connect_receiver C N F port (followed C N F (b ∷ bs) g p)
unfolding follow_client follow_new register
follow_client-new C N F p f g text b bs port word read new able =
    let unknown : client_exists (first_word text) p.server.clients ≡ none =
      ap (λ w. client_exists w p.server.clients) word ∙ new in
    let opened : follow_client C N F text p
        ≡ follow_new C N F (first_word text) (low_bits (extract (behind_word text))) p =
      rw (unknown, follow_client) refl in
    let kept : follow_new C N F (b ∷ bs) port p
        ≡ connect_receiver C N F port (followed C N F (b ∷ bs) g p) =
      rw (able, follow_new) (rw (new, register) refl) in
    opened
    ∙ ap (λ w. follow_new C N F w (low_bits (extract (behind_word text))) p) word
    ∙ ap (λ n. follow_new C N F (b ∷ bs) n p) read
    ∙ kept

announced-misread :
    (C : Channel) (N : Sockets) (F : FileSystem) (p : Peer C N F) (f : FileManager) (g : F.State)
    (b : ℕ) (rest : List ℕ)
    → 64 ≤ b
    → client_exists (codes "CLIENT_CONNECTION") p.server.clients ≡ none
    → make_client_files F (codes "CLIENT_CONNECTION") p.files ≡ ok f g
    → answer_peer C N F
        (make_packet (number client_connection) 0 (codes "CLIENT_CONNECTION " ++ (b ∷ rest)))
        p
      ≡ connect_receiver C N F 0 (followed C N F (codes "CLIENT_CONNECTION") g p)
unfolding answer_peer c_string make_packet
announced-misread C N F p f g b rest late new able =
    follow_client-new C N F p f g (until_zero (codes "CLIENT_CONNECTION " ++ (b ∷ rest))) _ _ 0
      (first_word_announcement (b ∷ rest)) (port_read b rest late) new able

announcements_from-IsMisread :
    (C : Channel) (N : Sockets) (F : FileSystem) (p : Peer C N F) (f : FileManager) (g : F.State)
    (b : ℕ) (rest : List ℕ) (ports : List (List ℕ))
    → 64 ≤ b
    → client_exists (codes "CLIENT_CONNECTION") p.server.clients ≡ none
    → make_client_files F (codes "CLIENT_CONNECTION") p.files ≡ ok f g
    → All
        (IsMisread C N F g p)
        (announcements_from (codes "CLIENT_CONNECTION " ++ (b ∷ rest)) ports)
unfolding announcements_from
announcements_from-IsMisread C N F p f g b rest [] late new able = tt
announcements_from-IsMisread C N F p f g b rest (port ∷ ports) late new able = (
  announced-misread C N F p f g b (rest ++ (codes " " ++ port)) late new able,
  announcements_from-IsMisread C N F p f g b (rest ++ (codes " " ++ port)) ports late new able,
)

-- If a client's name is not empty and starts with a byte of at least 64, as every letter is, the
-- backup knows no client of the name CLIENT_CONNECTION, and the constructor of that client's file
-- manager returns, then every announcement of that client, whatever the ports, is dealt with
-- alike: the backup registers a client of that name, and then tries to connect to port 0.
pub announcements-misread :
    (C : Channel) (N : Sockets) (F : FileSystem) (p : Peer C N F) (f : FileManager) (g : F.State)
    (username : List ℕ) (ports : List (List ℕ))
    → StartsLate username
    → client_exists (codes "CLIENT_CONNECTION") p.server.clients ≡ none
    → make_client_files F (codes "CLIENT_CONNECTION") p.files ≡ ok f g
    → All
        (λ m.
          answer_peer C N F (make_packet (number client_connection) 0 m) p
          ≡ connect_receiver C N F 0 (followed C N F (codes "CLIENT_CONNECTION") g p))
        (announcements username ports)
unfolding announcements
announcements-misread C N F p f g [] ports late new able = absurd late
announcements-misread C N F p f g (b ∷ rest) ports late new able =
    announcements_from-IsMisread C N F p f g b rest ports late new able
