-- ===== src/Server/Peers.antt =====
-- What a peer gets to know.
pub mod Misread
use so2_final.Base.{
  ℕ, ◌≡◌, refl, ap, ◌∙◌, none, some, List, [], ◌∷◌, ◌++◌, codes, All, err, >>=-err,
  no_network_manager,
}
use so2_final.Network.Packet.{Packet, number, get_clients}
use so2_final.Network.Channel.{Channel}
use so2_final.Network.Sockets.{Sockets}
use so2_final.Files.System.{FileSystem}
use so2_final.Device.Text.{c_string, until_zero, first_word}
use so2_final.Server.{Client, Peer, announcements, announcements_from, list_clients, answer_peer}

-- The client manager of every client is one that the program made.
abbrev pub IsMade : Client → Type 0
IsMade c = c.network ≡ none

list_clients-unaddressed :
    {S : Type 0} (c : Client) (cs : List Client) (s : S)
    → IsMade c
    → list_clients (c ∷ cs) s ≡ err no_network_manager s
unfolding list_clients
list_clients-unaddressed c cs s made = rw made

-- If the server has a client, and the first one is as the program makes it, without a network
-- manager, then a peer's `t_GET_CLIENTS` with a payload ends in an exception; nothing is sent and
-- the server is as it was.
pub answer_peer_get_clients :
    (C : Channel) (N : Sockets) (F : FileSystem) (p : Peer C N F) (packet : Packet) (text : List ℕ)
    (c : Client) (cs : List Client)
    → packet.kind ≡ number get_clients
    → packet.payload ≡ some text
    → p.server.clients ≡ c ∷ cs
    → IsMade c
    → answer_peer C N F packet p ≡ err no_network_manager p
unfolding answer_peer list_clients c_string
answer_peer_get_clients C N F p packet text c cs k e known made =
    let unaddressed : list_clients p.server.clients p ≡ err no_network_manager p =
      ap (λ l. list_clients l p) known ∙ list_clients-unaddressed c cs p made in
    rw (e, k) (>>=-err (list_clients p.server.clients) _ p unaddressed)

pub first_word_announcement :
    (rest : List ℕ)
    → first_word (until_zero (codes "CLIENT_CONNECTION " ++ rest)) ≡ codes "CLIENT_CONNECTION"
unfolding first_word until_zero
first_word_announcement rest = refl
