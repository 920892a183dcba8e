-- ===== src/Server.antt =====
-- Server/Server.cpp: the list of clients, the announcement of a client to the peers, the thread
-- that serves a peer, and in the child modules `run` and a backup's constructor.
pub mod Clients
pub mod Peers
pub mod Run
pub mod Join
pub mod Start
use so2_final.Base.{
  ℕ, zero, suc, Bool, true, false, Option, none, some, List, [], ◌∷◌, ◌++◌, codes, if◌then◌else◌,
  text_eq, ◌==◌, M, Result, ok, err, hang, ◌>>=◌, ◌>>◌, return, throw, no_network_manager,
}
use so2_final.Network.Packet.{
  Packet, number, who_is_leader, leader, get_clients, clients, client_connection,
}
use so2_final.Network.Channel.{Channel, send_text}
use so2_final.Network.Lists.{encode_list}
use so2_final.Network.Sockets.{Sockets}
use so2_final.Network.Setup.{get_ip, connect_to}
use so2_final.Files.System.{FileSystem}
use so2_final.ClientManager.{make_client_files}
use so2_final.Decimal.{extract, low_bits}
use so2_final.Device.Text.{c_string, first_word, behind_word}

-- Utils/State.hpp
pub data State : Type 0 where
  leading backing : State

-- What the server uses of a `ClientManager`. `network` is the address of its `network_manager`,
-- as text; `none` is a null pointer.
pub record Client : Type 0 where
  pub username : List ℕ
  pub state : State
  pub network : Option (List ℕ × List ℕ)

pub record Server : Type 0 where
  pub state : State
  pub ip : List ℕ
  pub clients : List Client

unfoldable pub client_exists : List ℕ → List Client → Option Client
client_exists username [] = none
client_exists username (c ∷ cs) =
    if text_eq c.username username then some c else client_exists username cs

-- The constructor of `ClientManager` leaves the network manager null.
abbrev pub new_client : State → List ℕ → Client
new_client state username = record { username = username; state = state; network = none }

-- `clientExists`, and `createNewManager` or `createNewBackupClientManager` where the client is not
-- known. The username is not empty.
unfoldable pub register : State → List ℕ → List Client → List Client
register state username cs = elim (client_exists username cs) [
  | none ↦ cs ++ (new_client state username ∷ [])
  | some c ↦ cs
]

-- The messages to the peers about one client, for the ports that the sockets made for them get:
-- each message is the one before it and one more port.
unfoldable pub announcements_from : List ℕ → List (List ℕ) → List (List ℕ)
announcements_from message [] = []
announcements_from message (port ∷ ports) =
    let message' = message ++ (codes " " ++ port) in message' ∷ announcements_from message' ports

unfoldable pub announcements : List ℕ → List (List ℕ) → List (List ℕ)
unfolding announcements_from
announcements username ports = announcements_from (codes "CLIENT_CONNECTION " ++ username) ports

-- `getIp` and `getPort`
client_address : {S : Type 0} → Client → M S (List ℕ × List ℕ)
client_address c = elim c.network [ none ↦ throw no_network_manager | some a ↦ return a ]

unfoldable pub list_clients : {S : Type 0} → List Client → M S (List (List ℕ))
unfolding client_address
list_clients [] = return []
list_clients (c ∷ cs) = do
  (ip, port) ← client_address c
  rest ← list_clients cs
  return ((c.username ++ (codes " " ++ (ip ++ (codes ":" ++ port)))) ∷ rest)

-- What the thread of a peer works on. `descriptor` is the socket of its connection, `receivers`
-- are those of the clients that it follows.
pub record Peer (C : Channel) (N : Sockets) (F : FileSystem) : Type 0 where
  pub conn : C.Conn
  pub server : Server
  pub files : F.State
  pub sockets : N.State
  pub descriptor : Option ℕ
  pub receivers : List (Option ℕ)

module _ (C : Channel) (N : Sockets) (F : FileSystem) where
  abbrev pub on_peer {ℓ} : {A : Type ℓ} → M C.Conn A → M (Peer C N F) A
  on_peer call p = elim (call p.conn) [
    | ok a c ↦ ok a (record p { conn = c })
    | err e c ↦ err e (record p { conn = c })
    | hang w ↦ hang w
  ]

  tell_leader : M (Peer C N F) (Unit {0})
  tell_leader p = elim p.server.state [
    | leading ↦ on_peer (send_text C leader 0 p.server.ip) p
    | backing ↦ ok tt p
  ]

  tell_clients : M (Peer C N F) (Unit {0})
  tell_clients p =
      (do
        texts ← list_clients p.server.clients
        on_peer (send_text C clients 0 (encode_list texts)))
        p

  -- The connection for a new client's changes, to a port of the host that `getIP` tells.
  pub connect_receiver : ℕ → M (Peer C N F) (Unit {0})
  connect_receiver port p =
      elim (get_ip N (record { sockets = p.sockets; socket_fd = p.descriptor })) [
        | ok ip e ↦ elim (connect_to N ip port (record { sockets = e.sockets; socket_fd = none })) [
          | ok u e' ↦
              ok tt
                (record p { sockets = e'.sockets; receivers = p.receivers ++ (e'.socket_fd ∷ []) })
          | err x e' ↦ err x (record p { sockets = e'.sockets })
          | hang w ↦ hang w
        ]
        | err x e ↦ err x (record p { sockets = e.sockets })
        | hang w ↦ hang w
      ]

  -- A client that is not known yet. It is registered once the constructor of `ClientManager` is
  -- through, which refuses an empty name, and throws where the client's directory cannot be made.
  follow_new : List ℕ → ℕ → M (Peer C N F) (Unit {0})
  unfolding connect_receiver
  follow_new username port p = elim (make_client_files F username p.files) [
    | ok f s ↦ connect_receiver port (record p {
      files = s;
      server = record (p.server) { clients = register backing username p.server.clients };
    })
    | err x s ↦ err x (record p { files = s })
    | hang w ↦ hang w
  ]

  follow_client : List ℕ → M (Peer C N F) (Unit {0})
  unfolding follow_new
  follow_client text p = elim (client_exists (first_word text) p.server.clients) [
    | some c ↦ ok tt p
    | none ↦ follow_new (first_word text) (low_bits (extract (behind_word text))) p
  ]

  -- The answer to a packet; an exception ends the thread's loop.
  unfoldable pub answer_peer : Packet → M (Peer C N F) (Unit {0})
  unfolding tell_leader tell_clients follow_client
  answer_peer packet = do
    text ← c_string packet.payload
    if packet.kind == number who_is_leader
        then tell_leader
        else (if packet.kind == number get_clients
            then tell_clients
            else (if packet.kind == number client_connection
                then follow_client text
                else return tt))

  -- A round of the loop.
  unfoldable pub peer_round : M (Peer C N F) (Unit {0})
  unfolding answer_peer
  peer_round = do packet ← on_peer C.receive; answer_peer packet

  -- The loop of `handlePeerThread`, which an exception ends. The fuel is the number of rounds.
  unfoldable pub peer_rounds : ℕ → M (Peer C N F) (Unit {0})
  unfolding peer_round
  peer_rounds zero = return tt
  peer_rounds (suc fuel) = do peer_round; peer_rounds fuel
