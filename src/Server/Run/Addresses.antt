-- ===== src/Server/Run/Addresses.antt =====
-- The list of clients that a peer asks for, of a server on which `run` has registered them.
use so2_final.Base.{ℕ, ◌≡◌, ◌∙◌, ap, subst, some, List, ◌∷◌, All, ok, err, no_network_manager}
use so2_final.Network.Packet.{Packet, number, get_clients}
use so2_final.Network.Channel.{Channel}
use so2_final.Network.Sockets.{Sockets}
use so2_final.Files.System.{FileSystem}
use so2_final.Server.{Client, Peer, answer_peer}
use so2_final.Server.Peers.{IsMade, answer_peer_get_clients}
use so2_final.Server.Run.{Hub, run}
use so2_final.Server.Run.Registry.{IsHub, Keeps, run-IsHub}

module _ (C : Channel) (N : Sockets) (F : FileSystem) where
  -- If no username is registered twice, no client has a network manager, and every connection that
  -- was delivered and every backup that was added is for a registered client, and `run` has dealt
  -- with any connections in order and returned, and the server then has a client, then a
  -- `t_GET_CLIENTS` with a payload that a peer's thread on that server reads ends in an exception;
  -- nothing is sent to the peer, and the server is as it was.
  pub run-unaddressed :
      (cs : List C.Conn) (h h' : Hub C N F) (p : Peer C N F) (packet : Packet) (text : List ℕ)
      (c : Client) (rest : List Client)
      → IsHub C N F h
      → run C N F cs h ≡ ok tt h'
      → h'.server.clients ≡ c ∷ rest
      → p.server ≡ h'.server
      → packet.kind ≡ number get_clients
      → packet.payload ≡ some text
      → answer_peer C N F packet p ≡ err no_network_manager p
  run-unaddressed cs h h' p packet text c rest v ran known shared asks carried =
      let v' : IsHub C N F h' = subst (Keeps C N F) ran (run-IsHub C N F cs h v) in
      let made : All IsMade (c ∷ rest) = subst (All IsMade) known v'.unaddressed in
      answer_peer_get_clients C N F p packet text c rest asks carried
        (ap (λ s. s.clients) shared ∙ known) made.0
