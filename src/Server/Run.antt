-- ===== src/Server/Run.antt =====
-- `Server::run`: what the first packet of a new connection does.
pub mod Announce
pub mod Registry
pub mod Addresses
use so2_final.Base.{
  ℕ, Bool, Option, none, some, List, [], ◌∷◌, ◌++◌, map, length, drop, codes, ◌==◌, if◌then◌else◌,
  M, ok, err, hang, ◌>>=◌, ◌>>◌, return,
}
use so2_final.Network.Packet.{Packet, PacketType, number, client_connection}
use so2_final.Network.Channel.{Channel, send_text}
use so2_final.Network.Sockets.{Sockets}
use so2_final.Network.Setup.{Endpoint, create_and_setup_socket, accept_connection}
use so2_final.Files.System.{FileSystem}
use so2_final.ClientManager.{make_client_files}
use so2_final.Decimal.{to_string}
use so2_final.Device.Text.{c_string}
use so2_final.Server.{Server, leading, client_exists, register}

-- `peers` are the connections of `peer_connections`. `backups` are the descriptors that
-- `add_new_backup` was given, with the client. `handlers` are the clients to whose manager a
-- connection was delivered.
pub record Hub (C : Channel) (N : Sockets) (F : FileSystem) : Type 0 where
  pub server : Server
  pub files : F.State
  pub sockets : N.State
  pub peers : List C.Conn
  pub backups : List (List ℕ × Option ℕ)
  pub handlers : List (List ℕ)

-- What the loop over the peers works on: `told` are those that it has been through.
pub record Round (C : Channel) (N : Sockets) : Type 0 where
  pub sockets : N.State
  pub told : List C.Conn
  pub made : List (Option ℕ)

module _ (C : Channel) (N : Sockets) where
  -- Behind the message: the peer connects, and becomes a backup of the client.
  await_backup : C.Conn → List ℕ → Endpoint N → M (Round C N) (List ℕ)
  await_backup c message e r = elim (accept_connection N e) [
    | ok u e' ↦ ok message (record {
      sockets = e'.sockets;
      told = r.told ++ (c ∷ []);
      made = r.made ++ (e'.socket_fd ∷ []);
    })
    | err x e' ↦ err x (record r { sockets = e'.sockets; told = r.told ++ (c ∷ []) })
    | hang w ↦ hang w
  ]

  send_announcement : C.Conn → List ℕ → Endpoint N → M (Round C N) (List ℕ)
  unfolding await_backup
  send_announcement c message e r = elim (send_text C client_connection 0 message c) [
    | ok u c' ↦ await_backup c' message e r
    | err x c' ↦ err x (record r { sockets = e.sockets; told = r.told ++ (c' ∷ []) })
    | hang w ↦ hang w
  ]

  -- The body of the loop over the peers. The result is `peer_msg` behind it.
  announce_to : C.Conn → List ℕ → M (Round C N) (List ℕ)
  unfolding send_announcement
  announce_to c message r =
      elim (create_and_setup_socket N (record { sockets = r.sockets; socket_fd = none })) [
        | ok port e ↦ send_announcement c (message ++ (codes " " ++ to_string port)) e r
        | err x e ↦ err x (record r { sockets = e.sockets })
        | hang w ↦ hang w
      ]

  unfoldable pub announce_all : List C.Conn → List ℕ → M (Round C N) (Unit {0})
  unfolding announce_to
  announce_all [] message = return tt
  announce_all (c ∷ cs) message = do message' ← announce_to c message; announce_all cs message'

  module _ (F : FileSystem) where
    -- A client whose manager has been made. An exception of the loop leaves the peers that it has
    -- not come to.
    tell_peers : List ℕ → M (Hub C N F) (Unit {0})
    unfolding announce_all
    tell_peers name h =
        let start : Round C N = record { sockets = h.sockets; told = []; made = [] } in
        let hub : Round C N → List C.Conn → Hub C N F = λ r later. record {
          server = record (h.server) { clients = register leading name h.server.clients };
          files = h.files;
          sockets = r.sockets;
          peers = r.told ++ later;
          backups = h.backups ++ map (λ fd. (name, fd)) r.made;
          handlers = h.handlers;
        } in
        elim (announce_all h.peers (codes "CLIENT_CONNECTION " ++ name) start) [
          | ok u r ↦ ok tt (hub r [])
          | err x r ↦ err x (hub r (drop (length r.told) h.peers))
          | hang w ↦ hang w
        ]

    -- A client that is not known yet. No exception is caught, and that of the constructor of
    -- `ClientManager`, where the name is empty or the client's directory cannot be made, comes
    -- before the client is registered.
    unfoldable pub welcome : List ℕ → M (Hub C N F) (Unit {0})
    unfolding tell_peers
    welcome name h = elim (make_client_files F name h.files) [
      | ok f s ↦ tell_peers name (record h { files = s })
      | err x s ↦ err x (record h { files = s })
      | hang w ↦ hang w
    ]

    -- `deliverToManager`
    abbrev deliver : List ℕ → M (Hub C N F) (Unit {0})
    deliver name h = ok tt (record h { handlers = h.handlers ++ (name ∷ []) })

    serve_client : List ℕ → M (Hub C N F) (Unit {0})
    unfolding welcome
    serve_client name h = elim (client_exists name h.server.clients) [
      | some c ↦ deliver name h
      | none ↦ (do welcome name; deliver name) h
    ]

    -- The body of the loop behind `receivePacket`; `c` is the new connection.
    unfoldable pub accept_packet : C.Conn → Packet → M (Hub C N F) (Unit {0})
    unfolding serve_client
    accept_packet c p =
        if p.kind == number PacketType.client
        then (do name ← c_string p.payload; serve_client name)
        else (if p.kind == number PacketType.peer
            then (λ h. ok tt (record h { peers = h.peers ++ (c ∷ []) }))
            else return tt)

    -- The body of the loop, from the accepted connection on.
    unfoldable pub serve_connection : C.Conn → M (Hub C N F) (Unit {0})
    unfolding accept_packet
    serve_connection c h = elim (C.receive c) [
      | ok p c' ↦ accept_packet c' p h
      | err x c' ↦ err x h
      | hang w ↦ hang w
    ]

    -- The loop over the connections that are accepted, in order. An exception ends it.
    unfoldable pub run : List C.Conn → M (Hub C N F) (Unit {0})
    unfolding serve_connection
    run [] = return tt
    run (c ∷ cs) = do serve_connection c; run cs
