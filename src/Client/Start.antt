-- ===== src/Client/Start.antt =====
-- The constructor of `Client`, up to where it joins the threads, and the threads that take and
-- tell changes, from their start on. The system's descriptors and files are those of the process.
pub mod Retrying
use so2_final.Base.{
  ℕ, zero, suc, Bool, Option, none, some, List, codes, ◌==◌, if◌then◌else◌, M, Result, ok, err,
  hang, ◌>>=◌, ◌>>◌, return,
}
use so2_final.Network.ByteOrder.{ByteOrder}
use so2_final.Network.Channel.{Channel}
use so2_final.Network.Sockets.{Sockets}
use so2_final.Network.Setup.{connect_to_socket, connect_manager}
use so2_final.Files.System.{FileSystem}
use so2_final.Files.Manager.{FileManager, make_file_manager}
use so2_final.Transfer.{Host}
use so2_final.Decimal.{Signed, stoi, low_bits}
use so2_final.Client.Handshake.{shake_hands}
use so2_final.Client.Pushes.{client_push_round}
use so2_final.Client.Events.Buffer.{watch_changes}

-- A thread of the process. `conn` is its connection, once there is one.
pub record Process (C : Channel) (N : Sockets) (F : FileSystem) : Type 0 where
  pub sockets : N.State
  pub files : F.State
  pub conn : Option C.Conn

-- What the constructor has set when it starts the threads.
pub record Running (C : Channel) : Type 0 where
  pub command_manager : C.Conn
  pub push_port : Signed
  pub file_watcher_port : Signed
  pub sync_dir_file_manager : FileManager
  pub curr_directory_file_manager : FileManager

-- `link` is the connection on a descriptor that is connected.
module _ (C : Channel) (N : Sockets) (F : FileSystem) (link : Option ℕ → C.Conn) where
  on_made {ℓ} : {A : Type ℓ} → M F.State A → M (Process C N F) A
  on_made call p = elim (call p.files) [
    | ok a s ↦ ok a (record p { files = s })
    | err e s ↦ err e (record p { files = s })
    | hang w ↦ hang w
  ]

  -- The constructor of `NetworkManager` that connects.
  open_manager : List ℕ → Signed → M (Process C N F) C.Conn
  open_manager ip port p =
      elim (connect_manager N ip (low_bits port)
        (record { sockets = p.sockets; socket_fd = none })) [
          | ok u e ↦
              ok (link e.socket_fd)
                (record p { sockets = e.sockets; conn = some (link e.socket_fd) })
          | err x e ↦ err x (record p { sockets = e.sockets })
          | hang w ↦ hang w
        ]

  -- A call on a connection alone.
  talk {ℓ} : {A : Type ℓ} → M C.Conn A → C.Conn → M (Process C N F) (A × C.Conn)
  talk call c p = elim (call c) [
    | ok a c' ↦ ok (a, c') (record p { conn = some c' })
    | err x c' ↦ err x (record p { conn = some c' })
    | hang w ↦ hang w
  ]

  unfoldable pub make_client : List ℕ → List ℕ → List ℕ → M (Process C N F) (Running C)
  unfolding on_made open_manager talk
  make_client client_name server_ip server_port = do
    server_port_int ← stoi server_port
    opened ← open_manager server_ip server_port_int
    ((push_port, file_watcher_port), c) ← talk (shake_hands C client_name) opened
    sync_dir ← on_made (make_file_manager F (codes "sync_dir"))
    current ← on_made (make_file_manager F (codes "./"))
    return (record {
      command_manager = c;
      push_port = push_port;
      file_watcher_port = file_watcher_port;
      sync_dir_file_manager = sync_dir;
      curr_directory_file_manager = current;
    })

  -- A thread's call on its connection and the files.
  on_thread : M (Host C F) (Unit {0}) → C.Conn → M (Process C N F) (Unit {0})
  on_thread call c p = elim (call (record { conn = c; files = p.files })) [
    | ok u s ↦ ok u (record p { files = s.files; conn = some s.conn })
    | err x s ↦ err x (record p { files = s.files; conn = some s.conn })
    | hang w ↦ hang w
  ]

  -- The loop, with a bound on its rounds and one on the packets of a file.
  push_rounds : ℕ → ℕ → M (Host C F) (Unit {0})
  push_rounds zero fuel = return tt
  push_rounds (suc rounds) fuel = do client_push_round C F fuel; push_rounds rounds fuel

  -- `handlePushThread`. Without a connection, and with one on the descriptor 0, the thread ends.
  unfoldable pub handle_push_thread : List ℕ → Signed → ℕ → ℕ → M (Process C N F) (Unit {0})
  unfolding on_thread push_rounds
  handle_push_thread server_ip push_port rounds fuel p =
      let (sock, s) = connect_to_socket N server_ip (low_bits push_port) p.sockets in
      elim sock [
        | none ↦ ok tt (record p { sockets = s })
        | some fd ↦
            if fd == 0
            then ok tt (record p { sockets = s })
            else on_thread (push_rounds rounds fuel) (link (some fd))
                (record p { sockets = s; conn = some (link (some fd)) })
      ]

  -- `handleFileThread`. Whether inotify starts and whether it watches the directory are results of
  -- the library, and so are the reads.
  unfoldable pub handle_file_thread :
      ByteOrder
      → List ℕ
      → Signed
      → Bool
      → Bool
      → List (Option (List ℕ))
      → M (Process C N F) (Unit {0})
  unfolding open_manager on_thread
  handle_file_thread h server_ip file_watcher_port starts watches reads = do
    c ← open_manager server_ip file_watcher_port
    if starts
        then (if watches then on_thread (watch_changes h C F reads) c else return tt)
        else return tt
