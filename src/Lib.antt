-- ===== src/Lib.antt =====
-- The file synchroniser: a server that keeps the directory of each client, clients with up to two
-- devices, and backup servers.
--
-- Parts, files and sources (paths from the repository's root):
--   Network: src/Utils/NetworkManager. `Network.Packet` is `packet` with `isPacketValid`;
--     `Network.Wire` is `serializePacket`, `deserializeHeader` and `deserializePacket` on byte
--     lists; `Network.Loops` has the loops over `send` and `recv`; `Network.Manager` is
--     `sendPacket` and `receivePacket` on the state `socket_fd` and `name`; `Network.Lists` is the
--     pair of functions named `list_to_packet_content`. `Network.Channel` is the interface that
--     the other parts use: packets go out and come in, in order. `Network.Channel.Socket` makes a
--     `NetworkManager` on a reliable connection such a channel. `Network.Setup` has
--     `createAndSetupSocket`, `acceptConnection`, `closeConnection`, `getIP`, `getPort`,
--     `connectTo` and `connect_to_socket`, on `socket_fd` and the sockets of the process;
--     `Network.Setup.Balance` counts them.
--   Files: src/Utils/FileManager. `Files.Manager` has the methods, `Files.Hash` has
--     `hash_file_fnv1a` on a file's bytes, `Files.Listing` has `getFiles` on the entries of a
--     directory, `Files.Manager.Uncalled` the methods that nothing calls.
--   Logger: src/Utils/logger.cpp. The queue, the sinks and the levels; `Logger.Format` is
--     `direct_sprintf`.
--   Decimal: `std::to_string`, `std::stoi` and `>>` to an `int`, with which ports are sent as
--     text.
--   Transfer: `sendFileInChunks` of src/Utils/NetworkManager.cpp, and the loops that receive a
--     file in src/Server/Device.cpp (`buildFile`), src/Server/ClientManager.cpp (`receivePushsOn`)
--     and src/Client/client.cpp (`handleIoThread`, `handlePushThread`). They are one loop with
--     different tests for its end.
--   Device: src/Server/Device.cpp. `Device.Arrival` is the constructor, `Device.Commands` is
--     `commandThread`, `Device.Watcher` is the round of `fileWatcherThread` up to its call of
--     `handle_new_push`, `Device.Mailbox` is `sendPushTo` and the round of `pushThread`, with the
--     interleavings of the two in `Device.Mailbox.Handover`, where a push begins and ends in two
--     steps so that the device can be stopped in between, and whose steps `Device.Mailbox.Rounds`
--     compares with the rounds; `Device.Relay` is `fileWatcherThread` as a whole, with
--     `handle_new_push` and the destructors of the packet and of its copy; `Device.Life` has the
--     ends of the threads, `start`, `stop` and `push_cv` as a step relation; `Device.Text` reads
--     payloads as text.
--   ClientManager: src/Server/ClientManager.cpp. The parts of `handle_new_push`, the body of the
--     loop of `receivePushsOn`, the erasure in `removeDevice`, and in `ClientManager.Limit` the
--     test of `handle_new_connection` with the interleavings of its handlers;
--     `ClientManager.Connection` is that function as a whole, with the constructor of `Device`,
--     and `removeDevice`, and `ClientManager.Spread` is `handle_new_push` and `receivePushsOn` as
--     a whole; `ClientManager.Spread.Replica` puts the leader together with a backup, over
--     sockets.
--   Server: src/Server/Server.cpp. `clientExists`, the two functions that add a client, the
--     messages to the peers in `run`, `getClients`, and the answers of `handlePeerThread`.
--     `Server.Run` is the accept loop of `run`, `Server.Join` is what a backup sends when it
--     joins, and `Server.Join.Leader` puts it together with the leader's side, over sockets.
--     `Server.Start` is the main socket, and `Server.Start.Making` the two constructors.
--   Client: src/Client/client.cpp. `Client.Start` is the constructor and the start of two of the
--     threads; `Client.Handshake` is the part of it that talks to `Device.Arrival`;
--     `Client.Commands` reads the command lines and `Client.Shell` is `handleIoThread`;
--     `Client.Events` is the dealing with events in `handleFileThread`, `Client.Events.Buffer` its
--     loops over the bytes that inotify gives, `Client.Pushes` is the round of `handlePushThread`,
--     and `Client.Turns` is the lock that these two share, as a step relation. `Client.Session`,
--     `Client.Shell.Listing`, `Client.Events.Spreading`, `Client.Events.Change`,
--     `Client.Pushes.Deletion.Delivery`, `Client.Pushes.Change` and `Client.Handshake.Ports` put
--     the client together with the server's side, over sockets.
--   Programs: src/server_main.cpp and src/client_main.cpp, up to what they start.
-- Base has the numbers, texts, lists and the result monad that all parts share; Tests has the
-- theorems at concrete inputs.
--
-- State is passed explicitly: a call is a function from a state to a result, which is a value, an
-- exception, or `hang`, for a call that has not come back or one that frees a packet's payload
-- twice, which is undefined behaviour. Each but the last has the state behind it. `Device.Relay`
-- has the state in which a round of `fileWatcherThread` meets the undefined behaviour. A thread
-- works on a `Host`: its connection and the files.
--
-- Parameters, for code outside the repository: the byte-order calls (`ByteOrder`), `send` and
-- `recv` (`Kernel`), the calls that make and close sockets (`Sockets`), and the file system
-- (`FileSystem`), with their documented behaviour as `IsByteOrder`, `IsMemory`, `IsReliable` and
-- `IsClosed`, `IsSockets`, `IsFileSystem` and `IsWilling` (no call fails for want of space or
-- permission); the copying of files by the library and the text of `getFiles` (`Copier`, with
-- `IsCopier`). `IsGenerous` says that the sockets that are asked for are made and those who are
-- told connect.
--
-- Bounds and fuel: a 16-bit length or number keeps its wrap-around. The loops over `send` and
-- `recv` run on the number of bytes that they transfer, which is enough since a round of a
-- reliable connection transfers a byte at least. The loop over chunks and the hash run on the
-- file's length, since a round takes a byte at least. A loop that receives a file or a listing
-- runs on the number of packets: one round for each packet and one more. The loop of
-- `connect_to_socket` runs on the attempts that are left. The text of a number has ten digits at
-- most, as an `int` has. A message of the log has a buffer of 4096 bytes.
--
-- Not modelled: the joining and the detaching of threads, `getLocalIP` of the server, and the
-- calls of inotify, whose results are arguments, since they only call the system's libraries; and
-- the manual tests of the repository, which test nothing of the program.
pub mod Base
pub mod Logger
pub mod Decimal
pub mod Network
pub mod Files
pub mod Transfer
pub mod Device
pub mod Client
pub mod ClientManager
pub mod Server
pub mod Programs
mod Tests
