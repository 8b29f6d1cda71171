-- ===== src/Lib.antt =====
-- Verification of the notification system (a small Twitter clone, src/). Clients talk to a
-- front-end, which passes their packets to the leader of a group of replicas; the leader keeps the
-- users and their notifications and sends both to the other replicas, which elect a new leader when
-- the connection to the old one is lost.
--
-- Which file models what:
--   Prelude         byte strings, integers, lists and maps, shared by all files.
--   Numbers         the decimal conversions of the C and C++ libraries that the program calls.
--   Text            src/lib/utils/string.cpp: hasPrefix, removePrefix, removeNewLine, splitFirst,
--                   split, splitByLength, joinStringVector, joinStringList.
--   Packet          src/lib/packet: Packet, serialize and deserialize, the packet types.
--   Connection      src/lib/socket/TCPConnection.cpp: receive, receiveAll and send. The socket is a
--                   record of operations with the documented behaviour of recv as its laws.
--                   Connection/Sockets is the rest of it, TCPServer.cpp and TCPClient.cpp,
--                   Connection/Datagrams is UDPSocket.cpp.
--   Queue           src/lib/Queue.hpp and src/lib/SyncAccess.hpp.
--   Streams         what is read through std::istringstream: counted texts.
--   Csv             src/lib/csv: CSVReader and CSVWriter over the content of the file.
--   Profile         src/server/profile: Session and User; Profile/Persistency and Profile/Manager
--                   are ProfilePersistency and ProfileManager.
--   Notification    src/server/notification: Notification and PendingNotification;
--                   Notification/Queues is NotificationQueue, Notification/Manager is
--                   NotificationManager, Notification/Manager/Texts its text form,
--                   Notification/Consumer is NotificationConsumer.
--   Replication     src/server/replication: ReplicaInfo and the texts that replicas exchange;
--                   Replication/Manager is ReplicaManager, Replication/Running its outer loop and
--                   its start, Replication/Handler is ReplicaHandler. Replication/Waiting is
--                   sendElection once more, step by step beside the handlers' threads.
--   Server          src/server/ConnectionHandler.cpp and src/server/routes, for one connection;
--                   Server/Clients is the threads of all connections, whose steps interleave over
--                   the shared managers, Server/Accepting is src/server/ServerHandler.cpp.
--   Client          src/client/Notification.cpp: how a client reads a notification.
--                   Client/Commands is the commands and the login of src/client/app_client.cpp,
--                   Client/Session its loop over the keys,
--                   Client/Feed is src/client/ConnectionConsumer.cpp with
--                   src/client/ui/NotificationList.cpp, Client/Input is src/client/ui/TextInput.cpp,
--                   Client/Screen is App, Window, Label and TimeoutLabel of src/client/ui, over a
--                   record of what ncurses prints and draws.
--   Providers       src/GlobalConfig.hpp, and the search for an address in connectToAnyProvider of
--                   src/client/app_client.cpp and startServerInAnyAddress of
--                   src/frontend/app_frontend.cpp.
--   Frontend        src/frontend: ClientHandler, ServerConsumer and restablishConnections;
--                   Frontend/System is their threads and main as a step relation.
--   Examples        the theorems at concrete inputs.
-- The functions keep their names, in lower case with underscores. The other files below a
-- component hold its lemmas and theorems and are named for what they are about.
--
-- How the code is represented:
--   * A std::string is the list of its bytes; a C string ends before its first NUL (c_str).
--   * An int is an integer (ℤ), an unsigned value a native number with its wrap-around written out.
--   * std::unordered_map is an association list in the order of insertion, since the order of
--     iteration is left open by the C++ library.
--   * A method that holds the mutex of its object is one step; what other threads do meanwhile is
--     an argument where a method waits.
--   * A result of type Option is none where the code throws, or does what C++ leaves undefined;
--     each definition says which.
--   * A replica writes a NUL into the byte behind each buffer in which it reads a part of an update
--     of the notifications. Whether that does no harm is an argument, spare_byte; where it does harm,
--     the result is none.
--   * What a ClientHandler does behind its loop is not under its mutex: each use of m_serverConn is
--     a step of its own there, with which the other threads interleave.
--   * The clock, the closed connections, the answers of peers and the result of the callbacks are
--     arguments. Packets that are sent are kept in a list in the order they are sent.
--
-- Fuel: split and split_by_length take the length of the text as the number of rounds, receive_loop
-- the number of missing bytes, print the number itself; each round takes away at least one (print
-- divides by ten), and the results about them are about what they return with this fuel.
--
-- Not modelled: src/lib/Thread.cpp, which only calls the system; the arithmetic of
-- src/client/ui/Vector2.cpp and the places of the windows on the screen; the functions that only
-- pass a call on to the socket or to ncurses.
pub mod Client
pub mod Connection
pub mod Csv
pub mod Examples
pub mod Frontend
pub mod Notification
pub mod Numbers
pub mod Packet
pub mod Prelude
pub mod Profile
pub mod Providers
pub mod Queue
pub mod Replication
pub mod Server
pub mod Streams
pub mod Text
