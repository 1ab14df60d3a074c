-- ===== src/Lib.antt =====
-- socket_message: a chat server over TCP (socket_message_server), its client library
-- (socket_message_client) and an Android wrapper (socket_message_android).
--
-- The server: SocketControl accepts connections, reads packages from them and writes packages to them,
-- in a thread pool fed by epoll events. A package, a size and a body, goes to DataHandler, whose own
-- thread pool runs the handler of the body's type: a login, a message, a request for stored messages.
-- A handler asks the MySQL database over a pooled connection, and sends its answers back through
-- SocketControl. The bodies are the structs of DataType.h. Operators new and delete are a memory pool.
--
-- The client library: SocketMessageSdk passes its calls to an interface, which builds the same structs
-- and sends them through a SocketControl of its own over non-blocking sockets. One thread waits for
-- them with select, and hands the packages that come in to the callbacks that the user has set.
--
-- Prelude        shared names: Boolean tests on numbers, lists measured by native numbers, Option.
-- Wire           socket_message_server/DataType.h (the client's copy has the same structs). Bytes: memcpy,
--                int, char arrays, C strings. Login: the structs of fixed size. Counted: the head and
--                count before a list. Users, Groups, Msgs: the lists, groups and messages. The RoundTrip
--                modules and Msgs.Lists: what UnSerialize reads of what Serialize wrote.
-- Net            Framing: SocketHead and Client4ReadCallback, the packages of a stream. ClientSocket: Recv,
--                Write and Send with their buffers; the client's class has the same. Interest: EPoll.cpp
--                and the EPollAdd and EPollDel functions of SocketControl.cpp. Tasks: a read or write event
--                with its task. Loop: EpollWork and the tasks of one client in every order. Control:
--                the map of clients, SendPackage and its task, opening and closing.
--                Counters: what is counted, and ClearSendRecvCount. Listen: ServerSocket.cpp, SocketControl's
--                Init and destructor, and the event of the listening socket with its task.
-- Memory         Pool: MemoryPool.cpp. Mgr: MemoryMgr.cpp and MemoryHook.cpp.
-- Server         ThreadPool: ThreadPool.cpp, as schedules of atomic steps. Online: the map of online users
--                of DataHandler.cpp. Database: DBUser.cpp, DBGroup.cpp, DBMsg.cpp and what they use of
--                MySql.cpp. DataHandler: ThreadWork and the three handlers, with MySqlPool's Pop and
--                Push; its modules Chat, Login and Answers are about one handler each, Ends about all.
--                Blocks: the types and sizes of the blocks sent. Connection: MySql.cpp's connections and
--                transactions, and MySqlPool's set-up. Logger: Logger.hpp. Main: MainControl.cpp, the
--                start and the callbacks that join SocketControl and DataHandler.
-- Client         socket_message_client/socket_message_sdk. Connect: ClientSocket.cpp up to Connect. Select:
--                Select.cpp, a round of Work in the order of its calls. Control: SocketControl.cpp. Sdk:
--                SocketMessageSdkInterface.cpp, the Send functions; its module Dispatch has the packages of
--                the server with the five handlers. Manage: SocketMessageSdk.cpp and the map of its objects.
--                Session: client and server together: a login, a message to others, and stored messages.
-- The modules named Runs apply the properties to concrete inputs.
--
-- Conventions. A 32-bit int is its bit pattern below 2 ^ 32; a negative one is 2 ^ 31 or more. A byte is a
-- number below 256. Option's none, Result's err and Outcome's faults stand for what C++ does not define
-- or return from: an access outside a buffer, a failed `new char[]`, an exception. Uninitialised memory
-- is an argument. The answers of the kernel (recv, send, accept, connect, select, epoll) and of the
-- MySQL server are arguments, as records named Kernel or Answers; its client library is the record
-- Library. IsTransactional states what is relied on of its transactions: of calls that succeed, and of
-- SELECT and INSERT statements alone, since others may end a transaction by themselves.
-- Fuel: the package loop has one round more than the buffer has bytes; each round eats a head of four
-- bytes, so the fuel is enough. All other loops are structural, over a list or a count.
--
-- Not modelled: EPoll's creation and edge-triggering (EPOLLET), which only the kernel gives a meaning; the
-- joins and deletes of the destructors of SocketControl and Select; Logger's file;
-- Main.cpp and MainControl's monitor, which print; the console client and the Android wrapper (JNI).
-- Threads are modelled in ThreadPool, Logger and Loop; a handler's other calls run alone, as their
-- mutexes have it for the shared maps. In Client, a call of the user's thread stands between two rounds
-- of the select thread, but for Client.Control.Unwatched, where it stands within one. Main takes the
-- answers of a package to SocketControl when its handler has ended.
pub mod Prelude
pub mod Wire
pub mod Net
pub mod Memory
pub mod Server
pub mod Client
