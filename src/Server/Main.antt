-- ===== src/Server/Main.antt =====
-- MainControl.cpp: the start of the server, and what its callbacks join: SocketControl's packages with
-- DataHandler, DataHandler's answers with SendPackage, and closed sockets with the online users.
use socket_message.Prelude.{
  ℕ, ◌-◌, ◌≡◌, Bool, true, false, Option, none, some, List, [], ◌∷◌, ◌++◌, if◌then◌else◌, length,
  drop,
}
use socket_message.Net.Control.{Control, Notice, client_socket_close, send_package}
use socket_message.Net.Listen.{Kernel, Server, init_server}
use socket_message.Server.Online.{Entry, client_socket_state}
use socket_message.Server.Database.{MySql}
use socket_message.Server.DataHandler.{Outcome, ok, ◌>>=◌, Handler, Sent, thread_work}
use socket_message.Server.Connection.{Library, Answers, MySqlConnection, init_pool}
pub mod Joins
mod Runs

-- CONFIG_EPOLL_TIMEOUT, in milliseconds.
abbrev pub epoll_timeout : ℕ
epoll_timeout = 1000

-- Init: the database's connections, then the server's socket.
pub record Started {S : Type 0} (lib : Library S) : Type 0 where
  pub result : Bool
  pub pool : List (MySqlConnection lib)
  pub server : Server

unfoldable pub init_main :
    {S : Type 0} (lib : Library S)
    → (ℕ → Answers)
    → Kernel
    → List (MySqlConnection lib)
    → Server
    → Started lib
init_main lib answers k pool server =
    let db = init_pool lib answers pool in
    let made = init_server k epoll_timeout server in
    if db.0
    then record { result = made.0; pool = db.1; server = made.1 }
    else record { result = false; pool = db.1; server = server }

-- The callback of SetClientSocketStateCallback, for the notices that a step of SocketControl gave.
unfoldable pub notify : List Notice → List Entry → List Entry
notify [] m = m
notify (n ∷ ns) m = notify ns (client_socket_state n.cfd n.is_open m)

-- The callback of SetSendPackageCallback, whose result DataHandler does not use.
unfoldable pub accepted : Control → Option Control → Control
accepted c none = c
accepted c (some d) = d

unfoldable pub send_all : List Sent → Control → Control
send_all [] c = c
send_all (p ∷ ps) c = send_all ps (accepted c (send_package p.cfd p.block c))

pub record Main : Type 0 where
  pub control : Control
  pub handler : Handler

-- ClientSocketClose, with the state callback of the notices that it adds.
unfoldable pub main_close : ℕ → Main → Main
main_close fd m =
    let control : Control = client_socket_close fd m.control in
    record {
      control = control;
      handler = record (m.handler) {
        online = notify (drop (length m.control.notices) control.notices) m.handler.online;
      };
    }

-- A package of a client, from ThreadWork to the tasks that its answers queue.
unfoldable pub main_work : MySql → List ℕ → ℕ → ℕ → List ℕ → Main → Outcome Main
main_work sql blank now cfd bytes m = thread_work sql blank now cfd bytes m.handler >>= λ h.
    ok (record { control = send_all (drop (length m.handler.sent) h.sent) m.control; handler = h })
