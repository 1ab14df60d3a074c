-- ===== src/Net/Control/Entries.antt =====
-- SocketControl.cpp: how often a descriptor stands in the map of clients and in the calls of the state
-- callback.
use socket_message.Prelude.{
  ℕ, ◌+◌, ◌≡◌, refl, Bool, none, some, List, [], ◌∷◌, ◌++◌, ◌==◌, if◌then◌else◌, length, arith,
}
use socket_message.Net.ClientSocket.{Socket}
use socket_message.Net.Control.{Client, Notice, get_client_socket, put_socket, erase_client}

-- The entries of a descriptor, and the calls of the state callback for it, of each kind.
unfoldable pub entries : ℕ → List Client → ℕ
entries k [] = 0
entries k (c ∷ cs) = (if c.fd == k then 1 else 0) + entries k cs

unfoldable pub opens : ℕ → List Notice → ℕ
opens k [] = 0
opens k (n ∷ ns) = (if n.cfd == k then (if n.is_open then 1 else 0) else 0) + opens k ns

unfoldable pub shuts : ℕ → List Notice → ℕ
shuts k [] = 0
shuts k (n ∷ ns) = (if n.cfd == k then (if n.is_open then 0 else 1) else 0) + shuts k ns

pub entries-none : (k : ℕ) (cs : List Client) → get_client_socket k cs ≡ none → entries k cs ≡ 0
unfolding entries get_client_socket
entries-none k [] h = refl
entries-none k (c ∷ cs) h = ground (arith, entries-none k cs)

pub entries-put_socket :
    (k fd : ℕ) (s : Socket) (cs : List Client) → entries k (put_socket fd s cs) ≡ entries k cs
unfolding entries put_socket
entries-put_socket k fd s [] = refl
entries-put_socket k fd s (c ∷ cs) = ground (arith, entries-put_socket k fd s cs)

pub length-put_socket :
    (fd : ℕ) (s : Socket) (cs : List Client) → length (put_socket fd s cs) ≡ length cs
unfolding put_socket
length-put_socket fd s [] = refl
length-put_socket fd s (c ∷ cs) = ground (arith, length-put_socket fd s cs)

pub entries-erase_client :
    (k fd : ℕ) (s : Socket) (cs : List Client)
    → get_client_socket fd cs ≡ some s
    → entries k (erase_client fd cs) + (if fd == k then 1 else 0) ≡ entries k cs
unfolding entries erase_client get_client_socket
entries-erase_client k fd s [] h = cc
entries-erase_client k fd s (c ∷ cs) h = ground (arith, entries-erase_client k fd s cs)

pub length-erase_client :
    (fd : ℕ) (s : Socket) (cs : List Client)
    → get_client_socket fd cs ≡ some s
    → length (erase_client fd cs) + 1 ≡ length cs
unfolding erase_client get_client_socket
length-erase_client fd s [] h = cc
length-erase_client fd s (c ∷ cs) h = ground (arith, length-erase_client fd s cs)

pub opens-append :
    (k fd : ℕ) (o : Bool) (ns : List Notice)
    → opens k (ns ++ record { cfd = fd; is_open = o } ∷ [])
      ≡ opens k ns + (if fd == k then (if o then 1 else 0) else 0)
unfolding opens
opens-append k fd o [] = omega arith
opens-append k fd o (n ∷ ns) = omega (arith, opens-append k fd o ns)

pub shuts-append :
    (k fd : ℕ) (o : Bool) (ns : List Notice)
    → shuts k (ns ++ record { cfd = fd; is_open = o } ∷ [])
      ≡ shuts k ns + (if fd == k then (if o then 0 else 1) else 0)
unfolding shuts
shuts-append k fd o [] = omega arith
shuts-append k fd o (n ∷ ns) = omega (arith, shuts-append k fd o ns)
