-- ===== src/Net/Listen/Destroys.antt =====
-- SocketControl.cpp: what the destructor leaves in the kernel's set.
use socket_message.Prelude.{
  ℕ, ◌≡◌, refl, ◌∙◌, Bool, true, false, ◌||◌, none, List, [], ◌∷◌, ◌==◌, if◌then◌else◌,
}
use socket_message.Net.Interest.{Epoll, remove}
use socket_message.Net.Control.{Client}
use socket_message.Net.Listen.{Server, remove_clients, destroy}

-- Whether the map has a client at `k`.
unfoldable pub is_client : ℕ → List Client → Bool
is_client k [] = false
is_client k (c ∷ cs) = (k == c.fd) || is_client k cs

remove_clients-at :
    (cs : List Client) (ep : Epoll) (k : ℕ)
    → remove_clients cs ep k ≡ (if is_client k cs then none else ep k)
unfolding remove_clients is_client remove
remove_clients-at [] ep k = refl
remove_clients-at (c ∷ cs) ep k =
    remove_clients-at cs (remove ep c.fd) k ∙ merge (k == c.fd) (is_client k cs)
  where
    merge :
        (here there : Bool)
        → (if there then none else (if here then none else ep k))
          ≡ (if here || there then none else ep k)
    merge true true = refl
    merge true false = refl
    merge false true = refl
    merge false false = refl

-- Behind the destructor's loop the kernel waits on no client of the map, and on what it waited on else.
pub destroy_unwatches :
    (s : Server) (k : ℕ)
    → (destroy s).epoll k ≡ (if is_client k s.control.clients then none else s.epoll k)
unfolding destroy
destroy_unwatches s k = remove_clients-at s.control.clients s.epoll k
