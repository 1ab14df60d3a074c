-- ===== src/Net/Interest/Agrees.antt =====
-- SocketControl.cpp: the flags of a client socket against the kernel's set.
use socket_message.Prelude.{
  ℕ, ◌≡◌, refl, sym, subst, ◌∙◌, List, [], ◌∷◌, Bool, true, false, not, ◌&&◌, Option, none, some,
  arith, ◌==◌, if◌then◌else◌,
}
use socket_message.Net.Interest.{
  Events, add, change, remove, Client, State, add_client_read, add_client_write, del_client_read,
  del_client_write, del_client, client_write_callback, Task, recv_task, send_task, no_task,
  event_callback, task_done,
}

-- What the flags ask for.
abbrev pub wanted : Client → Option Events
wanted c = wants c.cfd_is_read c.cfd_is_write
  where
    wants : Bool → Bool → Option Events
    wants false false = none
    wants r w = some (record { is_read = r; is_write = w })

-- The kernel waits for what the flags say, and no less or more.
abbrev pub Agrees : State → Type 0
Agrees s = s.epoll s.client.fd ≡ wanted s.client

-- The operations on the flags.
pub data Op : Type 0 where
  add_read add_write del_read del_write del_all : Op
  callback : Bool → Op
  event : Bool → Bool → Op
  done : Task → Op

unfoldable pub apply : State → Op → State
apply s add_read = add_client_read s
apply s add_write = add_client_write s
apply s del_read = del_client_read s
apply s del_write = del_client_write s
apply s del_all = del_client s
apply s (callback b) = client_write_callback s b
apply s (event r w) = (event_callback s r w).0
apply s (done t) = task_done s t

unfoldable pub apply_all : State → List Op → State
apply_all s [] = s
apply_all s (op ∷ ops) = apply_all (apply s op) ops

-- What every operation keeps: the agreement, and all other descriptors.
abbrev Keeps : State → State → Type 0
Keeps s t =
    (Agrees s → Agrees t)
    × (t.client.fd ≡ s.client.fd)
    × ((k : ℕ) → (k == s.client.fd) ≡ false → t.epoll k ≡ s.epoll k)

add_client_read-Keeps : (s : State) → Keeps s (add_client_read s)
unfolding add_client_read add change
add_client_read-Keeps s = (λ h. ground arith, ground arith, λ k ne. ground arith)

add_client_write-Keeps : (s : State) → Keeps s (add_client_write s)
unfolding add_client_write add change
add_client_write-Keeps s = (λ h. ground arith, ground arith, λ k ne. ground arith)

del_client_read-Keeps : (s : State) → Keeps s (del_client_read s)
unfolding del_client_read remove change
del_client_read-Keeps s = (λ h. ground arith, ground arith, λ k ne. ground arith)

del_client_write-Keeps : (s : State) → Keeps s (del_client_write s)
unfolding del_client_write remove change
del_client_write-Keeps s = (λ h. ground arith, ground arith, λ k ne. ground arith)

del_client-Keeps : (s : State) → Keeps s (del_client s)
unfolding del_client remove
del_client-Keeps s = (λ h. ground arith, refl, λ k ne. ground arith)

callback-Keeps : (s : State) (b : Bool) → Keeps s (client_write_callback s b)
unfolding client_write_callback
callback-Keeps s true = add_client_write-Keeps s
callback-Keeps s false = del_client_write-Keeps s

event-Keeps : (s : State) (r w : Bool) → Keeps s (event_callback s r w).0
unfolding event_callback
event-Keeps s true w = del_client_read-Keeps s
event-Keeps s false true = del_client_write-Keeps s
event-Keeps s false false = (λ h. h, refl, λ k ne. refl)

done-Keeps : (s : State) (t : Task) → Keeps s (task_done s t)
unfolding task_done
done-Keeps s recv_task = add_client_read-Keeps s
done-Keeps s send_task = add_client_write-Keeps s
done-Keeps s no_task = (λ h. h, refl, λ k ne. refl)

apply-Keeps : (s : State) (op : Op) → Keeps s (apply s op)
unfolding apply
apply-Keeps s add_read = add_client_read-Keeps s
apply-Keeps s add_write = add_client_write-Keeps s
apply-Keeps s del_read = del_client_read-Keeps s
apply-Keeps s del_write = del_client_write-Keeps s
apply-Keeps s del_all = del_client-Keeps s
apply-Keeps s (callback b) = callback-Keeps s b
apply-Keeps s (event r w) = event-Keeps s r w
apply-Keeps s (done t) = done-Keeps s t

Keeps-trans : (s t u : State) → Keeps s t → Keeps t u → Keeps s u
Keeps-trans s t u (a, b, c) (a', b', c') =
    (λ h. a' (a h), b' ∙ b, λ k ne. c' k (subst (λ fd. (k == fd) ≡ false) (sym b) ne) ∙ c k ne)

apply_all-Keeps : (s : State) (ops : List Op) → Keeps s (apply_all s ops)
unfolding apply_all
apply_all-Keeps s [] = (λ h. h, refl, λ k ne. refl)
apply_all-Keeps s (op ∷ ops) =
    Keeps-trans s (apply s op) _ (apply-Keeps s op) (apply_all-Keeps (apply s op) ops)

-- Whatever the order of EPollAddClientRead, EPollAddClientWrite, their Del siblings, EPollDelClient,
-- the write callback, Epoll4EventCallback and the ends of its tasks, the kernel waits on the client's
-- descriptor for exactly the events that m_CfdIsRead and m_CfdIsWrite say, if it did at the start, and
-- the registration of any other descriptor `k` is unchanged.
pub flags_agree :
    (s : State) (ops : List Op) (k : ℕ)
    → Agrees s
    → (k == s.client.fd) ≡ false
    → Agrees (apply_all s ops) × ((apply_all s ops).epoll k ≡ s.epoll k)
flags_agree s ops k h ne = let (a, b, c) = apply_all-Keeps s ops in (a h, c k ne)

-- While the task of an event is under way the kernel does not report that kind of event again:
-- Epoll4EventCallback takes reading, or else writing, off the flags of the descriptor, leaves the other
-- flag as it was, and queues Recv, or else Send, or nothing; and the kernel agrees with the flags, as it
-- did before.
pub event_masks :
    (s : State) (r w : Bool)
    → Agrees s
    → let (t, task) = event_callback s r w in
      (t.epoll t.client.fd ≡ wanted t.client)
      × (t.client.cfd_is_read ≡ (if r then false else s.client.cfd_is_read))
      × (t.client.cfd_is_write ≡ (if not r && w then false else s.client.cfd_is_write))
      × (task ≡ (if r then recv_task else (if w then send_task else no_task)))
unfolding event_callback del_client_read del_client_write
event_masks s r w h = ((event-Keeps s r w).0 h, ground arith, ground arith, ground arith)

pub event_callback-Agrees : (s : State) (r w : Bool) → Agrees s → Agrees (event_callback s r w).0
event_callback-Agrees s r w = (event-Keeps s r w).0

pub callback-Agrees : (s : State) (b : Bool) → Agrees s → Agrees (client_write_callback s b)
callback-Agrees s b = (callback-Keeps s b).0

pub add_write-Agrees : (s : State) → Agrees s → Agrees (add_client_write s)
add_write-Agrees s = (add_client_write-Keeps s).0

pub add_read-Agrees : (s : State) → Agrees s → Agrees (add_client_read s)
add_read-Agrees s = (add_client_read-Keeps s).0

pub del_client-Agrees : (s : State) → Agrees s → Agrees (del_client s)
del_client-Agrees s = (del_client-Keeps s).0
