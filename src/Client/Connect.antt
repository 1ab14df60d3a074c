-- ===== src/Client/Connect.antt =====
-- ClientSocket.cpp of the client: CreateSocket, Connect with its time limit, and the blocking mode of
-- the descriptor, over the answers of the kernel.
use socket_message.Prelude.{
  ℕ, ◌<◌, ◌^◌, ◌≡◌, ◌⊎◌, ◌↔◌, inl, inr, refl, Bool, true, false, not, ◌||◌, Option, none, some,
  ◌==◌, if◌then◌else◌, arith,
}
use socket_message.Wire.Bytes.{is_neg}
use socket_message.Net.ClientSocket.{Socket, new_socket, same}

-- What a timeout of -1 is as an `int`.
abbrev pub no_limit : ℕ
no_limit = 4294967295

-- CONFIG_SOCKET_CONNECT_TIMEOUT
abbrev pub connect_timeout : ℕ
connect_timeout = 1000

-- The answers of the kernel: the descriptor that `socket` gives, none for INVALID_SOCKET; whether
-- `fcntl` reads and sets the flags, by the mode wanted; whether `connect` returns 0; and the `int` of
-- `select`, by its time limit in milliseconds.
pub record Kernel : Type 0 where
  pub socket : Option ℕ
  pub get_flags : Bool → Bool
  pub set_flags : Bool → Bool
  pub connected : Bool
  pub select : Option ℕ → ℕ

-- `cfd` is none for INVALID_SOCKET, `is_non_block` is m_IsNonBlock, and `fd_non_block` the O_NONBLOCK
-- flag of the descriptor.
pub record Descriptor : Type 0 where
  pub cfd : Option ℕ
  pub is_non_block : Bool
  pub fd_non_block : Bool

-- The constructor, with an empty ClientInfo.
unfoldable pub new_descriptor : Descriptor
new_descriptor = record { cfd = none; is_non_block = false; fd_non_block = false }

-- SetNonBlockOperation, from the descriptor on.
unfoldable pub set_flags_of : Kernel → Bool → Option ℕ → Descriptor → Bool × Descriptor
set_flags_of k mode none d = (false, d)
set_flags_of k mode (some fd) d =
    if k.get_flags mode
    then (if k.set_flags mode then (true, record d { fd_non_block = mode }) else (false, d))
    else (false, d)

unfoldable pub set_non_block_operation : Kernel → Bool → Descriptor → Bool × Descriptor
set_non_block_operation k mode d = set_flags_of k mode d.cfd d

unfoldable pub set_non_block : Kernel → Bool → Descriptor → Bool × Descriptor
set_non_block k mode d =
    if same mode d.is_non_block
    then (true, d)
    else set_non_block_operation k mode (record d { is_non_block = mode })

-- CreateSocket; a new descriptor blocks.
unfoldable pub open_socket : Option ℕ → Option ℕ → Descriptor → Bool × Descriptor
open_socket (some fd) answer d = (true, d)
open_socket none none d = (false, d)
open_socket none (some fd) d = (true, record d { cfd = some fd; fd_non_block = false })

unfoldable pub create_socket : Kernel → Descriptor → Bool × Descriptor
create_socket k d = open_socket d.cfd k.socket d

-- `timeout == -1 ? NULL : &tm`
unfoldable pub limit_of : ℕ → Option ℕ
limit_of timeout = if timeout == no_limit then none else some timeout

-- `ret` behind the calls of `connect` and, where it did not return 0, of `select`.
unfoldable pub connect_result : Kernel → ℕ → Bool
connect_result k timeout =
    let count = k.select (limit_of timeout) in
    if k.connected then true else not (count == 0 || is_neg count)

-- Connect from the socket on.
unfoldable pub connect_socket : Kernel → ℕ → Descriptor → Bool × Descriptor
connect_socket k timeout d0 =
    let d = (set_non_block_operation k true d0).1 in
    let blocking = (set_non_block_operation k false d).1 in
    (connect_result k timeout, if d.is_non_block then d else blocking)

unfoldable pub connect : Kernel → ℕ → Descriptor → Bool × Descriptor
connect k timeout d =
    let made = create_socket k d in
    let rest = connect_socket k timeout made.1 in if made.0 then rest else (false, made.1)

-- The connected socket as the select loop has it: m_CfdIsRead is true from the start.
unfoldable pub new_client_socket : ℕ → Bool → Socket
new_client_socket fd mode = record (new_socket fd) { is_non_block = mode; cfd_is_read = true }

-- A peer that answered in time, whatever it answered.
abbrev pub Answered : Kernel → ℕ → Type 0
Answered k timeout =
    (k.connected ≡ true)
    ⊎ ((0 < k.select (limit_of timeout)) × (k.select (limit_of timeout) < 2 ^ 31))

count_cases :
    (connected : Bool) (count : ℕ)
    → ((if connected then true else not (count == 0 || is_neg count)) ≡ true)
      ↔ ((connected ≡ true) ⊎ ((0 < count) × (count < 2 ^ 31)))
count_cases true count = (λ h. inl refl, λ h. refl)
count_cases false count =
    (λ h. inr (ground arith), λ h. elim h [ inl e ↦ cc | inr e ↦ ground arith ])

connect_result-Answered :
    (k : Kernel) (timeout : ℕ) → (connect_result k timeout ≡ true) ↔ Answered k timeout
unfolding connect_result
connect_result-Answered k timeout = count_cases k.connected (k.select (limit_of timeout))

-- Connect on a new object, after SetNonBlock with either mode, where the kernel gives the descriptor
-- `fd` and `fcntl` does not fail: it returns true exactly where `connect` returned 0 or `select`
-- reported the descriptor within the limit (without looking at the error of the connection); and
-- both ways the descriptor is `fd`, in the mode that SetNonBlock asked for.
pub connect_answers :
    (k : Kernel) (timeout fd : ℕ) (mode : Bool)
    → k.socket ≡ some fd
    → ((b : Bool) → k.get_flags b ≡ true)
    → ((b : Bool) → k.set_flags b ≡ true)
    → (((connect k timeout (set_non_block k mode new_descriptor).1).0 ≡ true) ↔ Answered k timeout)
      × ((connect k timeout (set_non_block k mode new_descriptor).1).1
          ≡ record { cfd = some fd; is_non_block = mode; fd_non_block = mode })
unfolding connect create_socket open_socket connect_socket connect_result set_non_block
    set_non_block_operation set_flags_of new_descriptor
connect_answers k timeout fd true hs hg hf =
    rw (hs, hg true, hf true) (connect_result-Answered k timeout, refl)
connect_answers k timeout fd false hs hg hf =
    rw (hs, hg true, hf true, hg false, hf false) (connect_result-Answered k timeout, refl)
