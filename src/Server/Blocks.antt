-- ===== src/Server/Blocks.antt =====
-- The blocks that the server sends: each begins with its own size and a type that the client knows.
use socket_message.Prelude.{ℕ, ◌+◌, ◌≤◌, ◌≡◌, ◌⊎◌, some, List, length}
use socket_message.Wire.Bytes.{data_head_size}
use socket_message.Wire.Login.{
  DataHead, head_of, s2c_login, s2c_user_list, s2c_group_list, s2c_data_msg, s2c_data_msg_list,
}
pub mod Sized
pub mod Named
pub mod Sent

-- A type for which the client's RegeditDataHandler registers a handler.
abbrev pub IsServerType : ℕ → Type 0
IsServerType ty =
    (ty ≡ s2c_login)
    ⊎ ((ty ≡ s2c_user_list)
        ⊎ ((ty ≡ s2c_group_list) ⊎ ((ty ≡ s2c_data_msg) ⊎ (ty ≡ s2c_data_msg_list))))

-- A block of a type, whose DataSize is its size.
abbrev pub IsBlock : ℕ → List ℕ → Type 0
IsBlock ty block =
    (h : DataHead) × (head_of block ≡ some h)
    × (h.data_size ≡ length block)
    × (h.data_type ≡ ty)
    × (data_head_size ≤ length block)

abbrev pub IsServerBlock : List ℕ → Type 0
IsServerBlock block = (ty : ℕ) × IsServerType ty × IsBlock ty block
