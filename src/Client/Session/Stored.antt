-- ===== src/Client/Session/Stored.antt =====
-- A request for stored messages from SendGetDataMsgList through DataHandlerC2SGetDataMsgList to the list
-- callback of the client that asked.
use socket_message.Prelude.{ℕ, ◌+◌, ◌<◌, List}
use socket_message.Wire.Msgs.{DataMsg, new_data_msg_list, serialize_msgs}
use socket_message.Wire.Msgs.Lists.{msgs_sized, msgs_bytes}
use socket_message.Server.DataHandler.{or_fault, Sent}
use socket_message.Server.Blocks.Named.{get_data_msg_list-HasType}
use socket_message.Client.Sdk.{Sdk}
mod Runs

-- The block of the answer.
abbrev answer : List DataMsg → List ℕ
answer ms = msgs_bytes (msgs_sized (new_data_msg_list ms))
