-- ===== src/Client/Session/Stored/Runs.antt =====
-- A client asks for its stored messages: user 7, who has one.
use socket_message.Prelude.{ℕ, true, none, some, Option, List, [], ◌∷◌}
use socket_message.Wire.Login.{serialize_get, new_get_data_msg_list}
use socket_message.Wire.Msgs.{DataMsg}
use socket_message.Server.Database.{MySql, Row, msgs_for}
use socket_message.Server.DataHandler.{Handler}
use socket_message.Client.Sdk.{Sdk, new_sdk}

-- "12", "1", "hi", "8", "7", "0", "400", "xy"
abbrev row : Row
row =
    (49 ∷ 50 ∷ [])
    ∷ (49 ∷ [])
    ∷ (104 ∷ 105 ∷ [])
    ∷ (56 ∷ [])
    ∷ (55 ∷ [])
    ∷ (48 ∷ [])
    ∷ (52 ∷ 48 ∷ 48 ∷ [])
    ∷ (120 ∷ 121 ∷ [])
    ∷ []

abbrev sql : MySql
sql = record {
  escape_string = λ s. s;
  select = λ i q. elim q [ msgs_for _ _ ↦ row ∷ [] | _ ↦ [] ];
  insert = λ r. 12;
}

abbrev server : Handler
server = record { online = []; connections = 1 ∷ []; sent = []; saved = [] }

abbrev client : Sdk
client = record new_sdk { has_data_msg_list = true }

abbrev bytes_of : Option (List ℕ) → List ℕ
bytes_of o = elim o [ some b ↦ b | none ↦ [] ]

abbrev request : List ℕ
request = bytes_of (serialize_get (new_get_data_msg_list 3 7))

abbrev stored : DataMsg
stored = record {
  head = record { data_size = 0; data_type = 205 };
  msg_id = 12;
  msg_type = 1;
  sender = 8;
  receiver = 7;
  is_group = 0;
  created_time = 400;
  msg = 104 ∷ 105 ∷ [];
  extend = 120 ∷ 121 ∷ [];
}
