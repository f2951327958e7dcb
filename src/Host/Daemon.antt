-- ===== src/Host/Daemon.antt =====
-- The daemon's end of the connection to the agent: sendToAgent.
pub mod Answers
use aetheria.Prelude.{
  ℕ, ◌+◌, Bool, true, false, Option, none, some, List, [], ◌∷◌, ◌++◌, Bytes, if◌then◌else◌, Result,
  ok, err, Exec,
}
use aetheria.Prelude.Int.{ℤ, pos}

-- `params` is any value, given by its JSON text; `result` is raw JSON.
pub record Request : Type 0 where
  pub method : Bytes
  pub params : Bytes
  pub id : ℕ

pub record Response : Type 0 where
  pub result : Bytes
  pub error : Bytes
  pub id : ℤ

pub data SendError : Type 0 where
  not_connected marshal_request agent_write agent_read parse_response : SendError

-- The connection: a write and, with its deadline, a read up to the next newline.
pub record Wire (W : Type 0) : Type 0 where
  pub write : Bytes → W → Bool × W
  pub read_line : W → Option Bytes × W

-- `connected` is `agentConn != nil`; the counter is an int that no run exhausts.
pub record Daemon (W : Type 0) : Type 0 where
  pub connected : Bool
  pub id_counter : ℕ
  pub world : W

-- `encode` and `decode` are json.Marshal of a request and json.Unmarshal of a response.
module _ {W : Type 0} (wire : Wire W) (encode : Request → Option Bytes)
    (decode : Bytes → Option Response) where
  abbrev pub decoded : Option Response → Result SendError Response
  decoded none = err parse_response
  decoded (some r) = ok r

  abbrev pub answered : Option Bytes → Result SendError Response
  answered none = err agent_read
  answered (some line) = decoded (decode line)

  unfoldable pub exchange : Bytes → Exec W SendError Response
  exchange data_line w =
      let (written, w₁) = wire.write data_line w in
      let (line, w₂) = wire.read_line w₁ in
      if written then (answered line, w₂) else (err agent_write, w₁)

  abbrev pub send_encoded : Option Bytes → Exec (Daemon W) SendError Response
  send_encoded none d = (err marshal_request, d)
  send_encoded (some text) d =
      let (r, w) = exchange (text ++ b'\n' ∷ []) d.world in (r, record d { world = w })

  -- sendToAgent
  unfoldable pub send_to_agent : Request → Exec (Daemon W) SendError Response
  send_to_agent q d =
      let n = d.id_counter + 1 in
      if d.connected
      then send_encoded (encode (record q { id = n })) (record d { id_counter = n })
      else (err not_connected, d)
