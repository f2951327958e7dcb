-- ===== src/Host/Client.antt =====
-- What the command line sends to the daemon (main.go): the requests, and sendToDaemon.
pub mod Plain
pub mod Tables
pub mod Terminal
pub mod Scans
pub mod Through
pub mod Whole
pub mod Create
use aetheria.Prelude.{
  ℕ, ◌+◌, Bool, true, false, Option, none, some, List, [], ◌∷◌, ◌++◌, Bytes, codes, if◌then◌else◌,
  ltb, ◌==◌, length, same, Result, ok, err, Exec, pure, raise, ◌>>=◌, ◌>>◌,
}
use aetheria.Prelude.Int.{ℤ, pos}
use aetheria.Text.{trim_suffix}
use aetheria.Agent.Types.{PortMapping}
use aetheria.Host.Daemon.{Request, Response}
use aetheria.Host.Commands.{CreateCall}

-- The values that the commands give as `Params`
pub data Params : Type 0 where
  no_params : Params
  with_cmd with_name : Bytes → Params
  with_shell : Bytes → ℕ → ℕ → Params
  with_lines : Bytes → ℤ → Params
  with_command : Bytes → Bytes → Params
  with_create : CreateCall → Params
  with_ports : List PortMapping → Params

pub data ClientError : Type 0 where
  connect_daemon marshal_request send_daemon read_daemon token_too_long no_answer parse_answer :
      ClientError

pub data Scanned : Type 0 where
  token : Bytes → Scanned
  too_long no_token : Scanned

abbrev pub drop_cr : Bytes → Bytes
drop_cr line = trim_suffix line (b'\r' ∷ [])

-- The buffer of a bufio.Scanner, bufio.MaxScanTokenSize
abbrev pub max_token : ℕ
max_token = 65536

abbrev pub at_end : Bytes → Scanned
at_end [] = no_token
at_end (b ∷ buf) = token (drop_cr (b ∷ buf))

-- The first Scan of a bufio.Scanner with its default buffer, on all that comes until the end of the
-- connection or an error, with what its buffer holds
unfoldable pub scan_line : Bytes → Bytes → Scanned
scan_line buf [] = at_end buf
scan_line buf (b ∷ input) =
    let longer = scan_line (buf ++ b ∷ []) input in
    if b == b'\n'
    then token (drop_cr buf)
    else if ltb (length buf + 1) max_token
    then longer
    else too_long

-- net.DialTimeout, conn.Write, the bytes that come until the connection ends or the deadline is over,
-- with whether an error ended them, one conn.Read that tells whether a byte came, and conn.Close.
pub record Socket (W : Type 0) : Type 0 where
  pub dial : W → Bool × W
  pub write : Bytes → W → Bool × W
  pub receive : W → (Bytes × Bool) × W
  pub read_some : W → Bool × W
  pub close : W → W

-- `encode` and `decode` are json.Marshal of a request and json.Unmarshal of a response, and `json` is
-- the text of the parameters.
pub record ClientJson : Type 0 where
  pub json : Params → Bytes
  pub encode : Request → Option Bytes
  pub decode : Bytes → Option Response

abbrev pub new_request : ClientJson → Bytes → Params → Request
new_request codec method p = record { method = method; params = codec.json p; id = 0 }

module _ {W : Type 0} (socket : Socket W) (codec : ClientJson) where
  abbrev pub or_fail : {A : Type 0} → ClientError → Option A → Exec W ClientError A
  or_fail e none = raise e
  or_fail e (some a) = pure a

  abbrev pub sent_or_fail : Bool × W → Result ClientError (Unit {0}) × W
  sent_or_fail (true, w) = (ok tt, w)
  sent_or_fail (false, w) = (err send_daemon, w)

  abbrev pub of_scanned : Scanned → Bool → Exec W ClientError Response
  of_scanned (token line) failed = or_fail parse_answer (codec.decode line)
  of_scanned too_long failed = raise token_too_long
  of_scanned no_token true = raise read_daemon
  of_scanned no_token false = raise no_answer

  unfoldable pub read_answer : Exec W ClientError Response
  read_answer w =
      let ((input, failed), w') = socket.receive w in of_scanned (scan_line [] input) failed w'

  -- What is done over an open connection
  unfoldable pub converse : Request → Exec W ClientError Response
  converse q = do
    text ← or_fail marshal_request (codec.encode q)
    (λ w. sent_or_fail (socket.write (text ++ b'\n' ∷ []) w))
    read_answer

  abbrev pub closing : Result ClientError Response × W → Result ClientError Response × W
  closing (r, w) = (r, socket.close w)

  abbrev pub over_conn : Request → Bool × W → Result ClientError Response × W
  over_conn q (false, w) = (err connect_daemon, w)
  over_conn q (true, w) = closing (converse q w)

  -- sendToDaemon
  unfoldable pub send_to_daemon : Request → Exec W ClientError Response
  send_to_daemon q w = over_conn q (socket.dial w)
