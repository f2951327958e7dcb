-- ===== src/Examples/Removals.antt =====
-- `aetheria rm` with the agent behind it. The answers that nobody has read stand in the world of the agent's
-- operating system, the last one first.
use aetheria.Prelude.{
  ℕ, ◌≡◌, refl, Bool, true, false, Option, none, some, List, [], ◌∷◌, ◌++◌, Bytes, codes, same,
  ◌==◌, if◌then◌else◌, Result, ok, err, bytes_dec, ap, arith,
}
use aetheria.Prelude.Int.{pos}
use aetheria.Agent.Types.{Error, PortMapping}
use aetheria.Agent.Os.{Os, present, exited, no_file}
use aetheria.Agent.Container.{Agent, stop, remove}
use aetheria.Agent.Lifecycle.Safety.{initial}
use aetheria.Host.Daemon.{Request, Response}
use aetheria.Host.Commands.{container_stop, container_remove}
use aetheria.Host.Commands.Removal.{error_of}
use aetheria.Host.Client.{
  Params, with_name, ClientError, ClientJson, Socket, new_request, send_to_daemon,
}
use aetheria.Host.Client.Plain.{Console}
use aetheria.Host.Client.Through.{IsLine, send_to_daemon-line}
use aetheria.Host.Client.Create.{rm_command}
use aetheria.Host.Client.Create.Parts.{send_call, error_text}
use aetheria.Host.Client.Create.Refines.{rm_command-exit}
use aetheria.Text.{trim_suffix, has_suffix}

abbrev mailing : Os
mailing = record {
  World = List Bytes;
  stat = λ path w. present 1;
  read_file = λ path w. no_file;
  read_dir = λ path w. some [];
  environ = λ w. [];
  mkdir_all = λ path w. (true, w);
  remove = λ path w. (true, w);
  remove_all = λ path w. (true, w);
  write_file = λ path b w. (true, w);
  rename = λ from to w. (true, w);
  open_append = λ path w. (true, w);
  mount = λ m w. (true, w);
  unmount = λ path w. (true, w);
  run = λ argv w. (exited (pos 0) [] [], w);
  start = λ c w. (some 7, w);
  kill = λ pid signal w. w;
}

abbrev Mail : Type 0
Mail = Agent (List Bytes)

abbrev worded : Error → Bytes
worded e = codes "e"

abbrev top : List Bytes → Bytes
top [] = []
top (x ∷ xs) = x

abbrev rest : List Bytes → List Bytes
rest [] = []
rest (x ∷ xs) = xs

abbrev with_mail : List Bytes → Mail → Mail
with_mail w a = record a { guest = record a.guest { world = w } }

abbrev but_end : Bytes → Bytes
but_end [] = []
but_end (x ∷ []) = []
but_end (x ∷ y ∷ ys) = x ∷ but_end (y ∷ ys)

but_end-append : (s : Bytes) (c : ℕ) → but_end (s ++ c ∷ []) ≡ s
but_end-append [] c = refl
but_end-append (x ∷ []) c = refl
but_end-append (x ∷ y ∷ ys) c = ap (λ (t : Bytes). x ∷ t) (but_end-append (y ∷ ys) c)

-- The first byte of a line tells the request, and what follows is the container's name.
abbrev serve : Bytes → Mail → Option Bytes × Mail
serve [] a = (some [], a)
serve (c ∷ name) a =
    if c == b's'
    then error_of mailing worded (stop mailing (but_end name) a)
    else error_of mailing worded (remove mailing (but_end name) a)

abbrev delivered : Option Bytes × Mail → Bool × Mail
delivered (none, a) = (false, a)
delivered (some e, a) = (true, with_mail (e ∷ a.guest.world) a)

abbrev socket : Socket Mail
socket = record {
  dial = λ a. (true, a);
  write = λ line a. delivered (serve line a);
  receive = λ a. ((top a.guest.world ++ b'\n' ∷ [], false), a);
  read_some = λ a. (true, a);
  close = λ a. with_mail (rest a.guest.world) a;
}

abbrev name_only : Params → Bytes
name_only (with_name n) = n
name_only p = []

abbrev codec : ClientJson
codec = record {
  json = name_only;
  encode = λ q. some ((if same q.method (codes "container.stop") then b's' else b'r') ∷ q.params);
  decode = λ line. some (record { result = []; error = line; id = pos 0 });
}

abbrev no_text : ClientError → Bytes
no_text e = []

empty-IsLine : IsLine []
unfolding trim_suffix has_suffix bytes_dec
empty-IsLine = record { one_line = tt; short = omega arith; no_cr = refl }

error-IsLine : IsLine (codes "e")
unfolding trim_suffix has_suffix bytes_dec
error-IsLine = record { one_line = ((λ e. omega arith), tt); short = omega arith; no_cr = refl }

answered :
    (q : Request) (text : Bytes) (a : Mail) (x : Result Error (Unit {0}) × Mail)
    → codec.encode q ≡ some text
    → serve (text ++ b'\n' ∷ []) a ≡ error_of mailing worded x
    → (
      error_text socket codec no_text (send_to_daemon socket codec q a).0,
      (send_to_daemon socket codec q a).1,
    )
      ≡ error_of mailing worded x
answered q text a (ok u, a') encoded served =
    let e =
      send_to_daemon-line socket codec q a a (with_mail ([] ∷ a'.guest.world) a')
        (with_mail ([] ∷ a'.guest.world) a') text [] false
        (record { result = []; error = []; id = pos 0 }) refl encoded (ap delivered served) refl
        empty-IsLine refl in
    ap (λ (x : Result ClientError Response × Mail). (error_text socket codec no_text x.0, x.1)) e
answered q text a (err e, a') encoded served =
    let run =
      send_to_daemon-line socket codec q a a (with_mail (codes "e" ∷ a'.guest.world) a')
        (with_mail (codes "e" ∷ a'.guest.world) a') text (codes "e") false
        (record { result = []; error = codes "e"; id = pos 0 }) refl encoded (ap delivered served)
        refl error-IsLine refl in
    ap (λ (x : Result ClientError Response × Mail). (error_text socket codec no_text x.0, x.1)) run

stops :
    (n : Bytes) (a : Mail)
    → send_call socket codec no_text (container_stop n) a
      ≡ error_of mailing worded (stop mailing n a)
unfolding bytes_dec
stops n a =
    answered (new_request codec (codes "container.stop") (with_name n)) (b's' ∷ n) a
      (stop mailing n a) refl
      (ap (λ (t : Bytes). error_of mailing worded (stop mailing t a)) (but_end-append n b'\n'))

removes :
    (n : Bytes) (a : Mail)
    → send_call socket codec no_text (container_remove n) a
      ≡ error_of mailing worded (remove mailing n a)
unfolding bytes_dec
removes n a =
    answered (new_request codec (codes "container.remove") (with_name n)) (b'r' ∷ n) a
      (remove mailing n a) refl
      (ap (λ (t : Bytes). error_of mailing worded (remove mailing t a)) (but_end-append n b'\n'))

abbrev nothing_listed : Bytes → Option (List (Bytes × List PortMapping))
nothing_listed s = none

abbrev at_prompt : Console Mail
at_prompt = record {
  world = initial (record {
    world = [];
    containers_dir = codes "/var/aetheria/containers";
    images_dir = codes "/mnt/host/aetheria-data/images";
    bridge_done = false;
    next_ip = 2;
    oci_image_paths = [];
    auth_tokens = [];
    sessions = [];
  });
  stdout = [];
  stderr = [];
}

rm_command-exit_example :
    (rm_command socket codec no_text nothing_listed (codes "web") at_prompt).0 ≡ err (pos 1)
rm_command-exit_example =
    rm_command-exit mailing worded socket codec no_text nothing_listed (codes "web") at_prompt stops
      removes (λ e h. cc h)
