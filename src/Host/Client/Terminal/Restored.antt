-- ===== src/Host/Client/Terminal/Restored.antt =====
-- What `aetheria shell` leaves of the terminal (main.go): cmdShell.
use aetheria.Prelude.{
  ℕ, zero, suc, ◌≡◌, refl, Bool, true, false, Option, none, some, arith, Bytes, codes,
  if◌then◌else◌, Result, ok, err, ◌∙◌, ap, [], ◌∷◌, ◌++◌, Bool-cases, inl, inr, Preserves,
  Preserves-pure, Preserves-raise, Preserves-bind,
}
use aetheria.Host.Client.{
  Params, ClientError, Socket, ClientJson, new_request, send_to_daemon, Scanned, token, too_long,
  no_token, token_too_long, read_daemon, no_answer, parse_answer, marshal_request, scan_line,
  or_fail, sent_or_fail, of_scanned, read_answer, converse, over_conn,
}
use aetheria.Host.Daemon.{Request, Response}
use aetheria.Host.Client.Plain.{Console, eprint, die, accepted, replied, ask}
use aetheria.Host.Client.Terminal.{
  Termios, Tty, raw_of, make_raw, restore_terminal, pty_dials, or_dial, in_raw, on_stream, attach,
  shell_command,
}

-- The standard input, which is a terminal or is not: `current` is its state. Nothing but the ioctl that
-- sets the state changes it.
pub record TtyLaws {W : Type 0} (tty : Tty W) (socket : Socket W) (current : W → Termios)
    (is_tty : Bool) : Type 0 where
  pub got : (w : W) → tty.get w ≡ (if is_tty then some (current w) else none, w)
  pub set_ok : (t : Termios) (w : W) → (tty.set t w).0 ≡ is_tty
  pub set_current :
      (t : Termios) (w : W) → current (tty.set t w).1 ≡ (if is_tty then t else current w)
  pub sleeping : (w : W) → current (tty.sleep w) ≡ current w
  pub dialling : (w : W) → current (tty.dial w).1 ≡ current w
  pub writing : (c : ℕ) (s : Bytes) (w : W) → current (tty.write c s w) ≡ current w
  pub copying : (c : ℕ) (w : W) → current (tty.copy c w) ≡ current w
  pub closing : (c : ℕ) (w : W) → current (tty.close c w) ≡ current w
  pub socket_dial : (w : W) → current (socket.dial w).1 ≡ current w
  pub socket_write : (s : Bytes) (w : W) → current (socket.write s w).1 ≡ current w
  pub socket_receive : (w : W) → current (socket.receive w).1 ≡ current w
  pub socket_close : (w : W) → current (socket.close w) ≡ current w

module _ {W : Type 0} (tty : Tty W) (socket : Socket W) (codec : ClientJson)
    (text_of : ClientError → Bytes) (current : W → Termios) (is_tty : Bool)
    (laws : TtyLaws tty socket current is_tty) where
  abbrev At : Termios → W → Type 0
  At t w = current w ≡ t

  or_fail-Preserves :
      {A : Type 0} (t : Termios) (e : ClientError) (o : Option A)
      → Preserves (At t) (or_fail socket codec e o)
  or_fail-Preserves t e none = Preserves-raise e
  or_fail-Preserves t e (some a) = Preserves-pure a

  sent_or_fail-world : (r : Bool × W) → (sent_or_fail socket codec r).1 ≡ r.1
  sent_or_fail-world (true, w) = refl
  sent_or_fail-world (false, w) = refl

  of_scanned-Preserves :
      (t : Termios) (s : Scanned) (failed : Bool)
      → Preserves (At t) (of_scanned socket codec s failed)
  of_scanned-Preserves t (token line) failed = or_fail-Preserves t parse_answer (codec.decode line)
  of_scanned-Preserves t too_long failed = Preserves-raise token_too_long
  of_scanned-Preserves t no_token true = Preserves-raise read_daemon
  of_scanned-Preserves t no_token false = Preserves-raise no_answer

  read_answer-Preserves : (t : Termios) → Preserves (At t) (read_answer socket codec)
  unfolding read_answer
  read_answer-Preserves t = record {
    after = λ w h.
        let ((input, failed), w') = socket.receive w in
        (of_scanned-Preserves t (scan_line [] input) failed).after w' (laws.socket_receive w ∙ h);
  }

  converse-Preserves : (t : Termios) (q : Request) → Preserves (At t) (converse socket codec q)
  unfolding converse
  converse-Preserves t q =
      let send =
        λ (text : Bytes) (w : W). sent_or_fail socket codec (socket.write (text ++ b'\n' ∷ []) w) in
      let keeps : (text : Bytes) → Preserves (At t) (send text) = λ text. record {
        after = λ w h.
            ap current (sent_or_fail-world (socket.write (text ++ b'\n' ∷ []) w))
            ∙ laws.socket_write (text ++ b'\n' ∷ []) w
            ∙ h;
      } in
      Preserves-bind (or_fail socket codec marshal_request (codec.encode q)) _
        (or_fail-Preserves t marshal_request (codec.encode q))
        (λ text.
          Preserves-bind (send text) (λ _. read_answer socket codec) (keeps text)
            (λ _. read_answer-Preserves t))

  over_conn-Preserves :
      (t : Termios) (q : Request) (r : Bool × W) → At t r.1 → At t (over_conn socket codec q r).1
  over_conn-Preserves t q (false, w) h = h
  over_conn-Preserves t q (true, w) h =
      laws.socket_close (converse socket codec q w).1 ∙ (converse-Preserves t q).after w h

  send_to_daemon-current :
      (q : Request) (w : W) → current (send_to_daemon socket codec q w).1 ≡ current w
  unfolding send_to_daemon
  send_to_daemon-current q w =
      over_conn-Preserves (current w) q (socket.dial w) (laws.socket_dial w)

  or_dial-current :
      (again : W → Option ℕ × W) (r : Option ℕ × W) (t : Termios)
      → ((w : W) → current (again w).1 ≡ current w)
      → current r.1 ≡ t
      → current (or_dial tty again r).1 ≡ t
  or_dial-current again (none, w) t keeps h = keeps w ∙ h
  or_dial-current again (some conn, w) t keeps h = h

  pty_dials-current : (n : ℕ) (w : W) → current (pty_dials tty n w).1 ≡ current w
  unfolding pty_dials
  pty_dials-current zero w = refl
  pty_dials-current (suc n) w =
      or_dial-current (pty_dials tty n) (tty.dial (tty.sleep w)) (current w) (pty_dials-current n)
        (laws.dialling (tty.sleep w) ∙ laws.sleeping w)

  -- The part between makeRaw and the end leaves the terminal as it was before.
  in_raw-current :
      (conn : ℕ) (w : W) (c : Console W)
      → current (in_raw tty conn (make_raw tty w) c).1.world ≡ current w
  unfolding make_raw die eprint restore_terminal
  in_raw-current conn w c =
      let old = current w in
      let raw = (tty.set (raw_of old) w).1 in
      let closed = tty.close conn (tty.copy conn raw) in
      elim (Bool-cases is_tty) [
        | inl yes_tty ↦ ground (
          arith,
          laws.got w,
          laws.set_ok (raw_of old) w,
          laws.set_current old closed,
          laws.closing conn (tty.set old closed).1,
        )
        | inr no_tty ↦ ground (arith, laws.got w)
      ]

  on_stream-current :
      (name : Bytes) (r : Option ℕ × W) (c : Console W)
      → current (on_stream tty name r c).1.world ≡ current r.1
  unfolding die eprint
  on_stream-current name (none, w) c = refl
  on_stream-current name (some conn, w) c =
      in_raw-current conn (tty.write conn (name ++ codes "\n") w) c
      ∙ laws.writing conn (name ++ codes "\n") w

  attach-current :
      (name : Bytes) (c : Console W) → current (attach tty name c).1.world ≡ current c.world
  unfolding attach
  attach-current name c =
      on_stream-current name (pty_dials tty 20 c.world) c ∙ pty_dials-current 20 c.world

  accepted-world :
      (refusal : Bytes) (resp : Response) (c : Console W)
      → (accepted socket codec text_of refusal resp c).1.world ≡ c.world
  unfolding die eprint
  accepted-world refusal resp c = ground arith

  replied-world :
      (failure refusal : Bytes) (r : Result ClientError Response × W) (c : Console W)
      → (replied socket codec text_of failure refusal r c).1.world ≡ r.1
  unfolding die eprint
  replied-world failure refusal (err e, w) c = refl
  replied-world failure refusal (ok resp, w) c =
      accepted-world refusal resp (record c { world = w })

  abbrev Kept : Termios → Console W → Type 0
  Kept t c = current c.world ≡ t

  ask-Preserves :
      (t : Termios) (failure refusal method : Bytes) (p : Params)
      → Preserves (Kept t) (ask socket codec text_of failure refusal method p)
  unfolding ask
  ask-Preserves t failure refusal method p = record {
    after = λ c h.
        let q = new_request codec method p in
        ap current (replied-world failure refusal (send_to_daemon socket codec q c.world) c)
        ∙ send_to_daemon-current q c.world
        ∙ h;
  }

  -- However `aetheria shell` ends, the terminal is in the state that it was in before: the request
  -- fails or is refused, nobody answers the dials, the standard input is no terminal, or the shell
  -- has ended. Only the ioctl changes the state, and it succeeds on a terminal.
  pub shell_command-current :
      (name : Bytes) (c : Console W)
      → current (shell_command tty socket codec text_of name c).1.world ≡ current c.world
  unfolding shell_command
  shell_command-current name c =
      (Preserves-bind (ask socket codec text_of _ _ _ _) (λ _. attach tty name)
          (ask-Preserves (current c.world) _ _ _ _)
          (λ _. record { after = λ c' h. attach-current name c' ∙ h })).after
        c refl
