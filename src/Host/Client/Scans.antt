-- ===== src/Host/Client/Scans.antt =====
-- How long a response of the daemon may be (main.go): the scanner of sendToDaemon.
use aetheria.Prelude.{
  ◌+◌, ◌≤◌, ◌<◌, ◌≡◌, some, [], ◌∷◌, ◌++◌, arith, Bytes, err, length, length-append, append_assoc,
  append-nil, sym, ap, Bool-cases, ltb, ltb→lt, inl, inr, true,
}
use aetheria.Text.{Lacks}
use aetheria.Host.Daemon.{Request}
use aetheria.Host.Client.{
  Socket, ClientJson, token, too_long, drop_cr, token_too_long, scan_line, read_answer, converse,
  send_to_daemon,
}

scan_line-more :
    (buf line rest : Bytes)
    → Lacks b'\n' line
    → length buf + length line < 65536
    → scan_line buf (line ++ b'\n' ∷ rest) ≡ token (drop_cr (buf ++ line))
unfolding scan_line
scan_line-more buf [] rest lacks fits = ap (λ (s : Bytes). token (drop_cr s)) (sym (append-nil buf))
scan_line-more buf (b ∷ line) rest (other, lacks) fits =
    let longer = buf ++ b ∷ [] in
    let size : length longer ≡ length buf + 1 = length-append buf (b ∷ []) in
    let next = scan_line-more longer line rest lacks (omega (arith, size, fits)) in
    ground (arith, next, append_assoc buf (b ∷ []) line, other, fits)

-- A line of less than 64 KiB is read, without its end.
pub scan_line-token :
    (line rest : Bytes)
    → Lacks b'\n' line
    → length line < 65536
    → scan_line [] (line ++ b'\n' ∷ rest) ≡ token (drop_cr line)
scan_line-token line rest lacks fits = scan_line-more [] line rest lacks (omega arith)

scan_line-full :
    (buf line rest : Bytes)
    → Lacks b'\n' line
    → 65536 ≤ length buf + length line
    → length buf < 65536
    → scan_line buf (line ++ rest) ≡ too_long
unfolding scan_line
scan_line-full buf [] rest lacks long short = ground arith
scan_line-full buf (b ∷ line) rest (other, lacks) long short =
    let longer = buf ++ b ∷ [] in
    let size : length longer ≡ length buf + 1 = length-append buf (b ∷ []) in
    elim (Bool-cases (ltb (length buf + 1) 65536)) [
      | inl room ↦
          let next =
            scan_line-full longer line rest lacks (omega (arith, size))
              (omega (arith, size, ltb→lt (length buf + 1) 65536 room)) in
          ground (arith, next, other, room)
      | inr full ↦ ground (arith, other, full)
    ]

-- Where the daemon takes a request and answers with a line of 64 KiB or more, the command gets an
-- error in place of the answer, whatever the answer says.
pub send_to_daemon-too_long :
    {W : Type 0} (socket : Socket W) (codec : ClientJson) (q : Request) (w : W)
    (text line rest : Bytes)
    → (socket.dial w).0 ≡ true
    → codec.encode q ≡ some text
    → (socket.write (text ++ b'\n' ∷ []) (socket.dial w).1).0 ≡ true
    → (socket.receive (socket.write (text ++ b'\n' ∷ []) (socket.dial w).1).1).0.0 ≡ line ++ rest
    → Lacks b'\n' line
    → 65536 ≤ length line
    → (send_to_daemon socket codec q w).0 ≡ err token_too_long
unfolding send_to_daemon converse read_answer
send_to_daemon-too_long socket codec q w text line rest up encoded sent came lacks long =
    let full = scan_line-full [] line rest lacks (omega arith) (omega arith) in ground arith
