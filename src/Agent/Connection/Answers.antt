-- ===== src/Agent/Connection/Answers.antt =====
-- What the agent answers over a connection (main.go).
use aetheria.Prelude.{
  ℕ, ◌≡◌, refl, Bool, true, false, Option, none, some, List, [], ◌∷◌, ◌++◌, Bytes, codes,
  if◌then◌else◌, same, err, Exec, ◌∙◌, ap, sym, arith,
}
use aetheria.Prelude.Int.{ℤ, pos}
use aetheria.Agent.Types.{ContainerConfig, Error, invalid_json, panicked}
use aetheria.Agent.Os.{Os, Guest}
use aetheria.Agent.Container.{Agent}
use aetheria.Agent.PortForward.{Sockets}
use aetheria.Agent.Lifecycle.{Reach, here, later}
use aetheria.Agent.Rpc.{Codec, Request, Response, Services, dispatch}
use aetheria.Agent.Rpc.Steps.{Numbered, handle_request-Reach}
use aetheria.Agent.Connection.{
  answer, line_of, send_response, written_of, go_on, serve_line, handle_connection,
}

-- json.Marshal writes every response of the agent, and the number can be read back from the line.
abbrev pub Encodes : (Response → Option Bytes) → (Bytes → Option ℤ) → Type 0
Encodes marshal read_id =
    (r : Response)
    → (text : Bytes) × (marshal r ≡ some text) × (read_id (text ++ codes "\n") ≡ some r.id)

abbrev pub number : Option Request → ℤ
number none = pos 0
number (some q) = q.id

-- The numbers of the requests among the lines; an empty line is none, and other lines have the number 0.
unfoldable pub asked : (Bytes → Option Request) → List Bytes → List (Option ℤ)
asked unmarshal [] = []
asked unmarshal (line ∷ lines) =
    let rest = asked unmarshal lines in
    if same line [] then rest else some (number (unmarshal line)) ∷ rest

unfoldable pub numbers : (Bytes → Option ℤ) → List Bytes → List (Option ℤ)
numbers read_id [] = []
numbers read_id (text ∷ texts) = read_id text ∷ numbers read_id texts

send_response-number :
    (marshal : Response → Option Bytes) (read_id : Bytes → Option ℤ)
    → Encodes marshal read_id
    → (r : Response)
    → (text : Bytes) × (send_response marshal r ≡ text ∷ []) × (read_id text ≡ some r.id)
unfolding send_response
send_response-number marshal read_id encodes r =
    let (text, written, read) = encodes r in (text ++ codes "\n", ap line_of written, read)

numbers-append :
    (read_id : Bytes → Option ℤ) (xs ys : List Bytes)
    → numbers read_id (xs ++ ys) ≡ numbers read_id xs ++ numbers read_id ys
unfolding numbers
numbers-append read_id [] ys = refl
numbers-append read_id (x ∷ xs) ys =
    ap (λ (l : List (Option ℤ)). read_id x ∷ l) (numbers-append read_id xs ys)

module _ (os : Os) (codec : Codec) (encode : ContainerConfig → Bytes) (quota_of : ℕ → ℤ)
    (prepare : Bytes → Bytes → Exec (Guest os.World) Error Bytes) (net : Sockets os.World)
    (services : Services os.World) (unmarshal : Bytes → Option Request)
    (marshal : Response → Option Bytes) where
  open os use {World}

  pub Reach-append :
      {a b c : Agent World}
      → Reach os encode quota_of a b
      → Reach os encode quota_of b c
      → Reach os encode quota_of a c
  Reach-append r here = r
  Reach-append r (later s t) = later (Reach-append r s) t

  -- The request panicked, in a state that the steps lead to from the first one.
  abbrev pub Panics : Agent World → Request → Type 0
  Panics a q =
      (b : Agent World) × Reach os encode quota_of a b
      × (panicked (dispatch os codec encode quota_of prepare net services q.method q.params b).0
          ≡ true)

  -- Every line up to the one whose request panicked is answered.
  abbrev pub Stopped : (Bytes → Option ℤ) → Agent World → List Bytes → List Bytes → Type 0
  Stopped read_id a lines written =
      (before : List Bytes) × (line : Bytes) × (after : List Bytes) × (q : Request) × (lines
        ≡ before ++ line ∷ after)
      × (numbers read_id written ≡ asked unmarshal before)
      × (unmarshal line ≡ some q)
      × Panics a q

  -- Every line is answered if the agent is still there, and else every line up to a panic.
  abbrev pub AnsweredLines :
      (Bytes → Option ℤ) → Agent World → List Bytes → Bool → List Bytes → Type 0
  AnsweredLines read_id a lines true written = numbers read_id written ≡ asked unmarshal lines
  AnsweredLines read_id a lines false written = Stopped read_id a lines written

  -- How the lines of a connection were served, from one state to another
  abbrev pub Serves :
      (Bytes → Option ℤ) → Agent World → List Bytes → Bool × List Bytes × Agent World → Type 0
  Serves read_id a lines x =
      let (alive, written, b) = x in
      AnsweredLines read_id a lines alive written × Reach os encode quota_of a b

  -- The numbers of one line
  abbrev asked_one : Bytes → List (Option ℤ)
  asked_one line = if same line [] then [] else some (number (unmarshal line)) ∷ []

  asked-cons :
      (line : Bytes) (lines : List Bytes)
      → asked unmarshal (line ∷ lines) ≡ asked_one line ++ asked unmarshal lines
  unfolding asked
  asked-cons line lines = ground arith

  -- One line: what is written has its number, or its request panicked.
  abbrev ServesLine :
      (Bytes → Option ℤ) → Agent World → Bytes → Option (List Bytes) × Agent World → Type 0
  ServesLine read_id a line (none, b) =
      ((q : Request) × (unmarshal line ≡ some q) × Panics a q) × Reach os encode quota_of a b
  ServesLine read_id a line (some written, b) =
      (numbers read_id written ≡ asked_one line) × Reach os encode quota_of a b

  written-ServesLine :
      (read_id : Bytes → Option ℤ)
      → Encodes marshal read_id
      → (line : Bytes) (a b : Agent World) (q : Request) (gone : Bool) (r : Option Response)
      → unmarshal line ≡ some q
      → same line [] ≡ false
      → gone
        ≡ panicked (dispatch os codec encode quota_of prepare net services q.method q.params a).0
      → Numbered gone q.id r
      → Reach os encode quota_of a b
      → ServesLine read_id a line
          (written_of os codec encode quota_of prepare net services unmarshal marshal r, b)
  unfolding numbers
  written-ServesLine read_id encodes line a b q gone none is_request full same_gone h reached =
      ((q, is_request, (a, here, sym same_gone ∙ h)), reached)
  written-ServesLine read_id encodes line a b q gone (some r) is_request full same_gone h reached =
      let (text, written, read) = send_response-number marshal read_id encodes r in
      (
        ap (numbers read_id) written
            ∙ ap (λ (o : Option ℤ). o ∷ []) (read ∙ ap some (h ∙ ap number (sym is_request)))
            ∙ rw full refl,
        reached,
      )

  answer-ServesLine :
      (read_id : Bytes → Option ℤ)
      → Encodes marshal read_id
      → (line : Bytes) (a : Agent World) (m : Option Request) → unmarshal line ≡ m
      → same line [] ≡ false
      → let (r, b) = answer os codec encode quota_of prepare net services unmarshal marshal m a in
        ServesLine read_id a line
          (written_of os codec encode quota_of prepare net services unmarshal marshal r, b)
  unfolding numbers
  answer-ServesLine read_id encodes line a none no_request full =
      let (text, written, read) =
        send_response-number marshal read_id encodes
          (record { outcome = err invalid_json; id = pos 0 }) in
      (
        ap (numbers read_id) written
            ∙ ap (λ (o : Option ℤ). o ∷ [])
                (read ∙ ap (λ (m : Option Request). some (number m)) (sym no_request))
            ∙ rw full refl,
        here,
      )
  answer-ServesLine read_id encodes line a (some q) is_request full =
      let (reached, numbered) =
        handle_request-Reach os codec encode quota_of prepare net services q a in
      written-ServesLine read_id encodes line a _ q _ _ is_request full refl numbered reached

  if-ServesLine :
      (read_id : Bytes → Option ℤ) (line : Bytes) (a : Agent World) (empty : Bool)
      (x : Option (List Bytes) × Agent World)
      → same line [] ≡ empty
      → (same line [] ≡ false → ServesLine read_id a line x)
      → ServesLine read_id a line (if empty then (some [], a) else x)
  unfolding numbers
  if-ServesLine read_id line a true x h served = (rw h refl, here)
  if-ServesLine read_id line a false x h served = served h

  serve_line-ServesLine :
      (read_id : Bytes → Option ℤ)
      → Encodes marshal read_id
      → (line : Bytes) (a : Agent World)
      → ServesLine read_id a line
          (serve_line os codec encode quota_of prepare net services unmarshal marshal line a)
  unfolding serve_line
  serve_line-ServesLine read_id encodes line a =
      if-ServesLine read_id line a (same line []) _ refl
        (answer-ServesLine read_id encodes line a (unmarshal line) refl)

  behind-Serves :
      (read_id : Bytes → Option ℤ) (line : Bytes) (lines written : List Bytes) (a b : Agent World)
      (x : Bool × List Bytes × Agent World)
      → (numbers read_id written ≡ asked_one line) × Reach os encode quota_of a b
      → Serves read_id b lines x
      → let (alive, more, c) = x in Serves read_id a (line ∷ lines) (alive, written ++ more, c)
  behind-Serves read_id line lines written a b (true, more, c) (first, reached) (rest, onward) = (
    numbers-append read_id written more
        ∙ ap (λ (l : List (Option ℤ)). l ++ numbers read_id more) first
        ∙ ap (λ (l : List (Option ℤ)). asked_one line ++ l) rest
        ∙ sym (asked-cons line lines),
    Reach-append reached onward,
  )
  behind-Serves read_id line lines written a b (false, more, c) (first, reached)
        ((before, l, after, q, split, rest, is_request, (d, to_d, gone)), onward) =
      (
        (
          line ∷ before,
          l,
          after,
          q,
          ap (λ (ls : List Bytes). line ∷ ls) split,
          numbers-append read_id written more
              ∙ ap (λ (n : List (Option ℤ)). n ++ numbers read_id more) first
              ∙ ap (λ (n : List (Option ℤ)). asked_one line ++ n) rest
              ∙ sym (asked-cons line before),
          is_request,
          (d, Reach-append reached to_d, gone),
        ),
        Reach-append reached onward,
      )

  go_on-Serves :
      (read_id : Bytes → Option ℤ) (line : Bytes) (lines : List Bytes) (a : Agent World)
      (again : Agent World → Bool × List Bytes × Agent World)
      (x : Option (List Bytes) × Agent World)
      → ServesLine read_id a line x
      → ((b : Agent World) → Serves read_id b lines (again b))
      → Serves read_id a
          (line ∷ lines)
          (go_on os codec encode quota_of prepare net services unmarshal marshal again x)
  unfolding asked numbers
  go_on-Serves read_id line lines a again (none, b) ((q, is_request, panics), reached) rest =
      (([], line, lines, q, refl, refl, is_request, panics), reached)
  go_on-Serves read_id line lines a again (some written, b) first rest =
      behind-Serves read_id line lines written a b (again b) first (rest b)

-- Every line that is not empty is answered by exactly one line, in the order of the lines, under the
-- number of its request, or 0 if it is none, if the agent is still there behind the last line. If it is
-- not, there was a request whose handler panicked, and exactly the lines before it are answered like this.
-- All of them together lead the containers through their steps only. It is assumed that json.Marshal
-- writes every response.
pub handle_connection-answers :
    (os : Os) (codec : Codec) (encode : ContainerConfig → Bytes) (quota_of : ℕ → ℤ)
    (prepare : Bytes → Bytes → Exec (Guest os.World) Error Bytes) (net : Sockets os.World)
    (services : Services os.World) (unmarshal : Bytes → Option Request)
    (marshal : Response → Option Bytes) (read_id : Bytes → Option ℤ)
    → Encodes marshal read_id
    → (lines : List Bytes) (a : Agent os.World)
    → Serves os codec encode quota_of prepare net services unmarshal marshal read_id a lines
        (handle_connection os codec encode quota_of prepare net services unmarshal marshal lines a)
unfolding handle_connection asked numbers
handle_connection-answers os codec encode quota_of prepare net services unmarshal marshal read_id
      encodes [] a =
    (refl, here)
handle_connection-answers os codec encode quota_of prepare net services unmarshal marshal read_id
      encodes (line ∷ lines) a =
    go_on-Serves os codec encode quota_of prepare net services unmarshal marshal read_id line lines
      a _ _
      (serve_line-ServesLine os codec encode quota_of prepare net services unmarshal marshal read_id
        encodes line a)
      (handle_connection-answers os codec encode quota_of prepare net services unmarshal marshal
        read_id encodes lines)
