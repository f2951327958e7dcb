-- ===== src/Agent/Shell/Sessions.antt =====
-- The sessions of the containers (shell.go).
use aetheria.Prelude.{
  ℕ, ◌≡◌, refl, Bool, true, false, Option, none, some, arith, Bytes, if◌then◌else◌, ◌==◌, same, ltb,
  ◌&&◌, Result, ok, err, ◌∙◌, sym, ap, bind-ok, lookup, erase, lookup-insert, lookup-erase,
  lookup-erase_self, ◌⊎◌, inl, inr,
}
use aetheria.Agent.Types.{Error, ShellSession, NetworkMode, Container, not_found, not_running}
use aetheria.Agent.Os.{Guest}
use aetheria.Agent.Container.{Manager, is_running}
use aetheria.Agent.Connection.{Vsock}
use aetheria.Agent.Shell.{
  Pty, ShellParams, started_shell, run_shell, pty_error, open_pty, start_shell, resize, close_old,
  close_stale, opened_shell, shell_at, handle_shell, end_stream,
}
use aetheria.Agent.Shell.Files.{OpenFiles, Opening, start_shell-Opening}

abbrev pub is_master : ℕ → Option ShellSession → Bool
is_master d none = false
is_master d (some s) = d == s.master

-- What a request for a shell leaves behind: with the session it made, or an error
abbrev pub Replaced :
    {W : Type 0} → (ℕ → W → Bool) → Bytes → Guest W → ShellSession → Guest W → Type 0
Replaced is_open name g s g' =
    (s.container_name ≡ name)
    × ((k : Bytes) → lookup k g'.sessions ≡ (if same k name then some s else lookup k g.sessions))
    × ((d : ℕ)
        → is_open d g'.world ≡ (
            if d == s.master
            then true
            else if is_master d (lookup name g.sessions)
            then false
            else is_open d g.world))

abbrev pub Cleared : {W : Type 0} → (ℕ → W → Bool) → Bytes → Guest W → Guest W → Type 0
Cleared is_open name g g' =
    ((k : Bytes) → lookup k g'.sessions ≡ (if same k name then none else lookup k g.sessions))
    × ((d : ℕ)
        → is_open d g'.world
          ≡ (if is_master d (lookup name g.sessions) then false else is_open d g.world))

abbrev pub Outcome :
    {W : Type 0} → (ℕ → W → Bool) → Bytes → Guest W → Result Error ℕ × Guest W → Type 0
Outcome is_open name g (ok port, g') = (s : ShellSession) × Replaced is_open name g s g'
Outcome is_open name g (err e, g') = (g' ≡ g) ⊎ Cleared is_open name g g'

module _ {W : Type 0} (pty : Pty W) where
  started-name :
      (name : Bytes) (pid : ℕ) (network : NetworkMode) (master slave : ℕ) (r : Option ℕ × W)
      (s : ShellSession)
      → (started_shell pty name pid network master slave r).0 ≡ ok s
      → s.container_name ≡ name
  started-name name pid network master slave (none, w) s h = cc h
  started-name name pid network master slave (some p, w) s h =
      sym (ap (λ (r : Result Error ShellSession). name_or name r) h)
    where
      name_or : Bytes → Result Error ShellSession → Bytes
      name_or other (ok s) = s.container_name
      name_or other (err e) = other

  start_shell-name :
      (name : Bytes) (pid : ℕ) (network : NetworkMode) (w : W) (s : ShellSession)
      → (start_shell pty name pid network w).0 ≡ ok s
      → s.container_name ≡ name
  unfolding start_shell
  start_shell-name name pid network w s h =
      let ((master, slave), _, e) =
        bind-ok (λ w'. pty_error pty (open_pty pty w')) (run_shell pty name pid network) w s h in
      started-name name pid network master slave _ s
        (sym (ap (λ (x : Result Error ShellSession × W). x.0) e) ∙ h)

module _ {W : Type 0} (pty : Pty W) (is_open : ℕ → W → Bool) (laws : OpenFiles pty is_open) where
  close_old-closes :
      (old : Option ShellSession) (w : W) (d : ℕ)
      → is_open d (close_old pty old w) ≡ (if is_master d old then false else is_open d w)
  close_old-closes none w d = refl
  close_old-closes (some old) w d = laws.closed old.master w d

  close_stale-Cleared :
      (name : Bytes) (g : Guest W) → Cleared is_open name g (close_stale pty name g)
  unfolding close_stale
  close_stale-Cleared name g =
      (λ k. lookup-erase k name g.sessions, close_old-closes (lookup name g.sessions) g.world)

  if-sizing :
      (b : Bool) (f rows cols : ℕ) (w : W) (d : ℕ)
      → is_open d (if b then pty.set_size f rows cols w else w) ≡ is_open d w
  if-sizing true f rows cols w d = laws.sizing f rows cols w d
  if-sizing false f rows cols w d = refl

  resize-same :
      (s : ShellSession) (rows cols : ℕ) (w : W) (d : ℕ)
      → is_open d (resize pty s rows cols w) ≡ is_open d w
  unfolding resize
  resize-same s rows cols w d = if-sizing (ltb 0 rows && ltb 0 cols) s.master rows cols w d

  opened_shell-Outcome :
      (p : ShellParams) (g g₁ : Guest W) (r : Result Error ShellSession × W)
      → Cleared is_open p.name g g₁
      → Opening pty is_open laws (λ (s : ShellSession). s.master) g₁.world r
      → ((s : ShellSession) → r.0 ≡ ok s → s.container_name ≡ p.name)
      → Outcome is_open p.name g (opened_shell pty p g₁ r)
  opened_shell-Outcome p g g₁ (err e, w) (entries, files) same_open named =
      inr (entries, λ d. same_open d ∙ files d)
  opened_shell-Outcome p g g₁ (ok s, w) (entries, files) (fresh, h) named = (
    s,
    (
      named s refl,
      λ k. ground (arith, lookup-insert k p.name s g₁.sessions, entries k),
      λ d. ground (arith, resize-same s p.rows p.cols w d, h d, files d),
    ),
  )

  if-Outcome :
      (b : Bool) (p : ShellParams) (c : Container) (g : Guest W)
      → Outcome is_open p.name g (if b then shell_at pty p c g else (err (not_running p.name), g))
  if-Outcome false p c g = inl refl
  if-Outcome true p c g =
      let g₁ = close_stale pty p.name g in
      opened_shell-Outcome p g g₁ (start_shell pty p.name c.pid c.network g₁.world)
        (close_stale-Cleared p.name g)
        (start_shell-Opening pty is_open laws p.name c.pid c.network g₁.world)
        (start_shell-name pty p.name c.pid c.network g₁.world)

  found-Outcome :
      (m : Manager) (p : ShellParams) (g : Guest W) (found : Option ℕ)
      → Outcome is_open p.name g (elim found [
        | none ↦ (err (not_found p.name), g)
        | some ptr ↦
            if is_running (m.heap ptr)
            then shell_at pty p (m.heap ptr) g
            else (err (not_running p.name), g)
      ])
  found-Outcome m p g none = inl refl
  found-Outcome m p g (some ptr) = if-Outcome (is_running (m.heap ptr)) p (m.heap ptr) g

-- With files that `OpenFiles` describes, a request for a shell either makes a session, which is then
-- the one of its container, its terminal the only file that was opened and the terminal of the
-- session before it closed; or it fails and changes nothing; or it fails when the shell is started,
-- the session before it is closed and gone, and nothing else is open. The sessions of other
-- containers stay in each case.
pub handle_shell-Outcome :
    {W : Type 0} (pty : Pty W) (is_open : ℕ → W → Bool)
    → OpenFiles pty is_open
    → (m : Manager) (p : ShellParams) (g : Guest W)
    → Outcome is_open p.name g (handle_shell pty m p g)
unfolding handle_shell
handle_shell-Outcome pty is_open laws m p g =
    found-Outcome pty is_open laws m p g (lookup p.name m.containers)

module _ {W : Type 0} (pty : Pty W) (is_open : ℕ → W → Bool) (laws : OpenFiles pty is_open) where
  -- What is open stays open over a request, if it is no session's terminal that the request closes.
  Outcome-open :
      (name : Bytes) (g : Guest W) (d : ℕ) (r : Result Error ℕ × Guest W)
      → Outcome is_open name g r
      → lookup name g.sessions ≡ none
      → is_open d g.world ≡ true
      → is_open d r.1.world ≡ true
  Outcome-open name g d (ok port, g') (s, (named, entries, files)) absent h =
      ground (arith, files d, ap (is_master d) absent)
  Outcome-open name g d (err e, g') (inl unchanged) absent h =
      ap (λ (x : Guest W). is_open d x.world) unchanged ∙ h
  Outcome-open name g d (err e, g') (inr (entries, files)) absent h =
      ground (arith, files d, ap (is_master d) absent)

  Outcome-new :
      (name : Bytes) (g : Guest W) (port : ℕ) (new : ShellSession) (r : Result Error ℕ × Guest W)
      → Outcome is_open name g r
      → r.0 ≡ ok port
      → lookup name r.1.sessions ≡ some new
      → is_open new.master r.1.world ≡ true
  Outcome-new name g port new (err e, g') outcome h at = cc h
  Outcome-new name g port new (ok n, g') (s, (named, entries, files)) h at =
      let same_session : s ≡ new = ground (arith, entries name, at) in
      ground (arith, files new.master, ap (λ (x : ShellSession). x.master) same_session)

-- While a session of a container is streamed, another shell is asked for in the same container, and
-- is made. If the first stream ends after that, the container is left without a session, with the
-- terminal of the new one open; and whatever request for a shell in this container comes next, it
-- does not close that terminal. The terminals are two files, as `OpenFiles` describes them, and
-- closing a connection closes neither.
pub end_stream-orphans :
    {W : Type 0} (pty : Pty W) (vsock : Vsock W) (is_open : ℕ → W → Bool)
    → OpenFiles pty is_open
    → ((c : ℕ) (w : W) (d : ℕ) → is_open d (vsock.close c w) ≡ is_open d w)
    → (m m' : Manager) (p q : ShellParams) (g : Guest W) (old new : ShellSession) (c port : ℕ)
    → old.container_name ≡ p.name
    → q.name ≡ p.name
    → (handle_shell pty m p g).0 ≡ ok port
    → lookup p.name (handle_shell pty m p g).1.sessions ≡ some new
    → (new.master == old.master) ≡ false
    → let g' = end_stream pty vsock old c (handle_shell pty m p g).1 in
      (lookup p.name g'.sessions ≡ none)
      × (is_open new.master g'.world ≡ true)
      × (is_open new.master (handle_shell pty m' q g').1.world ≡ true)
unfolding end_stream
end_stream-orphans pty vsock is_open laws apart m m' p q g old new c port same_container again made
      at two =
    let g₁ = (handle_shell pty m p g).1 in
    let g' = end_stream pty vsock old c g₁ in
    let gone : lookup p.name g'.sessions ≡ none =
      ap (λ (k : Bytes). lookup p.name (erase k g₁.sessions)) same_container
      ∙ lookup-erase_self p.name g₁.sessions in
    let was_open : is_open new.master g₁.world ≡ true =
      Outcome-new pty is_open laws p.name g port new (handle_shell pty m p g)
        (handle_shell-Outcome pty is_open laws m p g) made at in
    let still_open : is_open new.master g'.world ≡ true = ground (
      arith,
      apart c (pty.close old.master g₁.world) new.master,
      laws.closed old.master g₁.world new.master,
      was_open,
      two,
    ) in
    (
      gone,
      still_open,
      Outcome-open pty is_open laws q.name g' new.master (handle_shell pty m' q g')
          (handle_shell-Outcome pty is_open laws m' q g')
          (ap (λ (k : Bytes). lookup k g'.sessions) again ∙ gone) still_open,
    )
