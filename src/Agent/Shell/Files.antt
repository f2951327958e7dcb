-- ===== src/Agent/Shell/Files.antt =====
-- The files of a shell's terminal (pty.go).
use aetheria.Prelude.{
  ℕ, ◌≡◌, refl, Bool, true, false, Option, none, some, List, ◌++◌, arith, Bytes, codes,
  if◌then◌else◌, ◌==◌, Result, ok, err, ◌∙◌, sym, ap, Exec, pure, continue, ◌>>=◌,
}
use aetheria.Text.Decimal.{decimal}
use aetheria.Agent.Types.{
  Error, ShellSession, NetworkMode, open_ptmx, unlock_pty, pty_number, open_slave,
}
use aetheria.Agent.Shell.{
  Pty, needed, checked, on_error, open_slave_of, open_pty, started_shell, run_shell, pty_error,
  start_shell, shell_argv,
}

-- Which files are open: opening opens one that was not, and nothing but closing closes one.
pub record OpenFiles {W : Type 0} (pty : Pty W) (is_open : ℕ → W → Bool) : Type 0 where
  pub refused :
      (path : Bytes) (w : W)
      → (pty.open_file path w).0 ≡ none
      → (d : ℕ) → is_open d (pty.open_file path w).1 ≡ is_open d w
  pub opened :
      (path : Bytes) (w : W) (f : ℕ)
      → (pty.open_file path w).0 ≡ some f
      → (is_open f w ≡ false)
        × ((d : ℕ) → is_open d (pty.open_file path w).1 ≡ (if d == f then true else is_open d w))
  pub unlocking : (f : ℕ) (w : W) (d : ℕ) → is_open d (pty.unlock f w).1 ≡ is_open d w
  pub numbering : (f : ℕ) (w : W) (d : ℕ) → is_open d (pty.number f w).1 ≡ is_open d w
  pub sizing :
      (f rows cols : ℕ) (w : W) (d : ℕ) → is_open d (pty.set_size f rows cols w) ≡ is_open d w
  pub closed :
      (f : ℕ) (w : W) (d : ℕ) → is_open d (pty.close f w) ≡ (if d == f then false else is_open d w)
  pub starting :
      (argv : List Bytes) (f : ℕ) (w : W) (d : ℕ) → is_open d (pty.start argv f w).1 ≡ is_open d w

-- The one file that is open afterwards and was not before, if any
abbrev pub Adds : {W : Type 0} → (ℕ → W → Bool) → W → Option ℕ → W → Type 0
Adds is_open w none w' = (d : ℕ) → is_open d w' ≡ is_open d w
Adds is_open w (some f) w' =
    (is_open f w ≡ false) × ((d : ℕ) → is_open d w' ≡ (if d == f then true else is_open d w))

module _ {W : Type 0} (pty : Pty W) (is_open : ℕ → W → Bool) (laws : OpenFiles pty is_open) where
  opened_file :
      (path : Bytes) (w : W) (r : Option ℕ × W) → r ≡ pty.open_file path w → Adds is_open w r.0 r.1
  opened_file path w (none, w₁) e = λ d.
      ap (λ (x : Option ℕ × W). is_open d x.1) e
      ∙ laws.refused path w (sym (ap (λ (x : Option ℕ × W). x.0) e)) d
  opened_file path w (some f, w₁) e =
      let (fresh, h) = laws.opened path w f (sym (ap (λ (x : Option ℕ × W). x.0) e)) in
      (fresh, λ d. ap (λ (x : Option ℕ × W). is_open d x.1) e ∙ h d)

  Adds-before :
      (w w₁ w₂ : W) (o : Option ℕ)
      → ((d : ℕ) → is_open d w₁ ≡ is_open d w)
      → Adds is_open w₁ o w₂
      → Adds is_open w o w₂
  Adds-before w w₁ w₂ none before h = λ d. h d ∙ before d
  Adds-before w w₁ w₂ (some f) before (fresh, h) =
      (sym (before f) ∙ fresh, λ d. h d ∙ ap (λ (b : Bool). if d == f then true else b) (before d))

  abbrev pub file_of : {A : Type 0} → (A → ℕ) → Result Error A → Option ℕ
  file_of f (ok a) = some (f a)
  file_of f (err e) = none

  -- A file for a result, and none for an error
  abbrev pub Opening : {A : Type 0} → (A → ℕ) → W → Result Error A × W → Type 0
  Opening f w r = Adds is_open w (file_of f r.0) r.1

  bind-Opening :
      {A B : Type 0} (f : B → ℕ) (w : W) (r : Result Error A × W) (n : A → Exec W Error B)
      → ((d : ℕ) → is_open d r.1 ≡ is_open d w)
      → ((a : A) (w' : W) → Opening f w' (n a w'))
      → Opening f w (continue r.0 n r.1)
  bind-Opening f w (ok a, w₁) n same_open rest =
      Adds-before w w₁ _ (file_of f (n a w₁).0) same_open (rest a w₁)
  bind-Opening f w (err e, w₁) n same_open rest = same_open

  checked-same :
      (e : Error) (w : W) (r : Bool × W)
      → ((d : ℕ) → is_open d r.1 ≡ is_open d w)
      → (d : ℕ) → is_open d (checked e r).1 ≡ is_open d w
  checked-same e w (true, w₁) h d = h d
  checked-same e w (false, w₁) h d = h d

  needed-same :
      {A : Type 0} (e : Error) (w : W) (r : Option A × W)
      → ((d : ℕ) → is_open d r.1 ≡ is_open d w)
      → (d : ℕ) → is_open d (needed e r).1 ≡ is_open d w
  needed-same e w (none, w₁) h d = h d
  needed-same e w (some a, w₁) h d = h d

  needed-Opening :
      (e : Error) (w : W) (r : Option ℕ × W)
      → Adds is_open w r.0 r.1
      → Opening (λ (f : ℕ). f) w (needed e r)
  needed-Opening e w (none, w₁) h = h
  needed-Opening e w (some f, w₁) h = h

  open_slave_of-Opening :
      (master : ℕ) (w : W) → Opening (λ (f : ℕ). f) w (open_slave_of pty master w)
  unfolding open_slave_of
  open_slave_of-Opening master w =
      bind-Opening (λ (f : ℕ). f) w (checked unlock_pty (pty.unlock master w)) _
        (checked-same unlock_pty w _ (laws.unlocking master w))
        (λ _ w₁.
          bind-Opening (λ (f : ℕ). f) w₁ (needed pty_number (pty.number master w₁)) _
            (needed-same pty_number w₁ _ (laws.numbering master w₁))
            (λ n w₂.
              let path = codes "/dev/pts/" ++ decimal n in
              needed-Opening (open_slave n) w₂ (pty.open_file path w₂)
                (opened_file path w₂ _ refl)))

  -- Both sides of the terminal are open, and two files.
  abbrev Both : W → Result Error (ℕ × ℕ) × W → Type 0
  Both w (err e, w') = (d : ℕ) → is_open d w' ≡ is_open d w
  Both w (ok (master, slave), w') =
      (is_open master w ≡ false)
      × (is_open slave w ≡ false)
      × ((master == slave) ≡ false)
      × ((d : ℕ)
          → is_open d w' ≡ (if d == slave then true else if d == master then true else is_open d w))

  open_slave-Both :
      (master : ℕ) (w w₁ : W) (r : Result Error ℕ × W)
      → Adds is_open w (some master) w₁
      → Opening (λ (f : ℕ). f) w₁ r
      → let (x, w₂) = on_error (pty.close master) r in
        Both w (continue x (λ slave. pure (master, slave)) w₂)
  open_slave-Both master w w₁ (ok slave, w₂) (fresh, h) (slave_fresh, h') = (
    fresh,
    ground (arith, h slave, slave_fresh),
    ground (arith, h slave, slave_fresh),
    λ d. ground (arith, h' d, h d),
  )
  open_slave-Both master w w₁ (err e, w₂) (fresh, h) same_open =
      λ d. ground (arith, laws.closed master w₂ d, same_open d, h d, fresh)

  master-Both :
      (w : W) (r : Option ℕ × W)
      → Adds is_open w r.0 r.1
      → let (x, w₁) = needed open_ptmx r in
        Both w (
          continue x
            ((λ master.
              (λ w'. on_error (pty.close master) (open_slave_of pty master w')) >>= λ slave.
              pure (master, slave)))
            w₁)
  master-Both w (none, w₁) h = h
  master-Both w (some master, w₁) h =
      open_slave-Both master w w₁ (open_slave_of pty master w₁) h (open_slave_of-Opening master w₁)

  open_pty-Both : (w : W) → Both w (open_pty pty w)
  unfolding open_pty
  open_pty-Both w =
      master-Both w (pty.open_file (codes "/dev/ptmx") w) (opened_file (codes "/dev/ptmx") w _ refl)

  started-Opening :
      (name : Bytes) (pid : ℕ) (network : NetworkMode) (master slave : ℕ) (w w₁ : W)
      (r : Option ℕ × W)
      → Both w (ok (master, slave), w₁)
      → ((d : ℕ) → is_open d r.1 ≡ is_open d w₁)
      → Opening
          (λ (s : ShellSession). s.master)
          w
          (started_shell pty name pid network master slave r)
  started-Opening name pid network master slave w w₁ (none, w₂) (fresh, slave_fresh, two, h)
        same_open =
      λ d. ground (
        arith,
        laws.closed slave (pty.close master w₂) d,
        laws.closed master w₂ d,
        same_open d,
        h d,
        fresh,
        slave_fresh,
      )
  started-Opening name pid network master slave w w₁ (some p, w₂) (fresh, slave_fresh, two, h)
        same_open =
      (fresh, λ d. ground (arith, laws.closed slave w₂ d, same_open d, h d, slave_fresh, two))

  opened-Opening :
      (name : Bytes) (pid : ℕ) (network : NetworkMode) (w : W) (r : Result Error (ℕ × ℕ) × W)
      → Both w r
      → let (x, w₁) = pty_error pty r in
        Opening (λ (s : ShellSession). s.master) w (continue x (run_shell pty name pid network) w₁)
  opened-Opening name pid network w (err e, w₁) both = both
  opened-Opening name pid network w (ok (master, slave), w₁) both =
      let w₂ = pty.set_size master 24 80 w₁ in
      started-Opening name pid network master slave w w₁
        (pty.start (shell_argv pid network) slave w₂) both
        (λ d. laws.starting (shell_argv pid network) slave w₂ d ∙ laws.sizing master 24 80 w₁ d)

  -- A shell that is started leaves its master open and nothing else; one that is not, at whichever call,
  -- leaves nothing open.
  pub start_shell-Opening :
      (name : Bytes) (pid : ℕ) (network : NetworkMode) (w : W)
      → Opening (λ (s : ShellSession). s.master) w (start_shell pty name pid network w)
  unfolding start_shell
  start_shell-Opening name pid network w =
      opened-Opening name pid network w (open_pty pty w) (open_pty-Both w)
