-- ===== src/Host/Client/Create/Agreeing.antt =====
-- A command that prints and the sequence of its requests (main.go): when they agree, and the rules by which
-- their parts are put together.
use aetheria.Prelude.{◌≡◌, ◌++◌, Bytes, Result, ok, err, Exec, continue, ◌>>=◌, ◌>>◌}
use aetheria.Prelude.Int.{ℤ, pos}
use aetheria.Host.Commands.{Sent, Exit}
use aetheria.Host.Client.Plain.{Console, print}

-- The same end of a command: an exit code of 1 where the sequence of requests ends with a failure
abbrev pub SameEnd : {A : Type 0} → Result ℤ A → Result Exit (Unit {0}) → Type 0
SameEnd (ok a) (ok u) = Unit
SameEnd (err code) (err e) = code ≡ pos 1
SameEnd _ _ = ⊥

module _ {W : Type 0} where
  -- A command that prints, and a sequence of requests that stands for it
  pub record Agrees {A : Type 0} (m : Exec (Console W) ℤ A) (n : Exec (Sent W) Exit Unit)
      : Type 0 where
    pub runs :
        (c : Console W) (s : Sent W)
        → c.world ≡ s.world
        → SameEnd (m c).0 (n s).0 × ((m c).1.world ≡ (n s).1.world)

  module _ {A B : Type 0} where
    continue-Agrees :
        (x : Result ℤ A) (y : Result Exit (Unit {0})) (f : A → Exec (Console W) ℤ B)
        (n : Exec (Sent W) Exit Unit) (c : Console W) (s : Sent W)
        → ((a : A) → Agrees (f a) n)
        → SameEnd x y
        → c.world ≡ s.world
        → SameEnd (continue x f c).0 (continue y (λ _. n) s).0
          × ((continue x f c).1.world ≡ (continue y (λ _. n) s).1.world)
    continue-Agrees (ok a) (ok u) f n c s rest end h = (rest a).runs c s h
    continue-Agrees (ok a) (err e) f n c s rest end h = absurd end
    continue-Agrees (err code) (ok u) f n c s rest end h = absurd end
    continue-Agrees (err code) (err e) f n c s rest end h = (end, h)

    pub Agrees-bind :
        (m : Exec (Console W) ℤ A) (f : A → Exec (Console W) ℤ B) (n k : Exec (Sent W) Exit Unit)
        → Agrees m n
        → ((a : A) → Agrees (f a) k)
        → Agrees (m >>= f) (n >> k)
    Agrees-bind m f n k first rest = record {
      runs = λ c s h.
          let (end, same_world) = first.runs c s h in
          continue-Agrees (m c).0 (n s).0 f k (m c).1 (n s).1 rest end same_world;
    }

  -- What is printed is no step of the sequence.
  pub Agrees-print :
      {A : Type 0} (t : Bytes) (m : Exec (Console W) ℤ A) (n : Exec (Sent W) Exit Unit)
      → Agrees m n
      → Agrees (print t >> m) n
  unfolding print
  Agrees-print t m n h = record { runs = λ c s e. h.runs (record c { stdout = c.stdout ++ t }) s e }

  then_print :
      {A : Type 0} (t : A → Bytes) (x : Result ℤ A) (y : Result Exit (Unit {0})) (c : Console W)
      (w : W)
      → SameEnd x y
      → c.world ≡ w
      → SameEnd (continue x (λ a. print (t a)) c).0 y
        × ((continue x (λ a. print (t a)) c).1.world ≡ w)
  unfolding print
  then_print t (ok a) (ok u) c w end h = (tt, h)
  then_print t (ok a) (err e) c w end h = absurd end
  then_print t (err code) (ok u) c w end h = absurd end
  then_print t (err code) (err e) c w end h = (end, h)

  pub Agrees-then_print :
      {A : Type 0} (t : A → Bytes) (m : Exec (Console W) ℤ A) (n : Exec (Sent W) Exit Unit)
      → Agrees m n
      → Agrees (m >>= λ a. print (t a)) n
  Agrees-then_print t m n agrees = record {
    runs = λ c s h.
        let (end, same_world) = agrees.runs c s h in
        then_print t (m c).0 (n s).0 (m c).1 (n s).1.world end same_world;
  }
