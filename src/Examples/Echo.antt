-- ===== src/Examples/Echo.antt =====
-- An agent that answers every line with that line. The state is the answers that nobody has read.
use aetheria.Prelude.{◌≡◌, refl, true, Option, none, some, List, [], ◌∷◌, ◌++◌, Bytes}
use aetheria.Prelude.Int.{pos}
use aetheria.Host.Daemon.{Request, Response, Wire}
use aetheria.Host.Daemon.Answers.{InOrder}

abbrev pub oldest : List Bytes → Option Bytes × List Bytes
oldest [] = (none, [])
oldest (x ∷ xs) = (some x, xs)

abbrev pub echo : Wire (List Bytes)
echo = record { write = λ line w. (true, w ++ line ∷ []); read_line = oldest }

oldest-InOrder :
    (w : List Bytes) (line : Bytes) → (oldest w).0 ≡ some line → w ≡ line ∷ (oldest w).1
oldest-InOrder [] line h = cc
oldest-InOrder (x ∷ xs) line h = cc

oldest_late : (w : List Bytes) → (oldest w).0 ≡ none → (oldest w).1 ≡ w
oldest_late [] h = refl
oldest_late (x ∷ xs) h = cc

pub echo-InOrder : InOrder echo (λ line. line) (λ w. w)
echo-InOrder = record { written = λ line w h. refl; read = oldest-InOrder; late = oldest_late }

abbrev pub method_only : Request → Option Bytes
method_only q = some q.method

abbrev pub text_only : Bytes → Option Response
text_only line = some (record { result = line; error = []; id = pos 0 })
