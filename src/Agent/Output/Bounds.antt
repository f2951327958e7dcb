-- ===== src/Agent/Output/Bounds.antt =====
-- However a command's output is cut into writes, the writer keeps its first bytes.
use mathlib.Core.List.{flatten}
use aetheria.Prelude.{
  ℕ, zero, suc, ◌-◌, ◌≤◌, ◌<◌, ◌≡◌, ◌≢◌, refl, ap, ◌∙◌, List, [], ◌∷◌, ◌++◌, arith, Bytes, length,
  take, All, append_assoc, append-nil, ltb, length-append, length-take, take_all, min, dec_lt,
}
use aetheria.Agent.Output.{LimitedWriter, write, write_all, empty_writer}

take-append_short :
    (n : ℕ) (xs ys : Bytes) → length xs ≤ n → take n (xs ++ ys) ≡ xs ++ take (n - length xs) ys
take-append_short n [] ys h = ap (λ k. take k ys) (omega arith)
take-append_short zero (x ∷ xs) ys h = absurd (omega arith)
take-append_short (suc n) (x ∷ xs) ys h =
    ap (λ l. x ∷ l)
      (take-append_short n xs ys (omega arith) ∙ ap (λ k. xs ++ take k ys) (omega arith))

take-append_long : (n : ℕ) (xs ys : Bytes) → n ≤ length xs → take n (xs ++ ys) ≡ take n xs
take-append_long zero xs ys h = refl
take-append_long (suc n) [] ys h = absurd (omega arith)
take-append_long (suc n) (x ∷ xs) ys h = ap (λ l. x ∷ l) (take-append_long n xs ys (omega arith))

-- The writer holds the first bytes of `all`, and its flag says whether there were more.
pub record Holds (limit : ℕ) (w : LimitedWriter) (all : Bytes) : Type 0 where
  pub same_limit : w.limit ≡ limit
  pub kept : w.buf ≡ take limit all
  pub flag : w.truncated ≡ ltb limit (length all)

length-pos : (p : Bytes) → p ≢ [] → 0 < length p
length-pos [] h = absurd (h refl)
length-pos (c ∷ p) h = omega arith

take_nil : (n : ℕ) → [] ≡ take {A = ℕ} n []
take_nil zero = refl
take_nil (suc n) = refl

-- A writer below its limit holds all that was written.
module _ (limit : ℕ) (w : LimitedWriter) (all p : Bytes) (filled : p ≢ [])
    (h : Holds limit w all) where
  room : length w.buf ≡ min limit (length all)
  room = rw h.kept (length-take limit all)

  write_full : limit ≤ length all → Holds limit (write w p).0 (all ++ p)
  unfolding write
  write_full full = ground (
    arith,
    room,
    h.same_limit,
    h.kept,
    take-append_long limit all p full,
    length-append all p,
    length-pos p filled,
  )

  write_short : length all < limit → Holds limit (write w p).0 (all ++ p)
  unfolding write
  write_short short = ground (
    arith,
    room,
    h.same_limit,
    h.kept,
    h.flag,
    take-append_short limit all p,
    take_all limit all,
    take_all limit (all ++ p),
    take_all (limit - length all) p,
    length-append all p,
  )

  write-Holds : Holds limit (write w p).0 (all ++ p)
  write-Holds = elim (dec_lt (length all) limit) [
    | yes short ↦ write_short short
    | no full ↦ write_full (omega arith)
  ]

write_all-Holds :
    (limit : ℕ) (w : LimitedWriter) (all : Bytes) (parts : List Bytes)
    → All (λ p. p ≢ []) parts
    → Holds limit w all
    → Holds limit (write_all w parts) (all ++ flatten parts)
unfolding write_all flatten
write_all-Holds limit w all [] _ h = rw append-nil h
write_all-Holds limit w all (p ∷ ps) (filled, rest) h =
    rw (← append_assoc all p (flatten ps))
      (write_all-Holds limit (write w p).0 (all ++ p) ps rest (write-Holds limit w all p filled h))

-- However the output of a command is cut into writes that are not empty, the buffer holds the first
-- `limit` bytes of the whole output, and the writer counts as truncated exactly when there were more.
pub write_all_lem :
    (limit : ℕ) (parts : List Bytes)
    → All (λ p. p ≢ []) parts
    → ((write_all (empty_writer limit) parts).buf ≡ take limit (flatten parts))
      × ((write_all (empty_writer limit) parts).truncated ≡ ltb limit (length (flatten parts)))
write_all_lem limit parts filled =
    let h =
      write_all-Holds limit (empty_writer limit) [] parts filled
        (record { same_limit = refl; kept = take_nil limit; flag = ground arith }) in
    (h.kept, h.flag)

-- Every write reports all of its bytes as written, so that the command that writes never stops.
pub write_accepts : (w : LimitedWriter) (p : Bytes) → (write w p).1 ≡ length p
unfolding write
write_accepts w p = ground arith
