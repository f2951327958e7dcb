-- ===== src/Prelude/Invariants.antt =====
-- What a stateful step leaves true of the state, with a rule for each way to build a step.
use mathlib.Core.Path.{◌≡◌, refl, ap, ◌∙◌, subst}
use mathlib.Core.Bool.{Bool, true, false}
use aetheria.Prelude.Tests.{if◌then◌else◌}
use aetheria.Prelude.Results.{Result, ok, err, Exec, pure, raise, continue, ◌>>=◌, bind-ok}

-- Whether `m` returns or fails, the state that it leaves satisfies `P` if the first one did.
pub record Preserves {ℓ} {S E A : Type ℓ} (P : S → Type ℓ) (m : Exec S E A) : Type ℓ where
  pub after : (s : S) → P s → P (m s).1

module _ {ℓ} {S E A : Type ℓ} {P : S → Type ℓ} where
  pub Preserves-pure : (a : A) → Preserves {E = E} P (pure a)
  Preserves-pure a = record { after = λ s h. h }

  pub Preserves-raise : (e : E) → Preserves {A = A} P (raise e)
  Preserves-raise e = record { after = λ s h. h }

module _ {ℓ} {S E A B : Type ℓ} {P : S → Type ℓ} where
  continue_after :
      (r : Result E A) (f : A → Exec S E B) (s : S)
      → ((a : A) → Preserves P (f a))
      → P s
      → P (continue r f s).1
  continue_after (ok a) f s keep h = (keep a).after s h
  continue_after (err e) f s keep h = h

  pub Preserves-bind :
      (m : Exec S E A) (f : A → Exec S E B)
      → Preserves P m
      → ((a : A) → Preserves P (f a))
      → Preserves P (m >>= f)
  Preserves-bind m f first rest = record {
    after = λ s h. continue_after (m s).0 f (m s).1 rest (first.after s h);
  }

pub ruleset preserves_rules = (Preserves-pure, Preserves-raise, Preserves-bind)

-- Every value that `m` returns without an error satisfies `P`.
pub record Returns {ℓ} {S E A : Type ℓ} (P : A → Type ℓ) (m : Exec S E A) : Type ℓ where
  pub value : (s : S) (a : A) → (m s).0 ≡ ok a → P a

ok-injective {ℓ} : {E A : Type ℓ} {a b : A} → ◌≡◌ {A = Result E A} (ok a) (ok b) → a ≡ b
ok-injective h = cc

module _ {ℓ} {S E A : Type ℓ} {P : A → Type ℓ} where
  pub Returns-pure : (a : A) → P a → Returns {S = S} {E = E} P (pure a)
  Returns-pure a h = record { value = λ s b e. subst P (ok-injective e) h }

module _ {ℓ} {S E A B : Type ℓ} {P : B → Type ℓ} where
  continue_value :
      (r : Result E A) (f : A → Exec S E B) (s : S) (b : B)
      → ((a : A) → Returns P (f a))
      → (continue r f s).0 ≡ ok b
      → P b
  continue_value (ok a) f s b rest e = (rest a).value s b e
  continue_value (err x) f s b rest e = cc

  pub Returns-bind :
      (m : Exec S E A) (f : A → Exec S E B) → ((a : A) → Returns P (f a)) → Returns P (m >>= f)
  Returns-bind m f rest = record { value = λ s b e. continue_value (m s).0 f (m s).1 b rest e }

pub ruleset returns_rules = (Returns-pure, Returns-bind)

-- Where `m` returns without an error, the state that it leaves satisfies `P`.
pub record Ensures {ℓ} {S E A : Type ℓ} (P : S → Type ℓ) (m : Exec S E A) : Type ℓ where
  pub result : (s : S) (a : A) → (m s).0 ≡ ok a → P (m s).1

module _ {ℓ} {S E A B : Type ℓ} {P : S → Type ℓ} where
  continue_result :
      (r : Result E A) (f : A → Exec S E B) (s : S) (b : B)
      → ((a : A) → Ensures P (f a))
      → (continue r f s).0 ≡ ok b
      → P (continue r f s).1
  continue_result (ok a) f s b rest h = (rest a).result s b h
  continue_result (err e) f s b rest h = cc h

  -- The last step of a chain ensures what the chain does.
  pub Ensures-bind :
      (m : Exec S E A) (f : A → Exec S E B) → ((a : A) → Ensures P (f a)) → Ensures P (m >>= f)
  Ensures-bind m f rest = record { result = λ s b h. continue_result (m s).0 f (m s).1 b rest h }

-- Where `m` returns without an error, it takes a view of the state through `f`.
pub record Takes {ℓ} {S E A : Type ℓ} {X : Type ℓ} (view : S → X) (f : X → X) (m : Exec S E A)
    : Type ℓ where
  pub through : (s : S) (a : A) → (m s).0 ≡ ok a → view (m s).1 ≡ f (view s)

module _ {ℓ} {S E A : Type ℓ} {X : Type ℓ} {view : S → X} where
  pub Takes-pure : (a : A) → Takes {E = E} view (λ x. x) (pure a)
  Takes-pure a = record { through = λ s b h. refl }

  pub Takes-raise : (e : E) (f : X → X) → Takes {A = A} view f (raise e)
  Takes-raise e f = record { through = λ s b h. cc h }

  pub Takes-ext :
      (f g : X → X) (m : Exec S E A) → ((x : X) → f x ≡ g x) → Takes view f m → Takes view g m
  Takes-ext f g m same h = record { through = λ s a e. h.through s a e ∙ same (view s) }

  pub Takes-if :
      (b : Bool) (f g : X → X) (m n : Exec S E A)
      → Takes view f m
      → Takes view g n
      → Takes view (if b then f else g) (if b then m else n)
  Takes-if true f g m n hm hn = hm
  Takes-if false f g m n hm hn = hn

module _ {ℓ} {S E A B : Type ℓ} {X : Type ℓ} {view : S → X} where
  continue_through :
      (r : Result E A) (n : A → Exec S E B) (g : X → X) (s : S) (b : B)
      → ((a : A) → Takes view g (n a))
      → (continue r n s).0 ≡ ok b
      → view (continue r n s).1 ≡ g (view s)
  continue_through (ok a) n g s b rest h = (rest a).through s b h
  continue_through (err e) n g s b rest h = cc h

  pub Takes-bind :
      (m : Exec S E A) (n : A → Exec S E B) (f g : X → X)
      → Takes view f m
      → ((a : A) → Takes view g (n a))
      → Takes view (λ x. g (f x)) (m >>= n)
  Takes-bind m n f g first rest = record {
    through = λ s b h.
        let (a, first_ok, _) = bind-ok m n s b h in
        continue_through (m s).0 n g (m s).1 b rest h ∙ ap g (first.through s a first_ok);
  }

-- Where `m` fails, the state that it leaves satisfies `P` if the first one did.
pub record PreservesFailed {ℓ} {S E A : Type ℓ} (P : S → Type ℓ) (m : Exec S E A) : Type ℓ where
  pub failed : (s : S) (e : E) → P s → (m s).0 ≡ err e → P (m s).1

module _ {ℓ} {S E A B : Type ℓ} {P : S → Type ℓ} where
  continue_failed :
      (r : Result E A) (f : A → Exec S E B) (s : S) (e : E)
      → ((a : A) → PreservesFailed P (f a))
      → P s
      → (continue r f s).0 ≡ err e
      → P (continue r f s).1
  continue_failed (ok a) f s e rest p h = (rest a).failed s e p h
  continue_failed (err x) f s e rest p h = p

  pub PreservesFailed-bind :
      (m : Exec S E A) (f : A → Exec S E B)
      → Preserves P m
      → ((a : A) → PreservesFailed P (f a))
      → PreservesFailed P (m >>= f)
  PreservesFailed-bind m f first rest = record {
    failed = λ s e p h. continue_failed (m s).0 f (m s).1 e rest (first.after s p) h;
  }

-- Where `m` returns a value, `R` holds of it and of the state that it leaves.
pub record Gives {ℓ} {S E A : Type ℓ} (R : A → S → Type ℓ) (m : Exec S E A) : Type ℓ where
  pub given : (s : S) (a : A) → (m s).0 ≡ ok a → R a (m s).1

module _ {ℓ} {S E A : Type ℓ} {R : A → S → Type ℓ} where
  pub Gives-pure : (a : A) → ((s : S) → R a s) → Gives {E = E} R (pure a)
  Gives-pure a h = record { given = λ s b e. subst (λ c. R c s) (ok-injective e) (h s) }

  pub Gives-raise : (e : E) → Gives R (raise e)
  Gives-raise e = record { given = λ s a h. cc h }

  pub Gives-if :
      (b : Bool) (m n : Exec S E A) → Gives R m → Gives R n → Gives R (if b then m else n)
  Gives-if true m n hm hn = hm
  Gives-if false m n hm hn = hn

module _ {ℓ} {S E A B : Type ℓ} {R : B → S → Type ℓ} where
  continue_given :
      (r : Result E A) (f : A → Exec S E B) (s : S) (b : B)
      → ((a : A) → Gives R (f a))
      → (continue r f s).0 ≡ ok b
      → R b (continue r f s).1
  continue_given (ok a) f s b rest h = (rest a).given s b h
  continue_given (err e) f s b rest h = cc h

  pub Gives-bind :
      (m : Exec S E A) (f : A → Exec S E B) → ((a : A) → Gives R (f a)) → Gives R (m >>= f)
  Gives-bind m f rest = record { given = λ s b h. continue_given (m s).0 f (m s).1 b rest h }

pub ruleset gives_rules = (Gives-raise, Gives-if, Gives-bind)
