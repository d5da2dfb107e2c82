-- ===== src/Common/Results.antt =====
-- What a C++ function of the code returns: a value, an exception by its message, undefined
-- behaviour (a read outside the buffer), or, for a loop on fuel, no answer.
use mathlib.Core.Path.{◌≡◌, refl, subst}
use mathlib.Core.Bool.{Bool, true, false}

-- One constructor for each `std::runtime_error` message of dns_protocol, and the two exceptions of
-- `std::stoul`.
pub data Error : Type 0 where
  truncated_name truncated_pointer pointer_cycle truncated_label label_too_long : Error
  truncated_header truncated_question truncated_rr truncated_rdlen : Error
  truncated_mx truncated_soa : Error
  invalid_argument out_of_range : Error

pub data Result {ℓ} (Value : Type ℓ) : Type ℓ where
  out_of_bounds : Result Value
  out_of_fuel : Result Value
  throw : Error → Result Value
  ok : Value → Result Value

-- A call of code that is not looked into: what it returns, or that it throws.
pub data Called {ℓ} (Value : Type ℓ) : Type ℓ where
  returned : Value → Called Value
  thrown : Called Value

-- `if (failed) throw e;`
abbrev pub throw_if : Bool → Error → Result (Unit {0})
throw_if false e = ok tt
throw_if true e = throw e

-- One statement after another: what does not return normally is passed on.
infixl 5 ◌>>=◌
abbrev pub ◌>>=◌ {ℓ κ} : {V : Type ℓ} {W : Type κ} → Result V → (V → Result W) → Result W
out_of_bounds >>= rest = out_of_bounds
out_of_fuel >>= rest = out_of_fuel
throw e >>= rest = throw e
ok v >>= rest = rest v

infixl 5 ◌>>◌
abbrev pub ◌>>◌ {ℓ} : {W : Type ℓ} → Result (Unit {0}) → Result W → Result W
test >> next = test >>= λ _. next

-- A postcondition of what is returned normally, with no claim on an exception.
abbrev pub Ensures {ℓ} : {A : Type ℓ} → (A → Type 0) → Result A → Type 0
Ensures P (ok a) = P a
Ensures P (throw e) = Unit
Ensures P out_of_bounds = ⊥
Ensures P out_of_fuel = ⊥

-- Code that neither reads out of bounds nor runs out of fuel, and code that ends.
abbrev pub Answers {ℓ} : {A : Type ℓ} → Result A → Type 0
Answers m = Ensures (λ _. Unit {0}) m

abbrev pub Ends {ℓ} : {A : Type ℓ} → Result A → Type 0
Ends out_of_fuel = ⊥
Ends (ok a) = Unit
Ends (throw e) = Unit
Ends out_of_bounds = Unit

-- Code that returns normally, with a postcondition.
abbrev pub Gives {ℓ} : {A : Type ℓ} → (A → Type 0) → Result A → Type 0
Gives P (ok a) = P a
Gives P (throw e) = ⊥
Gives P out_of_bounds = ⊥
Gives P out_of_fuel = ⊥

abbrev pub Returns {ℓ} : {A : Type ℓ} → Result A → Type 0
Returns m = Gives (λ _. Unit {0}) m

pub Gives->>= {ℓ κ} :
    {A : Type ℓ} {B : Type κ} (P : A → Type 0) (Q : B → Type 0) (m : Result A) (f : A → Result B)
    → Gives P m
    → ((a : A) → P a → Gives Q (f a))
    → Gives Q (m >>= f)
Gives->>= P Q (ok a) f p k = k a p
Gives->>= P Q (throw e) f p k = absurd p
Gives->>= P Q out_of_bounds f p k = absurd p
Gives->>= P Q out_of_fuel f p k = absurd p

pub Answers-Ends {ℓ} : {A : Type ℓ} (m : Result A) → Answers m → Ends m
Answers-Ends (ok a) h = tt
Answers-Ends (throw e) h = tt
Answers-Ends out_of_bounds h = tt
Answers-Ends out_of_fuel h = h

pub Ends->>= {ℓ κ} :
    {A : Type ℓ} {B : Type κ} (m : Result A) (f : A → Result B)
    → Ends m
    → ((a : A) → Ends (f a))
    → Ends (m >>= f)
Ends->>= (ok a) f p k = k a
Ends->>= (throw e) f p k = tt
Ends->>= out_of_bounds f p k = tt
Ends->>= out_of_fuel f p k = p

pub Ends-throw_if : (b : Bool) (e : Error) → Ends (throw_if b e)
Ends-throw_if true e = tt
Ends-throw_if false e = tt

pub Ensures->>= {ℓ κ} :
    {A : Type ℓ} {B : Type κ} (P : A → Type 0) (Q : B → Type 0) (m : Result A) (f : A → Result B)
    → Ensures P m
    → ((a : A) → P a → Ensures Q (f a))
    → Ensures Q (m >>= f)
Ensures->>= P Q (ok a) f p k = k a p
Ensures->>= P Q (throw e) f p k = tt
Ensures->>= P Q out_of_bounds f p k = p
Ensures->>= P Q out_of_fuel f p k = p

pub Ensures-mono {ℓ} :
    {A : Type ℓ} (P Q : A → Type 0) (m : Result A)
    → ((a : A) → P a → Q a)
    → Ensures P m
    → Ensures Q m
Ensures-mono P Q (ok a) f h = f a h
Ensures-mono P Q (throw e) f h = tt
Ensures-mono P Q out_of_bounds f h = h
Ensures-mono P Q out_of_fuel f h = h

pub Ensures-ok {ℓ} :
    {A : Type ℓ} (P : A → Type 0) (m : Result A) {a : A} → Ensures P m → m ≡ ok a → P a
Ensures-ok P m h e = subst (Ensures P) e h

pub Ensures-Answers {ℓ} : {A : Type ℓ} (P : A → Type 0) (m : Result A) → Ensures P m → Answers m
Ensures-Answers P (ok a) h = tt
Ensures-Answers P (throw e) h = tt
Ensures-Answers P out_of_bounds h = h
Ensures-Answers P out_of_fuel h = h

pub Ensures-ne-fuel {ℓ} :
    {A : Type ℓ} (P : A → Type 0) (m : Result A) → Ensures P m → m ≡ out_of_fuel → ⊥
Ensures-ne-fuel P m h e = subst (Ensures P) e h

-- Inversion of a bind that returned normally.
pub >>=-eq-ok {ℓ κ} :
    {V : Type ℓ} {W : Type κ} (first : Result V) (rest : V → Result W) {w : W}
    → (first >>= rest) ≡ ok w
    → (v : V) × (first ≡ ok v) × (rest v ≡ ok w)
>>=-eq-ok out_of_bounds rest e = cc
>>=-eq-ok out_of_fuel rest e = cc
>>=-eq-ok (throw x) rest e = cc
>>=-eq-ok (ok v) rest e = (v, refl, e)
