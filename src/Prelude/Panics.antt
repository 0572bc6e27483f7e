-- ===== src/Prelude/Panics.antt =====
-- Kernel code that may call `panic` returns an outcome: its result, or the message; or it is `blocked`,
-- asleep until another process acts.
use Prim.Native.String.{String}
use mathlib.Core.Path.{◌≡◌, refl, subst}
use mathlib.Core.Option.{Option, none, some}
use mathlib.Core.Bool.{Bool, true, false}
use os_homework_from_ykf.Prelude.Tests.{if◌then◌else◌}

pub data Outcome {ℓ} (A : Type ℓ) : Type ℓ where
  ok : A → Outcome A
  panic : String → Outcome A
  blocked : Outcome A

infixl 5 ◌>>=◌ ◌>>◌
abbrev pub ◌>>=◌ {ℓ κ} : {A : Type ℓ} {B : Type κ} → Outcome A → (A → Outcome B) → Outcome B
ok a >>= f = f a
panic e >>= f = panic e
blocked >>= f = blocked

abbrev pub ◌>>◌ {ℓ} : {B : Type ℓ} → Outcome (Unit {0}) → Outcome B → Outcome B
m >> k = m >>= λ _. k

-- `if(b) panic(message);`
abbrev pub panic_if : Bool → String → Outcome (Unit {0})
panic_if true message = panic message
panic_if false message = ok tt

-- What holds of the result of code that returns.
pub data Ensures {ℓ κ} {A : Type ℓ} (P : A → Type κ) : Outcome A → Type (ℓ ⊔ κ) where
  gives : {a : A} → P a → Ensures P (ok a)
  panics : {e : String} → Ensures P (panic e)
  sleeps : Ensures P blocked

pub bind-Ensures {ℓ ι κ} :
    {A : Type ℓ} {B : Type ι} {Q : A → Type κ} {P : B → Type κ} {m : Outcome A} {f : A → Outcome B}
    → Ensures Q m
    → ((a : A) → Q a → Ensures P (f a))
    → Ensures P (m >>= f)
bind-Ensures (gives q) h = h _ q
bind-Ensures panics h = panics
bind-Ensures sleeps h = sleeps

pub map-Ensures {ℓ κ} :
    {A : Type ℓ} {Q P : A → Type κ} {m : Outcome A}
    → Ensures Q m
    → ((a : A) → Q a → P a)
    → Ensures P m
map-Ensures (gives q) h = gives (h _ q)
map-Ensures panics h = panics
map-Ensures sleeps h = sleeps

-- Where nothing is known of the first part's result
pub then-Ensures {ℓ ι κ} :
    {A : Type ℓ} {B : Type ι} {P : B → Type κ} (m : Outcome A) {f : A → Outcome B}
    → ((a : A) → Ensures P (f a))
    → Ensures P (m >>= f)
then-Ensures (ok a) h = h a
then-Ensures (panic e) h = panics
then-Ensures blocked h = sleeps

-- Where the first part is a guard
pub panic_if-Ensures {ℓ κ} :
    {B : Type ℓ} {P : B → Type κ} (b : Bool) (e : String) {m : Outcome B}
    → (b ≡ false → Ensures P m)
    → Ensures P (panic_if b e >> m)
panic_if-Ensures true e h = panics
panic_if-Ensures false e h = h refl

pub if-Ensures {ℓ κ} :
    {B : Type ℓ} {P : B → Type κ} (b : Bool) {m m' : Outcome B}
    → (b ≡ true → Ensures P m)
    → (b ≡ false → Ensures P m')
    → Ensures P (if b then m else m')
if-Ensures true h h' = h refl
if-Ensures false h h' = h' refl

pub Bool-Ensures {ℓ κ} :
    {B : Type ℓ} {P : B → Type κ} (b : Bool) {m m' : Outcome B}
    → Ensures P m
    → Ensures P m'
    → Ensures P (elim b [ true ↦ m | false ↦ m' ])
Bool-Ensures true h h' = h
Bool-Ensures false h h' = h'

pub Option-Ensures {ℓ ι κ} :
    {A : Type ℓ} {B : Type ι} {P : B → Type κ} (o : Option A) {m : Outcome B} {f : A → Outcome B}
    → (o ≡ none → Ensures P m)
    → ((a : A) → o ≡ some a → Ensures P (f a))
    → Ensures P (elim o [ none ↦ m | some a ↦ f a ])
Option-Ensures none h h' = h refl
Option-Ensures (some a) h h' = h' a refl

given {ℓ κ} : {A : Type ℓ} {P : A → Type κ} {a : A} → Ensures P (ok a) → P a
given (gives p) = p

pub Ensures-ok {ℓ κ} :
    {A : Type ℓ} {P : A → Type κ} {m : Outcome A} {a : A} → Ensures P m → m ≡ ok a → P a
Ensures-ok {P = P} h e = given (subst (Ensures P) e h)

pub ok-inj {ℓ} : {A : Type ℓ} {a b : A} → ◌≡◌ {A = Outcome A} (ok a) (ok b) → a ≡ b
ok-inj e = cc
