-- ===== src/Base/Run.antt =====
-- What a C call does: it returns, it makes an access that C leaves undefined, or its loop is
-- still running when the rounds given to it are used up. Stateful code is a function of the state
-- it finds into such an outcome.
use mathlib.Core.Path.{◌≡◌, refl, subst}
use mathlib.Core.Option.{Option, none, some}
use mathlib.Core.Bool.{Bool, true, false}
use libtta.Base.Tests.{if◌then◌else◌}

pub data Outcome (A : Type 0) : Type 0 where
  ok : A → Outcome A
  fault : Outcome A
  stuck : Outcome A

abbrev pub M : Type 0 → Type 0 → Type 0
M S A = S → Outcome (A × S)

abbrev pub pure : {S A : Type 0} → A → M S A
pure a s = ok (a, s)

abbrev pub then_run : {S A B : Type 0} → Outcome (A × S) → (A → M S B) → Outcome (B × S)
then_run (ok (a, s)) f = f a s
then_run fault f = fault
then_run stuck f = stuck

infixl 5 ◌>>=◌ ◌>>◌
abbrev pub ◌>>=◌ : {S A B : Type 0} → M S A → (A → M S B) → M S B
◌>>=◌ m f s = then_run (m s) f

abbrev pub ◌>>◌ : {S A B : Type 0} → M S A → M S B → M S B
◌>>◌ m k s = then_run (m s) (λ _. k)

abbrev pub get : {S : Type 0} → M S S
get s = ok (s, s)

abbrev pub gets : {S A : Type 0} → (S → A) → M S A
gets f s = ok (f s, s)

abbrev pub modify : {S : Type 0} → (S → S) → M S (Unit {0})
modify f s = ok (tt, f s)

abbrev pub when : {S : Type 0} → Bool → M S (Unit {0}) → M S (Unit {0})
when true m = m
when false m = pure tt

-- A read out of bounds is a fault.
abbrev pub or_fault : {S A : Type 0} → Option A → M S A
or_fault none s = fault
or_fault (some a) s = ok (a, s)

-- The call returns, and what it returns satisfies `P`.
abbrev pub Returns : {A S : Type 0} → Outcome (A × S) → (A → S → Type 0) → Type 0
Returns (ok (a, s)) P = P a s
Returns fault P = ⊥
Returns stuck P = ⊥

pub Returns-then :
    {A B S : Type 0} (Q : A → S → Type 0) (P : B → S → Type 0) (o : Outcome (A × S)) (f : A → M S B)
    → Returns o Q
    → ((a : A) (s : S) → Q a s → Returns (f a s) P)
    → Returns (then_run o f) P
Returns-then Q P (ok (a, s)) f h k = k a s h
Returns-then Q P fault f h k = absurd h
Returns-then Q P stuck f h k = absurd h

pub Returns-weaken :
    {A S : Type 0} (Q P : A → S → Type 0) (o : Outcome (A × S))
    → Returns o Q
    → ((a : A) (s : S) → Q a s → P a s)
    → Returns o P
Returns-weaken Q P (ok (a, s)) h k = k a s h
Returns-weaken Q P fault h k = absurd h
Returns-weaken Q P stuck h k = absurd h

-- The value that is returned, with the equation.
pub Returns-ok :
    {A S : Type 0} (P : A → S → Type 0) (o : Outcome (A × S))
    → Returns o P
    → (a : A) × (s : S) × (o ≡ ok (a, s)) × P a s
Returns-ok P (ok (a, s)) h = (a, s, refl, h)
Returns-ok P fault h = absurd h
Returns-ok P stuck h = absurd h

pub Returns-elim :
    {A S : Type 0} (P : A → S → Type 0) (o : Outcome (A × S)) {a : A} {s : S}
    → Returns o P
    → o ≡ ok (a, s)
    → P a s
Returns-elim P o h e = subst (λ o. Returns o P) e h

-- Both branches of a test meet the postcondition.
pub Returns-if :
    {A S : Type 0} (P : A → S → Type 0) (b : Bool) (m k : M S A) (s : S)
    → Returns (m s) P
    → Returns (k s) P
    → Returns ((if b then m else k) s) P
Returns-if P true m k s hm hk = hm
Returns-if P false m k s hm hk = hk

pub Returns-when :
    {S : Type 0} (P : Unit {0} → S → Type 0) (b : Bool) (m : M S (Unit {0})) (s : S)
    → Returns (m s) P
    → P tt s
    → Returns (when b m s) P
Returns-when P true m s hm hs = hm
Returns-when P false m s hm hs = hs

pub Returns-option :
    {A B S : Type 0} (P : B → S → Type 0) (o : Option A) (m : M S B) (k : A → M S B) (s : S)
    → Returns (m s) P
    → ((a : A) → Returns (k a s) P)
    → let both : M S B = elim o [ none ↦ m | some a ↦ k a ] in Returns (both s) P
Returns-option P none m k s hm hk = hm
Returns-option P (some a) m k s hm hk = hk a

-- The call returns.
abbrev pub Ends : {A S : Type 0} → Outcome (A × S) → Type 0
Ends o = Returns o (λ _ _. Unit)

pub then_run-ext :
    {S A B : Type 0} (o : Outcome (A × S)) (f g : A → M S B)
    → ((a : A) (s : S) → f a s ≡ g a s)
    → then_run o f ≡ then_run o g
then_run-ext (ok (a, s)) f g h = h a s
then_run-ext fault f g h = refl
then_run-ext stuck f g h = refl
