-- ===== src/Context/Keeps.antt =====
-- Invariants of the private data of a transport: what a call leaves behind when it returns, with a
-- rule for each way to build a call.
pub mod Arrays
use libtta.Base.{ℕ, ◌≡◌, refl, Bool, true, false, if◌then◌else◌, Option, none, some}
use libtta.Base.Run.{
  Outcome, ok, fault, stuck, M, pure, get, gets, when, or_fault, then_run, Returns, ◌>>=◌, ◌>>◌,
}
use libtta.Context.{Errno, State, Rc, set_errno, fail_with}
use libtta.Syscall.{
  Syscall, done, failed, Reading, bytes, as_rc, as_bytes, call, call_read, act, ask,
}

-- What holds of the data when the call has returned. A call that does not return leaves nothing.
abbrev pub Left : {D W A : Type 0} → (D → Type 0) → Outcome (A × State D W) → Type 0
Left P (ok (a, st)) = P st.backend_data
Left P fault = Unit
Left P stuck = Unit

-- The call keeps `P`.
pub record Keeps {D W A : Type 0} (P : D → Type 0) (m : M (State D W) A) : Type 0 where
  pub at : (st : State D W) → P st.backend_data → Left P (m st)

pub Left-then :
    {D W A B : Type 0} (P : D → Type 0) (o : Outcome (A × State D W)) (f : A → M (State D W) B)
    → Left P o
    → ((a : A) → Keeps P (f a))
    → Left P (then_run o f)
Left-then P (ok (a, st)) f h k = (k a).at st h
Left-then P fault f h k = tt
Left-then P stuck f h k = tt

pub Returns-Left :
    {D W A : Type 0} (P : D → Type 0) (o : Outcome (A × State D W))
    → Returns o (λ _ st. P st.backend_data)
    → Left P o
Returns-Left P (ok (a, st)) h = h
Returns-Left P fault h = absurd h
Returns-Left P stuck h = absurd h

module _ {D W A : Type 0} {P : D → Type 0} where
  pub Keeps-pure : (a : A) → Keeps {W = W} P (pure a)
  Keeps-pure a = record { at = λ st h. h }

  pub Keeps-gets : (f : State D W → A) → Keeps P (gets f)
  Keeps-gets f = record { at = λ st h. h }

  pub Keeps-fault : Keeps {W = W} {A = A} P (λ st. fault)
  Keeps-fault = record { at = λ st h. tt }

  pub Keeps-stuck : Keeps {W = W} {A = A} P (λ st. stuck)
  Keeps-stuck = record { at = λ st h. tt }

  pub Keeps-or_fault : (o : Option A) → Keeps {W = W} P (or_fault o)
  Keeps-or_fault none = record { at = λ st h. tt }
  Keeps-or_fault (some a) = record { at = λ st h. h }

  pub Keeps-ask : (f : W → A × W) → Keeps P (ask f)
  Keeps-ask f = record { at = λ st h. h }

  pub Keeps-if :
      (b : Bool) (m n : M (State D W) A) → Keeps P m → Keeps P n → Keeps P (if b then m else n)
  Keeps-if true m n km kn = km
  Keeps-if false m n km kn = kn

  pub Keeps-unless :
      (b : Bool) (m n : M (State D W) A)
      → Keeps P m
      → Keeps P n
      → Keeps P (elim b [ false ↦ m | true ↦ n ])
  Keeps-unless false m n km kn = km
  Keeps-unless true m n km kn = kn

module _ {D W A B : Type 0} {P : D → Type 0} where
  pub Keeps-next :
      (m : M (State D W) A) (k : M (State D W) B) → Keeps P m → Keeps P k → Keeps P (m >> k)
  Keeps-next m k km kk = record { at = λ st h. Left-then P (m st) (λ _. k) (km.at st h) (λ _. kk) }

  pub Keeps-bind :
      (m : M (State D W) A) (f : A → M (State D W) B)
      → Keeps P m
      → ((a : A) → Keeps P (f a))
      → Keeps P (m >>= f)
  Keeps-bind m f km kf = record { at = λ st h. Left-then P (m st) f (km.at st h) kf }

module _ {D W A B : Type 0} {P : D → Type 0} where
  pub Keeps-given :
      (o : Option A) (m : M (State D W) B) (f : A → M (State D W) B)
      → Keeps P m
      → ((a : A) → Keeps P (f a))
      → Keeps P (elim o [ none ↦ m | some a ↦ f a ])
  Keeps-given none m f km kf = km
  Keeps-given (some a) m f km kf = kf a

  -- A call that returns a code, and what follows on -1 and on any other.
  pub Keeps-cases :
      (m : M (State D W) (Option A)) (f : Option A → M (State D W) B)
      → Keeps P m
      → Keeps P (f none)
      → ((a : A) → Keeps P (f (some a)))
      → Keeps P (m >>= f)
  Keeps-cases m f km kn ks = Keeps-bind m f km both
    where
      both : (o : Option A) → Keeps P (f o)
      both none = kn
      both (some a) = ks a

module _ {D W A B : Type 0} {P : D → Type 0} where
  -- A code that comes with more.
  pub Keeps-coded :
      (m : M (State D W) (Rc × A)) (f : Rc × A → M (State D W) B)
      → Keeps P m
      → ((a : A) → Keeps P (f (none, a)))
      → ((n : ℕ) (a : A) → Keeps P (f (some n, a)))
      → Keeps P (m >>= f)
  Keeps-coded m f km kn ks = Keeps-bind m f km both
    where
      both : (r : Rc × A) → Keeps P (f r)
      both (none, a) = kn a
      both (some n, a) = ks n a

module _ {D W B : Type 0} {P : D → Type 0} where
  pub Keeps-test :
      (m : M (State D W) Bool) (f : Bool → M (State D W) B)
      → Keeps P m
      → Keeps P (f true)
      → Keeps P (f false)
      → Keeps P (m >>= f)
  Keeps-test m f km kt kf = Keeps-bind m f km both
    where
      both : (b : Bool) → Keeps P (f b)
      both true = kt
      both false = kf

as_rc-Left :
    {D W : Type 0} (P : D → Type 0) (r : Syscall × W) (st : State D W)
    → P st.backend_data
    → Left P (as_rc r st)
as_rc-Left P (done n, w) st h = h
as_rc-Left P (failed e, w) st h = h

as_bytes-Left :
    {D W : Type 0} (P : D → Type 0) (r : Reading × W) (st : State D W)
    → P st.backend_data
    → Left P (as_bytes r st)
as_bytes-Left P (bytes bs, w) st h = h
as_bytes-Left P (Reading.failed e, w) st h = h

module _ {D W : Type 0} {P : D → Type 0} where
  pub Keeps-get : Keeps {W = W} P get
  Keeps-get = record { at = λ st h. h }

  pub Keeps-when : (b : Bool) (m : M (State D W) (Unit {0})) → Keeps P m → Keeps P (when b m)
  Keeps-when true m km = km
  Keeps-when false m km = Keeps-pure tt

  pub Keeps-set_errno : (e : Errno) → Keeps {W = W} P (set_errno e)
  Keeps-set_errno e = record { at = λ st h. h }

  pub Keeps-fail_with : (e : Errno) → Keeps {W = W} P (fail_with e)
  Keeps-fail_with e = record { at = λ st h. h }

  pub Keeps-act : (f : W → W) → Keeps P (act f)
  Keeps-act f = record { at = λ st h. h }

  pub Keeps-call : (f : W → Syscall × W) → Keeps P (call f)
  Keeps-call f = record { at = λ st h. as_rc-Left P (f st.world) st h }

  pub Keeps-call_read : (f : W → Reading × W) → Keeps P (call_read f)
  Keeps-call_read f = record { at = λ st h. as_bytes-Left P (f st.world) st h }

pub ruleset keeps_rules = (
  Keeps-pure, Keeps-gets, Keeps-get, Keeps-fault, Keeps-stuck, Keeps-or_fault, Keeps-ask, Keeps-if,
  Keeps-bind, Keeps-next, Keeps-cases, Keeps-when, Keeps-set_errno, Keeps-fail_with, Keeps-act,
  Keeps-call, Keeps-call_read,
)
