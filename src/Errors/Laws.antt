-- ===== src/Errors/Laws.antt =====
-- The texts of the error codes tell them apart.
use Prim.Native.String.{String}
use text.Mathlib.Text.{◌==◌}
use libtta.Base.{
  all_below, all_below_lem, ◌≢◌, ℕ, ◌<◌, ◌≤◌, ◌≡◌, refl, ap, sym, subst, ◌∙◌, Bool, true, Option,
  none, some, arith, ==_iff, if◌then◌else◌,
}
use native.Mathlib.Decide.{dec_lt}
use libtta.Base as Base
use libtta.Context.{Errno, emb}
use libtta.Errors.{text_of, tta_strerror}

-- The code that a text stands for.
unfoldable code_of : String → ℕ
code_of t =
    if t == "Illegal function"
    then 1
    else if t == "Illegal data address"
    then 2
    else if t == "Illegal data value"
    then 3
    else if t == "Slave device or server failure"
    then 4
    else if t == "Acknowledge"
    then 5
    else if t == "Slave device or server is busy"
    then 6
    else if t == "Negative acknowledge"
    then 7
    else if t == "Memory parity error"
    then 8
    else if t == "Gateway path unavailable"
    then 10
    else if t == "Target device failed to respond"
    then 11
    else if t == "Invalid CRC"
    then 12
    else if t == "Invalid data"
    then 13
    else if t == "Invalid exception code"
    then 14
    else if t == "Too many data"
    then 16
    else 17

is_right : Option String → ℕ → Bool
is_right none k = true
is_right (some t) k = Base.◌==◌ (code_of t) k

table : all_below 18 (λ k. is_right (text_of k) k) ≡ true
unfolding all_below is_right text_of code_of
table = refl

right :
    (k : ℕ) (t : String)
    → is_right (text_of k) k ≡ true
    → text_of k ≡ some t
    → Base.◌==◌ (code_of t) k ≡ true
unfolding is_right
right k t h e = subst (λ o. is_right o k ≡ true) e h

beyond : (k : ℕ) → ¬ (k < 18) → text_of k ≡ none
unfolding text_of
beyond k h = ground arith

none≢some : (t : String) → none ≢ some t
none≢some t h = cc

is_right_lem : (k : ℕ) (t : String) → text_of k ≡ some t → code_of t ≡ k
unfolding text_of
is_right_lem k t e = elim (dec_lt k 18) [
  | yes small ↦
      (==_iff (code_of t) k).0
        (right k t (all_below_lem 18 (λ k. is_right (text_of k) k) k table small) e)
  | no large ↦ absurd (none≢some t (sym (beyond k large) ∙ e))
]

-- No two codes have the same text.
pub text_of_inj : (k l : ℕ) (t : String) → text_of k ≡ some t → text_of l ≡ some t → k ≡ l
text_of_inj k l t p q = sym (is_right_lem k t p) ∙ is_right_lem l t q

own :
    (strerror : Errno → String) (k : ℕ) (t : String)
    → text_of k ≡ some t
    → tta_strerror strerror (emb k) ≡ t
unfolding tta_strerror
own strerror k t e = rw (e, tta_strerror) refl

-- Of two codes for which `tta_strerror` has a text of its own, the texts are the same only if the
-- codes are.
pub tta_strerror-inj :
    (strerror : Errno → String) (k l : ℕ) (s t : String)
    → text_of k ≡ some s
    → text_of l ≡ some t
    → tta_strerror strerror (emb k) ≡ tta_strerror strerror (emb l)
    → k ≡ l
tta_strerror-inj strerror k l s t p q e =
    let same : s ≡ t = sym (own strerror k s p) ∙ e ∙ own strerror l t q in
    text_of_inj k l t (p ∙ ap some same) q
