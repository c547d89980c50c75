-- ===== src/Http/Replies.antt =====
-- The replies of the handlers of internal/authz/http.go, and handlers as steps that may reply early.
use kiban.Shared.{ℕ, String, Bool, true, false, Option, none, some, ◌≡◌, refl}
use kiban.Decision.Types.{Reason}

-- The status and code of an error reply, with what tells two replies of one code apart.
pub data Refusal : Type 0 where
  bad_request : Refusal
  validation_failed : Refusal
  denied : Reason → Refusal
  unavailable_reply : String → String → Refusal
  internal_error : Refusal

-- A reply: the count of a write that was made, or a refusal.
pub data Reply : Type 0 where
  accepted : ℕ → Reply
  replied : Refusal → Reply

-- A part of a handler: an early reply, with the denial that it audits, or a value to go on with.
pub data Step {ℓ} (A : Type ℓ) : Type ℓ where
  reply_with : Refusal → Option (String × Reason) → Step A
  go_on : A → Step A

infixl 5 ◌>>=◌ ◌>>◌
abbrev pub ◌>>=◌ {ℓ κ} : {A : Type ℓ} {B : Type κ} → Step A → (A → Step B) → Step B
reply_with r audit >>= f = reply_with r audit
go_on a >>= f = f a

abbrev pub ◌>>◌ {ℓ κ} : {A : Type ℓ} {B : Type κ} → Step A → Step B → Step B
step >> f = step >>= λ _. f

-- A reply that audits nothing.
abbrev pub refuse {ℓ} : {A : Type ℓ} → Refusal → Step A
refuse r = reply_with r none

abbrev pub require : Bool → Refusal → Step (Unit {0})
require true r = go_on tt
require false r = refuse r

-- `if err != nil { writeDecision(…DependencyUnavailable…) }`
abbrev pub answer_of {ℓ} : {A : Type ℓ} → Option A → String → String → Step A
answer_of none dependency step = refuse (unavailable_reply dependency step)
answer_of (some a) dependency step = go_on a

pub step-go_on {ℓ κ} :
    {A : Type ℓ} {B : Type κ} {b : B} (step : Step A) (f : A → Step B)
    → (step >>= f) ≡ go_on b
    → (a : A) × (step ≡ go_on a) × (f a ≡ go_on b)
step-go_on (reply_with r audit) f h = cc h
step-go_on (go_on a) f h = (a, refl, h)

pub require-go_on :
    {B : Type 0} {b : B} (t : Bool) (r : Refusal) (f : Step B)
    → (require t r >> f) ≡ go_on b
    → (t ≡ true) × (f ≡ go_on b)
require-go_on true r f h = (refl, h)
require-go_on false r f h = cc h
