-- ===== src/Outcome.antt =====
-- How a run of the program's code ends, and postconditions on it.
use xmachine.Base.{◌≡◌, ◌≢◌, refl, subst}

-- `blocked` waits for a reply that no device gives; the other two are undefined in C.
pub data Outcome (A : Type 0) : Type 0 where
  done : A → Outcome A
  blocked : Outcome A
  null_pointer : Outcome A
  out_of_bounds : Outcome A

infixl 5 ◌>>=◌ ◌>>◌
abbrev pub ◌>>=◌ : {A B : Type 0} → Outcome A → (A → Outcome B) → Outcome B
done a >>= k = k a
blocked >>= k = blocked
null_pointer >>= k = null_pointer
out_of_bounds >>= k = out_of_bounds

abbrev pub ◌>>◌ : {A B : Type 0} → Outcome A → Outcome B → Outcome B
m >> n = m >>= λ _. n

-- The code ran without an undefined access, and `P` holds of its result if it returned.
pub data Safe {A : Type 0} (P : A → Type 0) : Outcome A → Type 0 where
  returns : {a : A} → P a → Safe P (done a)
  waits : Safe P blocked

module _ {A : Type 0} {P : A → Type 0} where
  pub Safe-bind :
      {B : Type 0} {Q : B → Type 0} {o : Outcome A} {k : A → Outcome B}
      → Safe P o
      → ((a : A) → P a → Safe Q (k a))
      → Safe Q (o >>= k)
  Safe-bind (returns {a} h) next = next a h
  Safe-bind waits next = waits

  pub Safe-mono : {Q : A → Type 0} {o : Outcome A} → Safe P o → ((a : A) → P a → Q a) → Safe Q o
  Safe-mono (returns {a} h) weaken = returns (weaken a h)
  Safe-mono waits weaken = waits

  pub Safe-done : {o : Outcome A} {a : A} → Safe P o → o ≡ done a → P a
  Safe-done (returns h) e = subst P (cc) h
  Safe-done waits e = absurd (cc)

  pub Safe-null_pointer : {o : Outcome A} → Safe P o → o ≢ null_pointer
  Safe-null_pointer (returns h) e = cc
  Safe-null_pointer waits e = cc

  pub Safe-out_of_bounds : {o : Outcome A} → Safe P o → o ≢ out_of_bounds
  Safe-out_of_bounds (returns h) e = cc
  Safe-out_of_bounds waits e = cc

-- The code returned, and `P` holds of its result.
pub data Ends {A : Type 0} (P : A → Type 0) : Outcome A → Type 0 where
  ends : {a : A} → P a → Ends P (done a)

pub Ends-bind :
    {A B : Type 0} {P : A → Type 0} {Q : B → Type 0} {o : Outcome A} {k : A → Outcome B}
    → Ends P o
    → ((a : A) → P a → Ends Q (k a))
    → Ends Q (o >>= k)
Ends-bind (ends {a} h) next = next a h

pub Ends-done :
    {A : Type 0} {P : A → Type 0} {o : Outcome A} → Ends P o → (a : A) × (o ≡ done a) × P a
Ends-done (ends {a} h) = (a, refl, h)
