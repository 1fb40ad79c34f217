-- ===== src/Base/Throwing.antt =====
-- The result of code that may throw: a value, or the error that was thrown.
use mathlib.Core.Path.{◌≡◌, refl}
use mathlib.Core.Logic.{◌⊎◌, inl, inr}
use mathlib.Core.Bool.{Bool, true, false}

-- One constructor for each `throw` (TypeScript) or `VaultError` (the program) that is modelled.
pub data Fault : Type 0 where
  compact_negative : Fault
  out_of_bounds : Fault
  bn_too_long : Fault
  commitment_amount_missing : Fault
  invalid_clearing_round_message : Fault
  invalid_message_domain : Fault
  invalid_commitment_message : Fault
  self_channel : Fault
  pair_mismatch : Fault
  slot_not_initialized : Fault
  account_too_short : Fault
  bad_discriminator : Fault
  bucket_id_mismatch : Fault
  token_mismatch : Fault
  participant_not_initialized : Fault
  too_few_participants : Fault
  too_few_channels : Fault
  too_many_channels : Fault
  missing_pair : Fault
  uninitialized_strategy : Fault
  no_executable_candidate : Fault
  bad_hex : Fault
  out_of_range : Fault
  undefined_value : Fault
  missing_edge : Fault
  missing_payee : Fault
  missing_block : Fault
  unsafe_number : Fault
  ring_too_short : Fault
  nothing_submitted : Fault
  participant_not_found : Fault
  participant_bls_key_not_found : Fault
  account_bls_key_mismatch : Fault
  commitment_amount_must_increase : Fault
  math_overflow : Fault
  insufficient_balance : Fault
  too_many_token_balances : Fault
  channel_not_initialized : Fault
  token_not_found : Fault
  value_out_of_range : Fault
  invalid_ed25519_data : Fault
  account_id_mismatch : Fault

pub data Outcome {ℓ} (A : Type ℓ) : Type ℓ where
  ok : A → Outcome A
  throw : Fault → Outcome A

-- Code goes on with a value, and a fault ends it.
infixl 5 ◌>>=◌
abbrev pub ◌>>=◌ {ℓ κ} : {A : Type ℓ} {B : Type κ} → Outcome A → (A → Outcome B) → Outcome B
throw fault >>= next = throw fault
ok value >>= next = next value

-- `if (!test) throw …`, `require!(test, …)`.
abbrev pub require : Bool → Fault → Outcome (Unit {0})
require test fault = elim test [ false ↦ throw fault | true ↦ ok tt ]

infixl 5 ◌>>◌
abbrev pub ◌>>◌ {ℓ} : {B : Type ℓ} → Outcome (Unit {0}) → Outcome B → Outcome B
test >> next = test >>= λ _. next

pub Outcome-cases {ℓ} :
    {A : Type ℓ} (r : Outcome A) → ((a : A) × (r ≡ ok a)) ⊎ ((e : Fault) × (r ≡ throw e))
Outcome-cases (ok a) = inl (a, refl)
Outcome-cases (throw e) = inr (e, refl)

-- What is known when code that may throw did not throw.
pub bind-ok {ℓ κ} :
    {A : Type ℓ} {B : Type κ} (first : Outcome A) (next : A → Outcome B) (b : B)
    → (first >>= next) ≡ ok b
    → (a : A) × (first ≡ ok a) × (next a ≡ ok b)
bind-ok (ok a) next b h = (a, refl, h)
bind-ok (throw e) next b h = cc

pub require-ok {ℓ} :
    {B : Type ℓ} (test : Bool) (fault : Fault) (next : Outcome B) (b : B)
    → (require test fault >> next) ≡ ok b
    → (test ≡ true) × (next ≡ ok b)
require-ok true fault next b h = (refl, h)
require-ok false fault next b h = cc

-- The same, for a goal to prove from it.
pub from_bind {ℓ κ μ} :
    {A : Type ℓ} {B : Type κ} {P : Type μ} (first : Outcome A) (next : A → Outcome B) (b : B)
    → (first >>= next) ≡ ok b
    → ((a : A) → first ≡ ok a → next a ≡ ok b → P)
    → P
from_bind first next b h goal =
    let (a, is_first, rest) = bind-ok first next b h in goal a is_first rest

pub from_require {ℓ μ} :
    {B : Type ℓ} {P : Type μ} (test : Bool) (fault : Fault) (next : Outcome B) (b : B)
    → (require test fault >> next) ≡ ok b
    → (test ≡ true → next ≡ ok b → P)
    → P
from_require test fault next b h goal =
    let (holds, rest) = require-ok test fault next b h in goal holds rest

pub ok-injective {ℓ} : {A : Type ℓ} {a b : A} → ok a ≡ ok b → a ≡ b
ok-injective h = cc
