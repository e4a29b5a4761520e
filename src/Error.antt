-- ===== src/Error.antt =====
-- src/error.rs: the errors of the broker, and how a call ends. `err` is `Err` of its `Result`, `panic`
-- an `unwrap`, an `expect` or a checked overflow that fails. An action also carries the state on,
-- which keeps its changes after an error.
use mcloudtt.Prelude.{
  if◌then◌else◌, String, Option, none, some, Bool, true, false, ◌≡◌, refl, ◌⊎◌, inl, inr,
}

-- A foreign error value is represented by the text that it prints.
pub data MCloudError : Type 0 where
  topic_already_exists : String → MCloudError
  client_disconnected : String → MCloudError
  unexpected_client_disconnected : String → MCloudError
  client_error : String → MCloudError
  unknown_packet_type : MCloudError
  could_not_write_to_stream : String → MCloudError
  no_receivers_found : MCloudError
  io_error : String → MCloudError
  configuration_error : String → MCloudError
  decode_packet_error : String → MCloudError
  tracing_initializer_error : String → MCloudError
  mpsc_error : String → MCloudError
  redis_error : String → MCloudError

-- The errors of other crates that become a `MCloudError`.
pub data Foreign : Type 0 where
  io_failed config_failed parse_failed send_failed redis_failed : String → Foreign

-- `MCloudError::from`, which `?` applies.
abbrev pub from : Foreign → MCloudError
from (io_failed e) = io_error e
from (config_failed e) = configuration_error e
from (parse_failed e) = tracing_initializer_error e
from (send_failed e) = mpsc_error e
from (redis_failed e) = redis_error e

pub data Result {ℓ} (A : Type ℓ) : Type ℓ where
  ok : A → Result A
  err : MCloudError → Result A
  panic : Result A

abbrev pub Action : Type 0 → Type 0 → Type 0
Action S A = S → Result A × S

-- What follows a call that has ended.
abbrev pub continue : {S A B : Type 0} → Result A → (A → Action S B) → Action S B
continue (ok a) f s = f a s
continue (err e) f s = (err e, s)
continue panic f s = (panic, s)

infixl 5 ◌>>=◌ ◌>>◌
abbrev pub ◌>>=◌ : {S A B : Type 0} → Action S A → (A → Action S B) → Action S B
◌>>=◌ m f s = let (r, s') = m s in continue r f s'

abbrev pub ◌>>◌ : {S A B : Type 0} → Action S A → Action S B → Action S B
m >> k = m >>= λ _. k

module _ {S A : Type 0} where
  abbrev pub pure : A → Action S A
  pure a s = (ok a, s)

  abbrev pub fail : MCloudError → Action S A
  fail e s = (err e, s)

  abbrev pub gets : (S → A) → Action S A
  gets f s = (ok (f s), s)

  -- `Option::unwrap`
  abbrev pub unwrap : Option A → Action S A
  unwrap none s = (panic, s)
  unwrap (some a) s = (ok a, s)

  -- `let _ = e`: an `Err` is dropped, a panic is not.
  abbrev pub ignore : Action S A → Action S (Unit {0})
  ignore m s =
      let (r, s') = m s in elim r [ ok a ↦ (ok tt, s') | err e ↦ (ok tt, s') | panic ↦ (panic, s') ]

abbrev pub modify : {S : Type 0} → (S → S) → Action S (Unit {0})
modify f s = (ok tt, f s)

-- `Result::unwrap`
abbrev pub unwrap_result : {S A : Type 0} → Action S A → Action S A
unwrap_result m s =
    let (r, s') = m s in elim r [ ok a ↦ (ok a, s') | err e ↦ (panic, s') | panic ↦ (panic, s') ]

-- The call returned `Ok`.
abbrev pub is_ok {ℓ} : {A : Type ℓ} → Result A → Bool
is_ok (ok a) = true
is_ok (err e) = false
is_ok panic = false

-- The three ways to end.
pub Result-cases {ℓ} :
    {A : Type ℓ} (r : Result A)
    → ((a : A) × (r ≡ ok a)) ⊎ (((e : MCloudError) × (r ≡ err e)) ⊎ (r ≡ panic))
Result-cases (ok a) = inl (a, refl)
Result-cases (err e) = inr (inl (e, refl))
Result-cases panic = inr (inr refl)

-- An invariant that an action keeps, however it ends.
abbrev pub Preserves {κ} : {S A : Type 0} → (S → Type κ) → Action S A → Type κ
Preserves {S} I m = (s : S) → I s → I (m s).1

-- The rule for a bind: what has run so far keeps the invariant, and so does each way to go on.
pub continue-Preserves {κ} :
    {S A B : Type 0} (I : S → Type κ) (r : Result A) (f : A → Action S B) (s : S)
    → I s
    → ((a : A) → Preserves I (f a))
    → I (continue r f s).1
continue-Preserves I (ok a) f s i h = h a s i
continue-Preserves I (err e) f s i h = i
continue-Preserves I panic f s i h = i

module _ {κ} {S A B : Type 0} (I : S → Type κ) where
  pub >>=-Preserves :
      (m : Action S A) (f : A → Action S B)
      → Preserves I m
      → ((a : A) → Preserves I (f a))
      → Preserves I (m >>= f)
  >>=-Preserves m f hm hf s i = continue-Preserves I (m s).0 f (m s).1 (hm s i) hf

  pub >>-Preserves :
      (m : Action S A) (n : Action S B) → Preserves I m → Preserves I n → Preserves I (m >> n)
  >>-Preserves m n hm hn = >>=-Preserves m (λ _. n) hm (λ _. hn)

pub if-Preserves {κ} :
    {S A : Type 0} (I : S → Type κ) (b : Bool) (m n : Action S A)
    → Preserves I m
    → Preserves I n
    → Preserves I (if b then m else n)
if-Preserves I true m n hm hn = hm
if-Preserves I false m n hm hn = hn

module _ {κ} {S : Type 0} (A : Type 0) (I : S → Type κ) where
  pub fail-Preserves : (e : MCloudError) → Preserves I (fail {S = S} {A = A} e)
  fail-Preserves e s i = i

module _ {κ} {S A : Type 0} (I : S → Type κ) where
  pub pure-Preserves : (a : A) → Preserves I (pure {S = S} a)
  pure-Preserves a s i = i

  pub gets-Preserves : (f : S → A) → Preserves I (gets f)
  gets-Preserves f s i = i

  pub unwrap-Preserves : (o : Option A) → Preserves I (unwrap {S = S} o)
  unwrap-Preserves none s i = i
  unwrap-Preserves (some a) s i = i

-- A bind that returned: both of its parts did.
continue-eq-ok :
    {S A B : Type 0} (x : Result A × S) (f : A → Action S B) (b : B) (s' : S)
    → continue x.0 f x.1 ≡ (ok b, s')
    → (a : A) × (s₁ : S) × (x ≡ (ok a, s₁)) × (f a s₁ ≡ (ok b, s'))
continue-eq-ok (ok a, s₁) f b s' e = (a, s₁, refl, e)
continue-eq-ok (err x, s₁) f b s' e = cc
continue-eq-ok (panic, s₁) f b s' e = cc

pub >>=-eq-ok :
    {S A B : Type 0} (m : Action S A) (f : A → Action S B) (s : S) (b : B) (s' : S)
    → (m >>= f) s ≡ (ok b, s')
    → (a : A) × (s₁ : S) × (m s ≡ (ok a, s₁)) × (f a s₁ ≡ (ok b, s'))
>>=-eq-ok m f s b s' e = continue-eq-ok (m s) f b s' e

pub ok-injective : {A : Type 0} (a b : A) → ◌≡◌ {A = Result A} (ok a) (ok b) → a ≡ b
ok-injective a b e = cc
