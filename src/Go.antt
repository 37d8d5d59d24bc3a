-- ===== src/Go.antt =====
-- What a Go call can do: return, panic, or block for ever; channels, mutexes and early returns.
pub mod States
use eavesdrop.Prelude.{Option, none, some}

-- The errors that the engine's methods return, one for each place that makes one.
pub data GoError : Type 0 where
  not_ready prechecks_failed job_failed bad_observation_map encode_failed not_leader_signed :
      GoError

-- How a call ends: it returns nil or an error, it panics, or it waits for ever.
pub data Exit {ℓ} (S : Type ℓ) : Type ℓ where
  returned : Option GoError → S → Exit S
  panicked : S → Exit S
  blocked : S → Exit S

-- A step of a function's body: it goes on with a value, or the function ends here.
pub data Flow {ℓ} (S : Type ℓ) (A : Type ℓ) : Type ℓ where
  next : A → S → Flow S A
  exit : Exit S → Flow S A

abbrev pub Body {ℓ} : Type ℓ → Type ℓ → Type ℓ
Body S A = S → Flow S A

infixl 5 ◌>>=◌ ◌>>◌
abbrev pub ◌>>=◌ {ℓ} : {S A B : Type ℓ} → Body S A → (A → Body S B) → Body S B
◌>>=◌ m f s = elim (m s) [ next a s' ↦ f a s' | exit e ↦ exit e ]

abbrev pub ◌>>◌ {ℓ} : {S A B : Type ℓ} → Body S A → Body S B → Body S B
◌>>◌ m k s = elim (m s) [ next _ s' ↦ k s' | exit e ↦ exit e ]

module _ {ℓ} {S A : Type ℓ} where
  abbrev pub pure : A → Body S A
  pure a s = next a s

  -- `return err`, `return nil`
  abbrev pub give_back : Option GoError → Body S A
  give_back err s = exit (returned err s)

  abbrev pub panic : Body S A
  panic s = exit (panicked s)

  abbrev pub block : Body S A
  block s = exit (blocked s)

  -- A value, or what to do without it.
  abbrev pub or_else : Option A → Body S A → Body S A
  or_else none failing = failing
  or_else (some a) failing = pure a

abbrev pub gets {ℓ} : {S A : Type ℓ} → (S → A) → Body S A
gets f s = next (f s) s

abbrev pub modify {ℓ} : {S : Type ℓ} → (S → S) → Body S (Unit {ℓ})
modify f s = next tt (f s)

-- The end of a function body whose last statement has been reached.
abbrev pub finish {ℓ} : {S A : Type ℓ} → Flow S A → Exit S
finish (next _ s) = returned none s
finish (exit e) = e

-- A channel of Go: nil, made with nobody receiving, made with a goroutine that receives, or closed.
pub data Channel : Type 0 where
  nil_channel idle listened closed : Channel

-- `close(ch)`; `none` is the panic.
unfoldable pub close_channel : Channel → Option Channel
close_channel nil_channel = none
close_channel idle = some closed
close_channel listened = some closed
close_channel closed = none
