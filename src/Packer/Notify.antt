-- ===== src/Packer/Notify.antt =====
-- `unpack` and the handler: what is handed on, and how often.
use csae.Prelude.{
  ℕ, ◌≡◌, refl, Bool, true, false, Option, none, some, List, if◌then◌else◌, Run, ok, fault, bind,
}
use mathlib.Core.Path.{subst}
use csae.Memory.Buffer.{Buffer}
use csae.Packer.{AnyMessage, Handler, Storage, notify, deliver, unpack_state, unpack_type, unpack}

module _ {S : Type 0} (handler : Option (Handler S)) (s : S) where
  -- The handler's state when it is told of the message that is returned, once, and of nothing else.
  abbrev pub told : Option AnyMessage → S
  told none = s
  told (some m) = notify handler m s

  abbrev Outcome : Run (Option AnyMessage × S) → Type 0
  Outcome (ok (r, after)) = after ≡ told r
  Outcome fault = Unit

  record Told (r : Run (Option AnyMessage × S)) : Type 0 where
    outcome : Outcome r

  none-Told : Told (ok (none, s))
  none-Told = record { outcome = refl }

  deliver-Told :
      {A : Type 0} (wrap : A → AnyMessage) (r : Run (A × ℕ)) → Told (deliver handler s wrap r)
  deliver-Told wrap (ok p) = record { outcome = refl }
  deliver-Told wrap fault = record { outcome = tt }

  if-Told :
      {x y : Run (Option AnyMessage × S)} (b : Bool) → Told x → Told y → Told (if b then x else y)
  if-Told true hx hy = hx
  if-Told false hx hy = hy

  bind-Told :
      {A : Type 0} (r : Run A) (f : A → Run (Option AnyMessage × S))
      → ((a : A) → Told (f a))
      → Told (bind r f)
  bind-Told (ok a) f h = h a
  bind-Told fault f h = record { outcome = tt }

  unpack_state-Told :
      (raw : Storage) (buf : List ℕ) (size version : ℕ)
      → Told (unpack_state raw buf size handler s version)
  unfolding unpack_state
  unpack_state-Told raw buf size version = search (if-Told, deliver-Told, none-Told)

  unpack_type-Told :
      (raw : Storage) (buf : List ℕ) (size data_type : ℕ)
      → Told (unpack_type raw buf size handler s data_type)
  unfolding unpack_type
  unpack_type-Told raw buf size data_type =
      search (if-Told, deliver-Told, bind-Told, unpack_state-Told, none-Told) depth 12

  unpack-Told : (raw : Storage) (buf : Buffer) (size : ℕ) → Told (unpack raw buf size handler s)
  unfolding unpack
  unpack-Told raw none size = none-Told
  unpack-Told raw (some buf) size = search (if-Told, bind-Told, unpack_type-Told, none-Told)

  -- If `unpack` returns, then without a message the state of the handler is unchanged, and with a
  -- message it is the state after one call of the handler with that message; this holds for every
  -- buffer, size and storage, with a handler and without one.
  pub unpack-told :
      (raw : Storage) (buf : Buffer) (size : ℕ) (r : Option AnyMessage) (after : S)
      → unpack raw buf size handler s ≡ ok (r, after)
      → after ≡ told r
  unpack-told raw buf size r after e = (subst Told e (unpack-Told raw buf size)).outcome
