-- ===== src/Base/Monad.antt =====
-- Contract code as state passing with errors and termination. A Rust function that returns
-- `Result<A, E>` and may call the host is an `Exec S E A`: it ends with `ok`, with the `Err` that its
-- caller may handle, or by stopping the whole execution.
use mathlib.Core.Bool.{Bool, true, false}
use mathlib.Core.Option.{Option, none, some}
use mathlib.Core.Logic.{◌⊎◌, inl, inr}
use mathlib.Core.Path.{◌≡◌, refl, sym, ap, ◌∙◌}

-- How execution stops: `reverted` is `runtime::revert(error)`, `panicked` a Rust panic.
pub data Stop (E : Type 0) : Type 0 where
  reverted : E → Stop E
  panicked : Stop E

pub data Outcome (X E A : Type 0) : Type 0 where
  ok : A → Outcome X E A
  err : E → Outcome X E A
  stop : Stop X → Outcome X E A

-- `S` is the state, `X` the errors that reverts carry, `E` the errors of the function's `Result`.
abbrev pub Exec : Type 0 → Type 0 → Type 0 → Type 0 → Type 0
Exec S X E A = S → Outcome X E A × S

module _ {S X E : Type 0} where
  abbrev pub pure : {A : Type 0} → A → Exec S X E A
  pure a s = (ok a, s)

  abbrev pub throw : {A : Type 0} → E → Exec S X E A
  throw e s = (err e, s)

  abbrev pub revert : {A : Type 0} → X → Exec S X E A
  revert x s = (stop (reverted x), s)

  abbrev pub panic : {A : Type 0} → Exec S X E A
  panic s = (stop panicked, s)

  abbrev pub gets : {A : Type 0} → (S → A) → Exec S X E A
  gets f s = (ok (f s), s)

  abbrev pub modify : (S → S) → Exec S X E (Unit {0})
  modify f s = (ok tt, f s)

  infixl 5 ◌>>=◌ ◌>>◌
  abbrev pub ◌>>=◌ : {A B : Type 0} → Exec S X E A → (A → Exec S X E B) → Exec S X E B
  ◌>>=◌ m f s =
      let (r, s') = m s in elim r [ ok a ↦ f a s' | err e ↦ (err e, s') | stop x ↦ (stop x, s') ]

  abbrev pub ◌>>◌ : {A B : Type 0} → Exec S X E A → Exec S X E B → Exec S X E B
  m >> k = m >>= λ _. k

  -- `option.ok_or(error)?`
  abbrev pub ok_or : {A : Type 0} → Option A → E → Exec S X E A
  ok_or none e = throw e
  ok_or (some a) e = pure a

  -- `option.unwrap_or_revert_with(error)`
  abbrev pub some_or_revert : {A : Type 0} → Option A → X → Exec S X E A
  some_or_revert none x = revert x
  some_or_revert (some a) x = pure a

  -- `option.unwrap()` and `option.expect(..)`
  abbrev pub some_or_panic : {A : Type 0} → Option A → Exec S X E A
  some_or_panic none = panic
  some_or_panic (some a) = pure a

  -- A `Result` of code that does not touch the state, under `?`.
  abbrev pub from_result : {A : Type 0} → E ⊎ A → Exec S X E A
  from_result (inl e) = throw e
  from_result (inr a) = pure a

  -- `if test { return Err(error) }`
  abbrev pub err_if : Bool → E → Exec S X E (Unit {0})
  err_if true e = throw e
  err_if false e = pure tt

module _ {S X E F A : Type 0} where
  -- `result.map_err(f)`
  abbrev pub map_err : (E → F) → Exec S X E A → Exec S X F A
  map_err f m s =
      let (r, s') = m s in
      elim r [ ok a ↦ (ok a, s') | err e ↦ (err (f e), s') | stop x ↦ (stop x, s') ]

  -- `result.unwrap_or_revert_with(..)`
  abbrev pub unwrap_or_revert : (E → X) → Exec S X E A → Exec S X F A
  unwrap_or_revert f m s =
      let (r, s') = m s in
      elim r [ ok a ↦ (ok a, s') | err e ↦ (stop (reverted (f e)), s') | stop x ↦ (stop x, s') ]

  -- `result.expect(..)` and `result.unwrap()`
  abbrev pub expect : Exec S X E A → Exec S X F A
  expect m s =
      let (r, s') = m s in
      elim r [ ok a ↦ (ok a, s') | err e ↦ (stop panicked, s') | stop x ↦ (stop x, s') ]

-- `result.unwrap_or(default)` on an optional value that was read.
abbrev pub unwrap_or : {A : Type 0} → A → Option A → A
unwrap_or d none = d
unwrap_or d (some a) = a

-- One step of a `do` block whose first action is known to end so.
module _ {S X E A B : Type 0} where
  then_bind : (A → Exec S X E B) → S → Outcome X E A → Outcome X E B × S
  then_bind f s (ok a) = f a s
  then_bind f s (err e) = (err e, s)
  then_bind f s (stop x) = (stop x, s)

  then_bind_eq :
      (m : Exec S X E A) (f : A → Exec S X E B) (s : S) (r : Outcome X E A)
      → (m s).0 ≡ r
      → (m >>= f) s ≡ then_bind f (m s).1 r
  unfolding then_bind
  then_bind_eq m f s r e = split (m s).0 (m s).1 ∙ ap (then_bind f (m s).1) e
    where
      split :
          (r : Outcome X E A) (s' : S)
          → (elim r [ ok a ↦ f a s' | err e ↦ (err e, s') | stop x ↦ (stop x, s') ])
            ≡ then_bind f s' r
      split (ok a) s' = refl
      split (err e) s' = refl
      split (stop x) s' = refl

  pub bind-ok :
      (m : Exec S X E A) (f : A → Exec S X E B) (s : S) {a : A}
      → (m s).0 ≡ ok a
      → (m >>= f) s ≡ f a (m s).1
  unfolding then_bind
  bind-ok m f s {a} e = then_bind_eq m f s (ok a) e

  pub bind-run :
      (m : Exec S X E A) (f : A → Exec S X E B) (s : S) {a : A} {s' : S}
      → m s ≡ (ok a, s')
      → (m >>= f) s ≡ f a s'
  bind-run m f s {a} e = bind-ok m f s (ap (λ r. r.0) e) ∙ ap (λ r. f a r.1) e

  pub bind-err :
      (m : Exec S X E A) (f : A → Exec S X E B) (s : S) {x : E}
      → (m s).0 ≡ err x
      → (m >>= f) s ≡ (err x, (m s).1)
  unfolding then_bind
  bind-err m f s {x} e = then_bind_eq m f s (err x) e

  pub bind-stop :
      (m : Exec S X E A) (f : A → Exec S X E B) (s : S) {x : Stop X}
      → (m s).0 ≡ stop x
      → (m >>= f) s ≡ (stop x, (m s).1)
  unfolding then_bind
  bind-stop m f s {x} e = then_bind_eq m f s (stop x) e

  -- A block that ends well began well.
  pub bind-eq-ok :
      (m : Exec S X E A) (f : A → Exec S X E B) (s : S) {b : B}
      → ((m >>= f) s).0 ≡ ok b
      → (a : A) × ((m s).0 ≡ ok a) × ((f a (m s).1).0 ≡ ok b)
  unfolding then_bind
  bind-eq-ok m f s {b} e = began (m s).0 refl
    where
      began :
          (r : Outcome X E A) → (m s).0 ≡ r → (a : A) × ((m s).0 ≡ ok a) × ((f a (m s).1).0 ≡ ok b)
      began (ok a) h = (a, h, ap (λ t. t.0) (sym (then_bind_eq m f s (ok a) h)) ∙ e)
      began (err x) h = cc (ap (λ t. t.0) (sym (then_bind_eq m f s (err x) h)) ∙ e)
      began (stop x) h = cc (ap (λ t. t.0) (sym (then_bind_eq m f s (stop x) h)) ∙ e)
