-- ===== src/Shim/Dispatch/Scoped.antt =====
-- The dispatch of contract code in crates/casper-ffi-shim/src/lib.rs: contract code that calls host
-- functions, reverts and dispatches other contract code, on the stack of environments and, to
-- compare, with the environment of every part written out.
use casper_contract_kit.Base.{
  ℕ, ◌≡◌, ◌⊎◌, inl, inr, refl, sym, ap, subst, Option, none, some, List, ◌∷◌, ◌==◌, if◌then◌else◌,
  Exec, Outcome, ok, err, stop, reverted, pure, modify, ◌>>=◌,
}
use casper_contract_kit.Casper.{ApiError}
use casper_contract_kit.Shim.{Env, Ffi}
use casper_contract_kit.Shim.Dispatch.{
  RevertError, Machine, Thread, set_env, pop_back, casper_revert, dispatch_with, on_env,
  with_current_env,
}

-- Contract code, by what it does of the host: it ends, it calls a host function and goes on with the
-- answer, it reverts with a status, or it dispatches other code with an environment and goes on.
pub data Code : Type 1 where
  done : Code
  call : {A : Type 0} → Ffi A → (ApiError ⊎ A → Code) → Code
  revert : ℕ → Code
  dispatch : ℕ → Code → Code → Code

-- What contract code shares over all environments.
pub record Shared : Type 0 where
  pub envs : ℕ → Env
  pub revert_error : Option RevertError

abbrev pub shared : Machine → Shared
shared m = record { envs = m.envs; revert_error = m.revert_error }

-- A host function on the environment `h`, whatever other environments there are.
abbrev at : {A : Type 0} → ℕ → Ffi A → Exec Shared ApiError ApiError A
at h func s =
    let (r, e) = func (s.envs h) in (r, record s { envs = λ j. if h == j then e else s.envs j })

-- The return code of a host function, which the code reads.
abbrev pub answer : {S E A : Type 0} → Exec S ApiError ApiError A → Exec S ApiError E (ApiError ⊎ A)
answer m s =
    let (r, s') = m s in
    elim r [ ok a ↦ (ok (inr a), s') | err e ↦ (ok (inl e), s') | stop x ↦ (stop x, s') ]

abbrev pub IsStopped : {A : Type 0} → Outcome ApiError ⊥ A → Type 0
IsStopped (ok a) = ⊥
IsStopped (err e) = ⊥
IsStopped (stop x) = Unit

module _ (from_status : ℕ → ApiError) where
  -- The code on the stack of environments, as the shim runs it.
  unfoldable pub run : Code → Thread ⊥ (Unit {0})
  run done = pure tt
  run (call func next) = answer (with_current_env func) >>= λ a. run (next a)
  run (revert status) = casper_revert from_status status
  run (dispatch env code next) = dispatch_with env (λ _. run code) >>= λ _. run next

  abbrev reverts : {S A : Type 0} → ApiError → Exec S ApiError ⊥ A
  reverts e s = (stop (reverted e), s)

  -- The code with its environment written out, without a stack: the calls of the code are on `h`,
  -- those of the code that it dispatches with `env` on `env`, and those after it on `h` again. A
  -- dispatch forgets an earlier revert, and a revert is remembered.
  unfoldable pub scoped : ℕ → Code → Exec Shared ApiError ⊥ (Unit {0})
  scoped h done = pure tt
  scoped h (call func next) = answer (at h func) >>= λ a. scoped h (next a)
  scoped h (revert status) =
      modify (λ s. record s {
        revert_error = some (record { status = status; api_error = from_status status });
      })
      >>= λ _. reverts (from_status status)
  scoped h (dispatch env code next) = modify (λ s. record s { revert_error = none }) >>= λ _.
      (scoped env code >>= λ _. scoped h next)

  -- One run ends as the other, with the stack given, unless the code stopped.
  record EndsAs (stack : List ℕ) (p : Outcome ApiError ⊥ (Unit {0}) × Machine)
      (q : Outcome ApiError ⊥ (Unit {0}) × Shared) : Type 0 where
    same : (p.0, shared p.1) ≡ q
    balanced : (p.1.stack ≡ stack) ⊎ IsStopped p.0

  abbrev on_stack : List ℕ → Shared → Machine
  on_stack stack s = record { envs = s.envs; stack = stack; revert_error = s.revert_error }

  -- After dispatched code, its environment is taken off the stack and the code that dispatched it
  -- goes on.
  abbrev go_on :
      Code → Outcome ApiError ⊥ (Unit {0}) × Machine → Outcome ApiError ⊥ (Unit {0}) × Machine
  go_on next p =
      (((λ _. p) >>= λ _. modify (λ m. record m { stack = pop_back m.stack })) >>= λ _. run next)
        p.1

  abbrev scoped_on :
      ℕ → Code → Outcome ApiError ⊥ (Unit {0}) × Shared → Outcome ApiError ⊥ (Unit {0}) × Shared
  scoped_on h next q = ((λ _. q) >>= λ _. scoped h next) q.1

  module _ (h : ℕ) (rest : List ℕ) where
    abbrev AlwaysEndsAs : Code → Type 0
    AlwaysEndsAs code =
        (s : Shared) → EndsAs (h ∷ rest) (run code (on_stack (h ∷ rest) s)) (scoped h code s)

    after_call :
        {A : Type 0} (next : ApiError ⊎ A → Code)
        → ((a : ApiError ⊎ A) → AlwaysEndsAs (next a))
        → (s : Shared) (p : Outcome ApiError ApiError A × Env)
        → EndsAs
            (h ∷ rest)
            ((answer (λ _. (p.0, set_env h p.1 (on_stack (h ∷ rest) s))) >>= λ a. run (next a))
              (on_stack (h ∷ rest) s))
            ((answer (at h (λ _. p)) >>= λ a. scoped h (next a)) s)
    after_call next later s (ok a, e) =
        later (inr a) (record s { envs = λ j. if h == j then e else s.envs j })
    after_call next later s (err x, e) =
        later (inl x) (record s { envs = λ j. if h == j then e else s.envs j })
    after_call next later s (stop x, e) = record { same = refl; balanced = inr tt }

    after_dispatch :
        (env : ℕ) (next : Code)
        → AlwaysEndsAs next
        → (p : Outcome ApiError ⊥ (Unit {0}) × Machine)
        → (p.1.stack ≡ env ∷ h ∷ rest) ⊎ IsStopped p.0
        → EndsAs (h ∷ rest) (go_on next p) (scoped_on h next (p.0, shared p.1))
    after_dispatch env next later (ok u, m) (inl b) =
        subst
          (λ stack.
            EndsAs (h ∷ rest) (run next (record m { stack = pop_back stack }))
              (scoped h next (shared m)))
          (sym b) (later (shared m))
    after_dispatch env next later (ok u, m) (inr x) = absurd x
    after_dispatch env next later (err e, m) b = absurd e
    after_dispatch env next later (stop x, m) b = record { same = refl; balanced = inr tt }

  run-EndsAs :
      (code : Code) (h : ℕ) (rest : List ℕ) (s : Shared)
      → EndsAs (h ∷ rest) (run code (on_stack (h ∷ rest) s)) (scoped h code s)
  unfolding run scoped with_current_env on_env casper_revert dispatch_with
  run-EndsAs done h rest s = record { same = refl; balanced = inl refl }
  run-EndsAs (call func next) h rest s =
      after_call h rest next (λ a. run-EndsAs (next a) h rest) s (func (s.envs h))
  run-EndsAs (revert status) h rest s = record { same = refl; balanced = inr tt }
  run-EndsAs (dispatch env code next) h rest s =
      let first = run-EndsAs code env (h ∷ rest) (record s { revert_error = none }) in
      subst
        (λ q.
          EndsAs (h ∷ rest) (run (dispatch env code next) (on_stack (h ∷ rest) s))
            (scoped_on h next q))
        first.same
        (after_dispatch h rest env next (run-EndsAs next h rest)
          (run code (on_stack (env ∷ h ∷ rest) (record s { revert_error = none }))) first.balanced)

  -- The end of a dispatch takes the environment off the stack.
  abbrev ended : Outcome ApiError ⊥ (Unit {0}) × Machine → Outcome ApiError ⊥ (Unit {0}) × Machine
  ended p = ((λ _. p) >>= λ _. modify (λ m. record m { stack = pop_back m.stack })) p.1

  after_code :
      {stack : List ℕ} {env : ℕ} {q : Outcome ApiError ⊥ (Unit {0}) × Shared}
      (p : Outcome ApiError ⊥ (Unit {0}) × Machine)
      → (p.0, shared p.1) ≡ q
      → (p.1.stack ≡ env ∷ stack) ⊎ IsStopped p.0
      → ((ended p).0 ≡ q.0)
        × (shared (ended p).1 ≡ q.1)
        × (((ended p).1.stack ≡ stack) ⊎ IsStopped (ended p).0)
  after_code (ok u, m) e (inl b) = (ap (λ q. q.0) e, ap (λ q. q.1) e, inl (ap pop_back b))
  after_code (ok u, m) e (inr x) = absurd x
  after_code (err x, m) e b = absurd x
  after_code (stop x, m) e b = (ap (λ q. q.0) e, ap (λ q. q.1) e, inr tt)

  -- Contract code that is dispatched with an environment, and that calls host functions, reverts and
  -- dispatches other contract code with any environments, nested in any way, ends as its calls run on
  -- the environments they are written for: on any stack of environments, each call reaches the
  -- environment of the innermost dispatch that it stands in, also after an inner dispatch has ended. The
  -- outcome, all environments and the remembered revert are the same, and the stack is as before unless
  -- the code stopped.
  pub dispatch_with-run :
      (env : ℕ) (code : Code) (m : Machine)
      → ((dispatch_with env (λ _. run code) m).0
          ≡ (scoped env code (record (shared m) { revert_error = none })).0)
        × (shared (dispatch_with env (λ _. run code) m).1
            ≡ (scoped env code (record (shared m) { revert_error = none })).1)
        × (((dispatch_with env (λ _. run code) m).1.stack ≡ m.stack)
            ⊎ IsStopped (dispatch_with env (λ _. run code) m).0)
  unfolding dispatch_with
  dispatch_with-run env code m =
      let ends = run-EndsAs code env m.stack (record (shared m) { revert_error = none }) in
      after_code (run code (on_stack (env ∷ m.stack) (record (shared m) { revert_error = none })))
        ends.same ends.balanced
