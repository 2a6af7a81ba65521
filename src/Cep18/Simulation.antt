-- ===== src/Cep18/Simulation.antt =====
-- Refinement of the token: a storage that answers the accessors of balances.rs, allowances.rs,
-- security.rs and events.rs as the token does, seen through a view of its states, runs every entry
-- point of cep18.rs as the token does.
use casper_contract_kit.Base.{
  ◌≡◌, refl, ap, ◌∙◌, Bool, true, false, Option, none, some, if◌then◌else◌, Outcome, Exec, ok, err,
  stop, pure, throw, ok_or, some_or_panic, err_if, map_err, bind-ok, bind-err, bind-stop, arith,
  panic, sym, subst,
}
use casper_contract_kit.Base.{◌>>=◌}
use casper_contract_kit.Casper.{ApiError}
use casper_contract_kit.Cep18.Token.{Token}

map_outcome : {E F A : Type 0} → (E → F) → Outcome ApiError E A → Outcome ApiError F A
map_outcome f (ok a) = ok a
map_outcome f (err e) = err (f e)
map_outcome f (stop x) = stop x

module _ {S E F A : Type 0} (f : E → F) (m : Exec S ApiError E A) (s : S) where
  map_err-outcome : (map_err f m s).0 ≡ map_outcome f (m s).0
  unfolding map_outcome
  map_err-outcome = ground arith

  map_err-state : (map_err f m s).1 ≡ (m s).1
  map_err-state = ground arith

module _ {S : Type 0} (view : S → Token) (IsValid : S → Type 0) where
  -- Two results agree: the same outcome, in states of the same view, the storage still valid.
  pub record Agrees {E A : Type 0} (p : Outcome ApiError E A × S) (q : Outcome ApiError E A × Token)
      : Type 0 where
    pub outcome : p.0 ≡ q.0
    pub state : view p.1 ≡ q.1
    pub valid : IsValid p.1

  pub record Simulates {E A : Type 0} (m : Exec S ApiError E A) (n : Exec Token ApiError E A)
      : Type 0 where
    pub run : (s : S) → IsValid s → Agrees (m s) (n (view s))

module _ {S : Type 0} {view : S → Token} {IsValid : S → Type 0} where
  Agrees-eq :
      {E A : Type 0} {p p' : Outcome ApiError E A × S} {q q' : Outcome ApiError E A × Token}
      → p' ≡ p
      → q' ≡ q
      → Agrees view IsValid p q
      → Agrees view IsValid p' q'
  Agrees-eq {p = p} {q' = q'} e e' h =
      subst (λ x. Agrees view IsValid x q') (sym e)
        (subst (λ y. Agrees view IsValid p y) (sym e') h)

  pub sim-pure : {E A : Type 0} (a : A) → Simulates view IsValid {E = E} (pure a) (pure a)
  sim-pure a = record { run = λ s v. record { outcome = refl; state = refl; valid = v } }

  pub sim-throw : {E A : Type 0} (e : E) → Simulates view IsValid {A = A} (throw e) (throw e)
  sim-throw e = record { run = λ s v. record { outcome = refl; state = refl; valid = v } }

  pub sim-panic : {E A : Type 0} → Simulates view IsValid {E = E} {A = A} panic panic
  sim-panic = record { run = λ s v. record { outcome = refl; state = refl; valid = v } }

  module _ {E A B : Type 0} (m : Exec S ApiError E A) (n : Exec Token ApiError E A)
      (f : A → Exec S ApiError E B) (g : A → Exec Token ApiError E B) where
    bind-Agrees :
        (rest : (a : A) → Simulates view IsValid (f a) (g a)) (s : S) (r : Outcome ApiError E A)
        → (m s).0 ≡ r
        → Agrees view IsValid (m s) (n (view s))
        → Agrees view IsValid ((m >>= f) s) ((n >>= g) (view s))
    bind-Agrees rest s (ok a) e h =
        Agrees-eq (bind-ok m f s e) (bind-ok n g (view s) (sym h.outcome ∙ e)) (
          subst (λ t. Agrees view IsValid (f a (m s).1) (g a t)) h.state
            ((rest a).run (m s).1 h.valid))
    bind-Agrees rest s (err x) e h =
        Agrees-eq (bind-err m f s e) (bind-err n g (view s) (sym h.outcome ∙ e))
          (record { outcome = refl; state = h.state; valid = h.valid })
    bind-Agrees rest s (stop x) e h =
        Agrees-eq (bind-stop m f s e) (bind-stop n g (view s) (sym h.outcome ∙ e))
          (record { outcome = refl; state = h.state; valid = h.valid })

  pub sim-bind :
      {E A B : Type 0} {m : Exec S ApiError E A} {n : Exec Token ApiError E A}
      {f : A → Exec S ApiError E B} {g : A → Exec Token ApiError E B}
      → Simulates view IsValid m n
      → ((a : A) → Simulates view IsValid (f a) (g a))
      → Simulates view IsValid (m >>= f) (n >>= g)
  sim-bind {m = m} {n = n} {f = f} {g = g} first rest = record {
    run = λ s v. bind-Agrees m n f g rest s (m s).0 refl (first.run s v);
  }

  pub sim-ok_or :
      {E A : Type 0} (o : Option A) (e : E) → Simulates view IsValid (ok_or o e) (ok_or o e)
  sim-ok_or none e = sim-throw e
  sim-ok_or (some a) e = sim-pure a

  pub sim-some :
      {E A : Type 0} (o : Option A)
      → Simulates view IsValid {E = E} (some_or_panic o) (some_or_panic o)
  sim-some none = sim-panic
  sim-some (some a) = sim-pure a

  pub sim-err_if :
      {E : Type 0} (b : Bool) (e : E) → Simulates view IsValid (err_if b e) (err_if b e)
  sim-err_if true e = sim-throw e
  sim-err_if false e = sim-pure tt

  pub sim-if :
      {E A : Type 0} (b : Bool) {m m' : Exec S ApiError E A} {n n' : Exec Token ApiError E A}
      → Simulates view IsValid m n
      → Simulates view IsValid m' n'
      → Simulates view IsValid (if b then m else m') (if b then n else n')
  sim-if true h h' = h
  sim-if false h h' = h'

  pub sim-map_err :
      {E F A : Type 0} (f : E → F) {m : Exec S ApiError E A} {n : Exec Token ApiError E A}
      → Simulates view IsValid m n
      → Simulates view IsValid (map_err f m) (map_err f n)
  sim-map_err f {m} {n} h = record {
    run = λ s v.
        let a = h.run s v in
        record {
          outcome =
              map_err-outcome f m s
              ∙ ap (map_outcome f) a.outcome
              ∙ sym (map_err-outcome f n (view s));
          state = ap view (map_err-state f m s) ∙ a.state ∙ sym (map_err-state f n (view s));
          valid = subst IsValid (sym (map_err-state f m s)) a.valid;
        };
  }
