-- ===== src/Reader/Ensures.antt =====
-- A rule for each way to build a read method: what holds of every value that it returns.
use nballerina_cpp.Base.{ℕ, zero, suc, ◌≡◌, refl, subst}
use nballerina_cpp.Run.{Run, ok, fault}
use nballerina_cpp.Reader.Stream.{Stream}
use nballerina_cpp.Reader.Monad.{Reader, pure, ◌>>=◌, iterate}

pub record Ensures {A : Type 0} (P : A → Type 0) (m : Reader A) : Type 0 where
  pub holds : (s : Stream) (a : A) (t : Stream) → m s ≡ ok (a, t) → P a

bind_inversion :
    {A B : Type 0} (r : Run (A × Stream)) (f : A → Reader B) (b : B) (t : Stream)
    → elim r as (λ x. Run (B × Stream)) [ ok (a, s') ↦ f a s' | fault e ↦ fault e ] ≡ ok (b, t)
    → (a : A) × (s' : Stream) × (r ≡ ok (a, s')) × (f a s' ≡ ok (b, t))
bind_inversion (ok (a, s')) f b t h = (a, s', refl, h)
bind_inversion (fault e) f b t h = cc

module _ {A B : Type 0} (P : B → Type 0) (m : Reader A) (f : A → Reader B) where
  pub Ensures-bind_with :
      (Q : A → Type 0) → Ensures Q m → ((a : A) → Q a → Ensures P (f a)) → Ensures P (m >>= f)
  unfolding ◌>>=◌
  Ensures-bind_with Q hm hf = record {
    holds = λ s b t h.
        let (a, s', e, e') = bind_inversion (m s) f b t h in
        (hf a (hm.holds s a s' e)).holds s' b t e';
  }

  -- Where nothing is needed of the first value.
  pub Ensures-bind : ((a : A) → Ensures P (f a)) → Ensures P (m >>= f)
  Ensures-bind hf =
      Ensures-bind_with (λ a. Unit {0}) (record { holds = λ s a t e. tt }) (λ a _. hf a)

ok_first : {A : Type 0} (p q : A × Stream) → ok p ≡ ok q → p.0 ≡ q.0
ok_first p q h = cc

pub Ensures-pure : {A : Type 0} {P : A → Type 0} (a : A) → P a → Ensures P (pure a)
unfolding pure
Ensures-pure {P = P} a p = record { holds = λ s b t h. subst P (ok_first (a, s) (b, t) h) p }

pub Ensures-iterate :
    {S : Type 0} (P : S → Type 0) (n : ℕ) (body : S → Reader S)
    → ((x : S) → P x → Ensures P (body x))
    → (x : S) → P x
    → Ensures P (iterate n body x)
unfolding iterate
Ensures-iterate P zero body keep x p = Ensures-pure x p
Ensures-iterate P (suc n) body keep x p =
    Ensures-bind_with P (body x) (iterate n body) P (keep x p)
      (λ y q. Ensures-iterate P n body keep y q)
