-- ===== src/Manager/Takes.antt =====
-- Steps with a condition before and one after: where the first holds, the step returns the value and
-- the second holds of the state that it leaves.
use rex_sm.Base.{◌≡◌, refl, ap, ◌∙◌, ok}
use rex_sm.Manager.Action.{Action, ◌>>=◌, ◌>>◌, >>=-ok, return}

module _ {W : Type 0} where
  pub record Takes {A : Type 0} (before : W → Type 0) (m : Action W A) (a : A) (after : W → Type 0)
      : Type 0 where
    pub returns : (w : W) → before w → (m w).1 ≡ ok a
    pub leads : (w : W) → before w → after (m w).0

  module _ {A B : Type 0} {before between after : W → Type 0} (m : Action W A) (f : A → Action W B)
      {a : A} {b : B} (first : Takes before m a between)
      (second : Takes between (f a) b after) where
    then_lem : (w : W) → before w → (m >>= f) w ≡ f a (m w).0
    then_lem w h = >>=-ok m f (ap (λ r. ((m w).0, r)) (first.returns w h))

    pub >>=-Takes : Takes before (m >>= f) b after
    >>=-Takes = record {
      returns = λ w h. ap (λ r. r.1) (then_lem w h) ∙ second.returns (m w).0 (first.leads w h);
      leads = λ w h. rw (then_lem w h) (second.leads (m w).0 (first.leads w h));
    }

  pub >>-Takes :
      {B : Type 0} {before between after : W → Type 0} (m : Action W (Unit {0})) (n : Action W B)
      {b : B}
      → Takes before m tt between
      → Takes between n b after
      → Takes before (m >> n) b after
  >>-Takes {B = B} m n first second = >>=-Takes m (λ (_ : Unit {0}). n) first second

  pub return-Takes : {A : Type 0} {before : W → Type 0} (a : A) → Takes before (return a) a before
  return-Takes a = record { returns = λ w h. refl; leads = λ w h. h }
