-- ===== src/Recovery/Runs.antt =====
-- Runs of the recovery manager, taken apart, and relations between the states before and after them.
use real_time_cr.Prelude.{
  if◌then◌else◌, Exec, ok, fault, ◌≡◌, refl, Bool, true, false, Option, none, some, arith, subst,
}
use real_time_cr.Recovery.{M, World, ◌>>=◌, pure}

module _ {S : Type 0} where
  -- A run of two steps is a run of each.
  pub bind-ran :
      {A B : Type 0} (m : M S A) (f : A → M S B) (w : World S) {r : B × World S}
      → (m >>= f) w ≡ ok (some r)
      → (a : A) × (w1 : World S) × (m w ≡ ok (some (a, w1))) × (f a w1 ≡ ok (some r))
  bind-ran {A = A} {B = B} m f w {r} h = go (m w) refl h
    where
      go :
          (x : Exec (Option (A × World S)))
          → m w ≡ x
          → elim x [ fault e ↦ fault e | ok o ↦ elim o [ none ↦ ok none | some (a, w') ↦ f a w' ] ]
            ≡ ok (some r)
          → (a : A) × (w1 : World S) × (m w ≡ ok (some (a, w1))) × (f a w1 ≡ ok (some r))
      go (fault e) eq k = cc
      go (ok none) eq k = cc
      go (ok (some (a, w1))) eq k = (a, w1, eq, k)

  -- A step that returns is followed by the next one.
  pub bind-runs :
      {A B : Type 0} (m : M S A) (f : A → M S B) (w : World S) {a : A} {w1 : World S}
      → m w ≡ ok (some (a, w1))
      → (m >>= f) w ≡ f a w1
  bind-runs m f w e = rw (◌>>=◌, e) refl

-- A relation between states that holds of no step at all, and of two runs in a row if it holds of each.
module _ {S : Type 0} (R : World S → World S → Type 0) (idle : (w : World S) → R w w)
    (chain : (u v w : World S) → R u v → R v w → R u w) where
  -- The relation holds between the state before a run that returns and the state after it.
  unfoldable pub Follows : {A : Type 0} → M S A → Type 0
  Follows {A} m = (w w' : World S) (a : A) → m w ≡ ok (some (a, w')) → R w w'

  pub bind-Follows :
      {A B : Type 0} (m : M S A) (f : A → M S B)
      → Follows m
      → ((a : A) → Follows (f a))
      → Follows (m >>= f)
  unfolding Follows
  bind-Follows m f hm hf w w' b h =
      let (a, w1, e, k) = bind-ran m f w h in chain w w1 w' (hm w w1 a e) (hf a w1 w' b k)

  pub pure-Follows : {A : Type 0} (a : A) → Follows (pure {S = S} a)
  unfolding Follows
  pure-Follows a w w' b h = let e : w ≡ w' = ground arith in subst (R w) e (idle w)

  pub if-Follows :
      {A : Type 0} (c : Bool) (m n : M S A) → Follows m → Follows n → Follows (if c then m else n)
  unfolding Follows
  if-Follows true m n hm hn = hm
  if-Follows false m n hm hn = hn
