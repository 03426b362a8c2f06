-- ===== src/Cluster/Retrying.antt =====
-- What a retried call returns, as a relation, and that the retries compute it.
use gpu_provisioner.Base.{ℕ, zero, suc, ◌≡◌, refl, ap, ◌∙◌, inl, inr, Bool, true, false, Bool-cases}
use gpu_provisioner.Base.Result.{Err, Result, ok, err, panic, out_of_fuel}
use gpu_provisioner.Base.Effect.{M}
use gpu_provisioner.Cluster.{tries, unless_retried}

-- An outcome that ends the retries at once.
abbrev pub Final : {A : Type 0} → (Err → Bool) → Result A → Type 0
Final retriable (err e) = retriable e ≡ false
Final retriable _ = Unit

-- With `n` more attempts allowed in world `w`, the call ends as `r` in world `v`: its outcome is final,
-- or the attempt is the last one, or it failed with an error that is retried.
pub data After {W : Type 0} {A : Type 0} (pause : ℕ → W → W) (retriable : Err → Bool) (f : M W A)
    : ℕ → W → Result A → W → Type 0 where
  last : {w : W} {r : Result A} {v : W} → f w ≡ (r, v) → After pause retriable f zero w r v
  now :
      {n : ℕ} {w : W} {r : Result A} {v : W}
      → f w ≡ (r, v)
      → Final retriable r
      → After pause retriable f n w r v
  again :
      {n : ℕ} {w : W} {e : Err} {u : W} {r : Result A} {v : W}
      → f w ≡ (err e, u)
      → retriable e ≡ true
      → After pause retriable f n (pause n u) r v
      → After pause retriable f (suc n) w r v

module _ {W : Type 0} {A : Type 0} (pause : ℕ → W → W) (retriable : Err → Bool) (f : M W A) where
  -- the first attempt is made, and its outcome is looked at
  first_attempt :
      (n : ℕ) (w : W) (r : Result A) (v : W)
      → f w ≡ (r, v)
      → tries pause retriable f (suc n) w
        ≡ unless_retried pause retriable (tries pause retriable f n) n (r, v)
  unfolding tries
  first_attempt n w r v e = ap (unless_retried pause retriable (tries pause retriable f n) n) e

  settled :
      (rest : M W A) (n : ℕ) (r : Result A) (v : W)
      → Final retriable r
      → unless_retried pause retriable rest n (r, v) ≡ (r, v)
  unfolding unless_retried
  settled rest n (ok a) v h = refl
  settled rest n (err x) v h = rw (h, unless_retried)
  settled rest n panic v h = refl
  settled rest n out_of_fuel v h = refl

  tries-Final :
      (n : ℕ) (w : W) (r : Result A) (v : W)
      → f w ≡ (r, v)
      → Final retriable r
      → tries pause retriable f n w ≡ (r, v)
  tries-Final zero w r v e h = unfold tries in e
  tries-Final (suc n) w r v e h = first_attempt n w r v e ∙ settled _ n r v h

  tries_again :
      (n : ℕ) (w u : W) (x : Err)
      → f w ≡ (err x, u)
      → retriable x ≡ true
      → tries pause retriable f (suc n) w ≡ tries pause retriable f n (pause n u)
  tries_again n w u x e t =
      first_attempt n w (err x) u e ∙ (unfold unless_retried in rw (t, unless_retried))

  pub tries-After :
      {n : ℕ} {w : W} {r : Result A} {v : W}
      → After pause retriable f n w r v
      → tries pause retriable f n w ≡ (r, v)
  tries-After (last e) = unfold tries in e
  tries-After (now {n = n} {w = w} {r = r} {v = v} e h) = tries-Final n w r v e h
  tries-After (again {n = n} {w = w} {e = x} {u = u} e t m) =
      tries_again n w u x e t ∙ tries-After m

  abbrev pub Ends : ℕ → W → Type 0
  Ends n w =
      After pause retriable f n w (tries pause retriable f n w).0 (tries pause retriable f n w).1

  Ends-of :
      (n : ℕ) (w : W) (r : Result A) (v : W)
      → tries pause retriable f n w ≡ (r, v)
      → After pause retriable f n w r v
      → Ends n w
  Ends-of n w r v e m = rw e m

  Ends-step :
      (n : ℕ) (w : W) (r : Result A) (v : W) → f w ≡ (r, v) → ((u : W) → Ends n u) → Ends (suc n) w
  Ends-step n w (ok a) v e h =
      Ends-of (suc n) w (ok a) v (tries-Final (suc n) w (ok a) v e tt) (now e tt)
  Ends-step n w panic v e h =
      Ends-of (suc n) w panic v (tries-Final (suc n) w panic v e tt) (now e tt)
  Ends-step n w out_of_fuel v e h =
      Ends-of (suc n) w out_of_fuel v (tries-Final (suc n) w out_of_fuel v e tt) (now e tt)
  Ends-step n w (err x) v e h = elim (Bool-cases (retriable x)) [
    | inl t ↦ rw (tries_again n w v x e t) (again e t (h (pause n v)))
    | inr t ↦ Ends-of (suc n) w (err x) v (tries-Final (suc n) w (err x) v e t) (now e t)
  ]

  -- Every retried call ends as the relation says.
  pub After-tries : (n : ℕ) (w : W) → Ends n w
  After-tries zero w = unfold tries in last refl
  After-tries (suc n) w = Ends-step n w (f w).0 (f w).1 refl (After-tries n)
