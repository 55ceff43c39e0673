-- ===== src/Run/Agrees.antt =====
-- What a run comes to, whatever the allocator answers.
use pure.Prelude.{◌≡◌, refl, sym, ◌∙◌, [], ◌∷◌, true, false}
use mathlib.Core.Path.{subst}
use pure.Error.{Error, enomem}
use pure.Run.{Outcome, M, Mem, done, failed, and_then, alloc, ret}

-- What the code is to give when memory is there.
pub data Answer {ℓ} (A : Type ℓ) : Type ℓ where
  value : A → Answer A
  error : Error → Answer A

-- The answers from `m` on have been used up to `m'`, and all of them granted their requests. Behind
-- the end of the list every request is granted.
pub data Granted : Mem → Mem → Type 0 where
  unused : {m m' : Mem} → m ≡ m' → Granted m m'
  used : {m m₁ m' : Mem} → m ≡ true ∷ m₁ → Granted m₁ m' → Granted m m'

Granted-trans : {m m₁ m₂ : Mem} → Granted m m₁ → Granted m₁ m₂ → Granted m m₂
Granted-trans {m₂} (unused e) h = subst (λ t. Granted t m₂) (sym e) h
Granted-trans (used e g) h = used e (Granted-trans g h)

Granted-nil : {m m' : Mem} → Granted m m' → m ≡ [] → m' ≡ []
Granted-nil (unused e) h = cc
Granted-nil (used e g) h = absurd (nil-ne-cons (sym h ∙ e))
  where
    nil-ne-cons : {m : Mem} → [] ≡ true ∷ m → ⊥
    nil-ne-cons q = cc

no_refusal : {m : Mem} → Granted [] (false ∷ m) → ⊥
no_refusal {m} g = nil-ne-cons (sym (Granted-nil g refl))
  where
    nil-ne-cons : [] ≡ false ∷ m → ⊥
    nil-ne-cons q = cc

-- The run, started with the allocator's answers `m`, gives the answer `x`, or fails with
-- `PURE64_ENOMEM` at a request that was refused, the first that was. It neither faults nor runs out of fuel, and with
-- every request granted it gives `x`.
pub data Agrees {ℓ} {A : Type ℓ} (m : Mem) (x : Answer A) : Outcome Mem A → Type ℓ where
  gives : {b : A} {m' : Mem} → x ≡ value b → Granted m m' → Agrees m x (done b m')
  fails : {e : Error} {m' : Mem} → x ≡ error e → Granted m m' → Agrees m x (failed e m')
  starves : {e : Error} {m' : Mem} → e ≡ enomem → Granted m (false ∷ m') → Agrees m x (failed e m')

value-injective {ℓ} : {A : Type ℓ} (a b : A) → value a ≡ value b → a ≡ b
value-injective a b p = cc

module _ {ℓ} {A : Type ℓ} where
  -- An earlier start.
  pub Agrees-of_later :
      {m m' : Mem} {x : Answer A} {r : Outcome Mem A} → Granted m m' → Agrees m' x r → Agrees m x r
  Agrees-of_later k (gives p h) = gives p (Granted-trans k h)
  Agrees-of_later k (fails p h) = fails p (Granted-trans k h)
  Agrees-of_later k (starves p n) = starves p (Granted-trans k n)

  -- With every request granted the run is determined.
  pub Agrees-value : {a : A} {r : Outcome Mem A} → Agrees [] (value a) r → r ≡ done a []
  Agrees-value (gives p h) = cc (Granted-nil h refl)
  Agrees-value (fails p h) = cc
  Agrees-value (starves p n) = absurd (no_refusal n)

  pub Agrees-error : {e : Error} {r : Outcome Mem A} → Agrees [] (error e) r → r ≡ failed e []
  Agrees-error (gives p h) = cc
  Agrees-error (fails p h) = cc (Granted-nil h refl)
  Agrees-error (starves p n) = absurd (no_refusal n)

module _ {ℓ κ} {A : Type ℓ} {B : Type κ} where
  -- A step that is to give a value, followed by the rest of the code.
  pub Agrees-and_then :
      {m : Mem} {a : A} {y : Answer B} {r : Outcome Mem A} (f : A → M Mem B)
      → Agrees m (value a) r
      → ((m' : Mem) → Agrees m' y (f a m'))
      → Agrees m y (and_then r f)
  Agrees-and_then {a} {y} f (gives {b} {m'} p h) k =
      Agrees-of_later h (subst (λ t. Agrees m' y (f t m')) (value-injective a b p) (k m'))
  Agrees-and_then f (fails p h) k = absurd (value-ne-error p)
    where
      value-ne-error : {a : A} {e : Error} → ¬ (value a ≡ error e)
      value-ne-error p = cc
  Agrees-and_then f (starves p n) k = starves p n

  -- A step that is to fail ends the code.
  pub Agrees-and_then_error :
      {m : Mem} {e : Error} {r : Outcome Mem A} (f : A → M Mem B)
      → Agrees m (error e) r
      → Agrees m (error e) (and_then r f)
  Agrees-and_then_error f (gives p h) = absurd (error-ne-value p)
    where
      error-ne-value : {a : A} {e : Error} → ¬ (error e ≡ value a)
      error-ne-value p = cc
  Agrees-and_then_error f (fails p h) = fails (cc) h
  Agrees-and_then_error f (starves p n) = starves p n

pub alloc-Agrees : (m : Mem) → Agrees m (value tt) (alloc m)
alloc-Agrees [] = gives refl (unused refl)
alloc-Agrees (true ∷ m) = gives refl (used refl (unused refl))
alloc-Agrees (false ∷ m) = starves refl (unused refl)

-- A value at hand.
pub ret-Agrees {ℓ} : {A : Type ℓ} (a : A) (m : Mem) → Agrees m (value a) (done a m)
ret-Agrees a m = gives refl (unused refl)

-- The answer of code that goes on by building a value.
abbrev pub answer_map {ℓ κ} : {A : Type ℓ} {B : Type κ} → (A → B) → Answer A → Answer B
answer_map f (value a) = value (f a)
answer_map f (error e) = error e

pub Agrees-map {ℓ κ} :
    {A : Type ℓ} {B : Type κ} (f : A → B) {m : Mem} (x : Answer A) {r : Outcome Mem A}
    → Agrees m x r
    → Agrees m (answer_map f x) (and_then r (λ a. ret (f a)))
Agrees-map f (value a) h = Agrees-and_then (λ b. ret (f b)) h (λ m'. ret-Agrees (f a) m')
Agrees-map f (error e) h = Agrees-and_then_error (λ b. ret (f b)) h
