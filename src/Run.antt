-- ===== src/Run.antt =====
-- Stateful, fallible code. An operation takes a state and ends in one of four ways.
pub mod Agrees
use pure.Prelude.{Bool, true, false, List, [], ◌∷◌}
use pure.Error.{Error, enomem}

-- `failed` is a non-zero return value. `fault` is a read or write of memory that the code does
-- not own. `out_of_fuel` is a loop that has not ended, on the fuel given where it has fuel.
pub data Outcome {ℓ κ} (S : Type ℓ) (A : Type κ) : Type (ℓ ⊔ κ) where
  done : A → S → Outcome S A
  failed : Error → S → Outcome S A
  fault : Outcome S A
  out_of_fuel : Outcome S A

abbrev pub M {ℓ κ} : Type ℓ → Type κ → Type (ℓ ⊔ κ)
M S A = S → Outcome S A

abbrev pub and_then {ℓ κ κ'} :
    {S : Type ℓ} {A : Type κ} {B : Type κ'} → Outcome S A → (A → M S B) → Outcome S B
and_then (done a s) f = f a s
and_then (failed e s) f = failed e s
and_then fault f = fault
and_then out_of_fuel f = out_of_fuel

module _ {ℓ κ κ'} {S : Type ℓ} {A : Type κ} {B : Type κ'} where
  infixl 5 ◌>>=◌ ◌>>◌
  abbrev pub ◌>>=◌ : M S A → (A → M S B) → M S B
  ◌>>=◌ m f s = and_then (m s) f

  abbrev pub ◌>>◌ : M S A → M S B → M S B
  ◌>>◌ m k s = and_then (m s) (λ _. k)

module _ {ℓ κ} {S : Type ℓ} {A : Type κ} where
  abbrev pub ret : A → M S A
  ret a s = done a s

  abbrev pub fail : Error → M S A
  fail e s = failed e s

-- The answers that the allocator will give to the coming requests, first to last. A request that
-- the list does not reach is granted.
abbrev pub Mem : Type 0
Mem = List Bool

-- A call of `pure64_malloc` or `pure64_realloc` with the test of its result that returns
-- `PURE64_ENOMEM`.
abbrev pub alloc : M Mem (Unit {0})
alloc [] = done tt []
alloc (true ∷ m) = done tt m
alloc (false ∷ m) = failed enomem m

-- A call whose result is tested later.
abbrev pub answer : M Mem Bool
answer [] = done true []
answer (b ∷ m) = done b m

-- A state of two parts, for code that both allocates and uses a stream.
module _ {ℓ ℓ' κ} {S : Type ℓ} {T : Type ℓ'} {A : Type κ} where
  abbrev pub with_second : T → Outcome S A → Outcome (S × T) A
  with_second t (done a s) = done a (s, t)
  with_second t (failed e s) = failed e (s, t)
  with_second t fault = fault
  with_second t out_of_fuel = out_of_fuel

  abbrev pub with_first : S → Outcome T A → Outcome (S × T) A
  with_first s (done a t) = done a (s, t)
  with_first s (failed e t) = failed e (s, t)
  with_first s fault = fault
  with_first s out_of_fuel = out_of_fuel

  abbrev pub on_first : M S A → M (S × T) A
  on_first m (s, t) = with_second t (m s)

  abbrev pub on_second : M T A → M (S × T) A
  on_second m (s, t) = with_first s (m t)
