-- ===== src/Common/Results.antt =====
-- Rust's `Result<A, E>`, with `?` as the bind of a `do` block, and `map_err`.
use mathlib.Core.Path.{◌≡◌, refl, ap}
use mathlib.Core.Option.{Option, none, some}
use mathlib.Core.Logic.{◌⊎◌, inl, inr}

pub data Result (E A : Type 0) : Type 0 where
  ok : A → Result E A
  err : E → Result E A

-- What `?` does: an error ends the block with it.
infixl 5 ◌>>=◌ ◌>>◌
abbrev pub ◌>>=◌ :
    {Fault In Out : Type 0} → Result Fault In → (In → Result Fault Out) → Result Fault Out
err fault >>= next = err fault
ok value >>= next = next value

abbrev pub ◌>>◌ :
    {Fault Out : Type 0} → Result Fault (Unit {0}) → Result Fault Out → Result Fault Out
check >> rest = check >>= λ passed. rest

abbrev pub map_err : {E F A : Type 0} → (E → F) → Result E A → Result F A
map_err f (ok a) = ok a
map_err f (err e) = err (f e)

abbrev pub ok_or : {E A : Type 0} → E → Option A → Result E A
ok_or e none = err e
ok_or e (some a) = ok a

-- A block that gave a value had one from its first step.
pub >>=-eq-ok :
    {Fault In Out : Type 0} (first : Result Fault In) (next : In → Result Fault Out) {out : Out}
    → (first >>= next) ≡ ok out
    → (value : In) × (first ≡ ok value) × (next value ≡ ok out)
>>=-eq-ok (err fault) next given = cc
>>=-eq-ok (ok value) next given = (value, refl, given)

pub map_err-eq-ok :
    {E F A : Type 0} (g : E → F) (m : Result E A) {a : A} → map_err g m ≡ ok a → m ≡ ok a
map_err-eq-ok g (ok a) h = cc
map_err-eq-ok g (err e) h = cc

pub Result-cases :
    {E A : Type 0} (m : Result E A) → ((a : A) × (m ≡ ok a)) ⊎ ((e : E) × (m ≡ err e))
Result-cases (ok a) = inl (a, refl)
Result-cases (err e) = inr (e, refl)

ok_value : {E A : Type 0} → A → Result E A → A
ok_value a (ok b) = b
ok_value a (err e) = a

pub ok_injective : {E A : Type 0} {a b : A} → ◌≡◌ {A = Result E A} (ok a) (ok b) → a ≡ b
unfolding ok_value
ok_injective {a = a} h = ap (ok_value a) h

-- What a loop on fuel gives.
pub data Run {ℓ} (A : Type ℓ) : Type ℓ where
  done : A → Run A
  out_of_fuel : Run A

done_value {ℓ} : {A : Type ℓ} → A → Run A → A
done_value a (done b) = b
done_value a out_of_fuel = a

pub done_injective {ℓ} : {A : Type ℓ} {a b : A} → done a ≡ done b → a ≡ b
unfolding done_value
done_injective {a = a} h = ap (done_value a) h
