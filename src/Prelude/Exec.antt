-- ===== src/Prelude/Exec.antt =====
-- Results of running code: a value, undefined behaviour of C++, or fuel that ran out.
use mathlib.Core.Path.{◌≡◌, refl}

pub data Exec {ℓ} (A : Type ℓ) : Type ℓ where
  ok : A → Exec A
  undefined out_of_fuel : Exec A

infixl 5 ◌>>=◌
abbrev pub ◌>>=◌ {ℓ κ} : {T : Type ℓ} {U : Type κ} → Exec T → (T → Exec U) → Exec U
undefined >>= k = undefined
out_of_fuel >>= k = out_of_fuel
ok t >>= k = k t

pub ok-injective {ℓ} : {T : Type ℓ} {t u : T} → ok t ≡ ok u → t ≡ u
ok-injective same = cc

-- Where two steps in a row succeed, the first one did.
pub >>=-ok {ℓ κ} :
    {T : Type ℓ} {U : Type κ} {u : U} (step : Exec T) (k : T → Exec U)
    → (step >>= k) ≡ ok u
    → (t : T) × (step ≡ ok t) × (k t ≡ ok u)
>>=-ok undefined k ran = cc
>>=-ok out_of_fuel k ran = cc
>>=-ok (ok t) k ran = (t, refl, ran)
