-- ===== src/Types/Union.antt =====
-- The unions of internal/types/union.go: values of several types of which one is current. Decoding
-- is encoding/json's: a decoder writes into the field that it is given, also when it fails.
use go_asyncapi.Common.{ℕ, zero, suc, Option, none, some, Bytes, ◌>>=◌}

pub record Union2 {ℓ κ} (T0 : Type ℓ) (T1 : Type κ) : Type (ℓ ⊔ κ) where
  pub v0 : T0
  pub v1 : T1
  pub selector : ℕ

pub record Union3 {ℓ κ ι} (T0 : Type ℓ) (T1 : Type κ) (T2 : Type ι) : Type (ℓ ⊔ κ ⊔ ι) where
  pub v0 : T0
  pub v1 : T1
  pub v2 : T2
  pub selector : ℕ

-- The current value, with its type.
pub data Current {ℓ κ ι} (T0 : Type ℓ) (T1 : Type κ) (T2 : Type ι) : Type (ℓ ⊔ κ ⊔ ι) where
  of0 : T0 → Current T0 T1 T2
  of1 : T1 → Current T0 T1 T2
  of2 : T2 → Current T0 T1 T2

abbrev pub Error : Type 0
Error = Bytes

-- json.Unmarshal into a variable: what the variable holds afterwards, and the error if any.
abbrev pub Decoder {ℓ} : Type ℓ → Type ℓ
Decoder T = Bytes → T → T × Option Error

module _ {ℓ κ} {T0 : Type ℓ} {T1 : Type κ} where
  abbrev pub select2 : ℕ → Union2 T0 T1 → Option (Current T0 T1 (Unit {0}))
  select2 zero u = some (of0 u.v0)
  select2 (suc zero) u = some (of1 u.v1)
  select2 (suc (suc n)) u = none

  -- `none` is the panic on a selector that is neither 0 nor 1.
  unfoldable pub current2 : Union2 T0 T1 → Option (Current T0 T1 (Unit {0}))
  current2 u = select2 u.selector u

  module _ (decode0 : Decoder T0) (decode1 : Decoder T1) where
    unfoldable pub unmarshal2 : Bytes → Union2 T0 T1 → Union2 T0 T1 × Option Error
    unmarshal2 bytes u =
        let (a, e0) = decode0 bytes u.v0 in
        let (b, e1) = decode1 bytes u.v1 in
        elim e0 [
          | none ↦ (record u { v0 = a; selector = 0 }, none)
          | some _ ↦ elim e1 [
            | none ↦ (record { v0 = a; v1 = b; selector = 1 }, none)
            | some err ↦ (record { v0 = a; v1 = b; selector = u.selector }, some err)
          ]
        ]

    unfoldable pub marshal2 :
        (T0 → Option Bytes) → (T1 → Option Bytes) → Union2 T0 T1 → Option (Option Bytes)
    unfolding current2
    marshal2 encode0 encode1 u = do
      c ← current2 u
      some (elim c [ of0 x ↦ encode0 x | of1 y ↦ encode1 y | of2 _ ↦ none ])
