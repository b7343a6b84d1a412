-- ===== src/Expected.antt =====
-- source/utils/Expected.hpp: a value, or an error.
-- An object always has both fields: where a constructor leaves one out, it holds the default value
-- that is an argument here.
use drgb_server.Prelude.{
  Bool, true, false, ◌≡◌, ◌↔◌, ◌⊎◌, inl, inr, refl, Bool-cases, if◌then◌else◌,
}

pub record Expected {ℓ κ} (T : Type ℓ) (E : Type κ) : Type (ℓ ⊔ κ) where
  pub is_successed : Bool
  pub value : T
  pub error : E

-- `Expected<T, void>`
pub record Optional {ℓ} (T : Type ℓ) : Type ℓ where
  pub is_successed : Bool
  pub value : T

module _ {ℓ κ} {T : Type ℓ} {E : Type κ} where
  unfoldable pub of_value : E → T → Bool → Expected T E
  of_value default value is_successed = record {
    is_successed = is_successed;
    value = value;
    error = default;
  }

  unfoldable pub of_full : T → E → Bool → Expected T E
  of_full value error is_successed = record {
    is_successed = is_successed;
    value = value;
    error = error;
  }

  unfoldable pub of_error : T → E → Expected T E
  of_error default error = record { is_successed = false; value = default; error = error }

  unfoldable pub value_or : Expected T E → T → T
  value_or x default_value = if x.is_successed then x.value else default_value

  -- The comparison, over those of the value and of the error.
  unfoldable pub equal : (T → T → Bool) → (E → E → Bool) → Expected T E → Expected T E → Bool
  equal same_value same_error lhs rhs =
      let both : Bool =
        if lhs.is_successed
        then same_value lhs.value rhs.value
        else same_error lhs.error rhs.error in
      if lhs.is_successed
      then (if rhs.is_successed then both else false)
      else (if rhs.is_successed then false else both)

module _ {ℓ} {T : Type ℓ} where
  unfoldable pub some_value : T → Bool → Optional T
  some_value value is_successed = record { is_successed = is_successed; value = value }

  unfoldable pub no_value : T → Optional T
  no_value default = record { is_successed = false; value = default }

  unfoldable pub optional_or : Optional T → T → T
  optional_or x default_value = if x.is_successed then x.value else default_value

  unfoldable pub optional_equal : (T → T → Bool) → Optional T → Optional T → Bool
  optional_equal same_value lhs rhs =
      if lhs.is_successed
      then (if rhs.is_successed then same_value lhs.value rhs.value else false)
      else (if rhs.is_successed then false else true)

  -- Two results compare equal exactly if both have a value, and the values compare equal, or neither
  -- has one.
  pub optional_equal_cases :
      (same_value : T → T → Bool) (lhs rhs : Optional T)
      → (optional_equal same_value lhs rhs ≡ true) ↔ (
          ((lhs.is_successed ≡ true)
            × (rhs.is_successed ≡ true)
            × (same_value lhs.value rhs.value ≡ true))
          ⊎ ((lhs.is_successed ≡ false) × (rhs.is_successed ≡ false)))
  unfolding optional_equal
  optional_equal_cases same_value lhs rhs = (
    λ h. elim (Bool-cases lhs.is_successed) [
      | inl e ↦ elim (Bool-cases rhs.is_successed) [
        | inl e' ↦ inl (e, e', rw e' at (rw e at h))
        | inr e' ↦ cc (rw e' at (rw e at h))
      ]
      | inr e ↦ elim (Bool-cases rhs.is_successed) [
        | inl e' ↦ cc (rw e' at (rw e at h))
        | inr e' ↦ inr (e, e')
      ]
    ],
    λ h. elim h [ inl (e, e', same) ↦ rw (e, e') same | inr (e, e') ↦ rw (e, e') refl ],
  )
