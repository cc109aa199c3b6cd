-- ===== src/Protocol/Validate.antt =====
-- What `Header.Validate` accepts.
use text.Mathlib.TextEquality.{eq_iff}
use orv.Base.{ℕ, ◌≡◌, ◌≢◌, ◌⊎◌, ◌↔◌, arith, false, String, []}
use orv.Version.Byte.{IsNibbles}
use orv.Protocol.{Header, validate}

-- What a header needs to have no issue.
pub record IsSound (h : Header) : Type 0 where
  pub nibbles : IsNibbles h.version
  pub typed : h.type ≢ 0
  pub short_without_id : (h.shorthand ≡ false) ⊎ (h.id ≡ 0)

module _ (type_string : ℕ → String) (named : (t : ℕ) → type_string t ≡ "UNKNOWN" → t ≡ 0) where
  validate-IsSound : (h : Header) → validate type_string h ≡ [] → IsSound h
  unfolding validate
  validate-IsSound h e = ground (arith, eq_iff (type_string h.type) "UNKNOWN", named h.type)

  IsSound-validate : (h : Header) → IsSound h → validate type_string h ≡ []
  unfolding validate
  IsSound-validate h e = ground (arith, eq_iff (type_string h.type) "UNKNOWN", named h.type)

  -- Where only type 0 is written "UNKNOWN", as the generated code does, a header has no issue
  -- exactly if its version fits into nibbles, its type is not 0, and a shorthand header has no ID.
  pub validate_iff : (h : Header) → (validate type_string h ≡ []) ↔ IsSound h
  validate_iff h = (validate-IsSound h, IsSound-validate h)
