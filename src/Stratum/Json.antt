-- ===== src/Stratum/Json.antt =====
-- What stratum.c uses of jansson: a parameter. A pointer that may be NULL is an option, and a test
-- on NULL answers no, as the library documents.
use btcrig.Word.{u32}
use btcrig.Base.{
  ℕ, zero, suc, ◌-◌, ◌^◌, ltb, if◌then◌else◌, Bool, false, Option, none, some, List, [], ◌∷◌, ◌>>=◌,
}

-- json_int_t, an integer of 64 bits: `negative n` is -(n + 1).
pub data Signed : Type 0 where
  negative : ℕ → Signed
  whole : ℕ → Signed

-- The 32 bits of `(int)value`
unfoldable pub int_bits : Signed → ℕ
int_bits (negative n) = 2 ^ 32 - 1 - u32 n
int_bits (whole n) = u32 n

pub record Json (D : Type 0) : Type 1 where
  pub Value : Type 0
  -- json_loads
  pub loads : List ℕ → Option Value
  -- json_object_get
  pub member : Value → List ℕ → Option Value
  -- The elements, when json_is_array holds.
  pub elements : Value → Option (List Value)
  pub string_value : Value → Option (List ℕ)
  pub integer_value : Value → Option Signed
  pub number_value : Value → Option D
  pub is_true : Value → Bool
  pub is_null : Value → Bool

module _ {D : Type 0} (J : Json D) where
  -- json_array_get, which gives NULL beyond the end.
  unfoldable pub element : List J.Value → ℕ → Option J.Value
  element [] i = none
  element (v ∷ vs) zero = some v
  element (v ∷ vs) (suc i) = element vs i

  -- `json_is_array(params) ? json_array_get(params, i) : NULL`
  unfoldable pub parameter : Option J.Value → ℕ → Option J.Value
  unfolding element
  parameter params i = params >>= λ v. J.elements v >>= λ vs. element vs i

  -- `json_string_or_empty`
  unfoldable pub string_or_empty : Option J.Value → List ℕ
  string_or_empty none = []
  string_or_empty (some v) = elim (J.string_value v) [ none ↦ [] | some s ↦ s ]

  unfoldable pub holds_true : Option J.Value → Bool
  holds_true none = false
  holds_true (some v) = J.is_true v

-- What the session keeps of a size, `(int)size`: an int below 0 is used as 0 is.
unfoldable pub size_of : Signed → ℕ
unfolding int_bits
size_of size = if ltb (int_bits size) (2 ^ 31) then int_bits size else 0
