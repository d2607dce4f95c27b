-- ===== src/CString.antt =====
-- C strings as lists of bytes without the final zero, and the two ways in which miner.c and
-- stratum.c copy them into an array of `size` chars.
use Prim.Native.Char.{code}
use Prim.Native.String.{String}
use btcrig.Base.{
  ℕ, ◌-◌, Bool, true, false, ◌&&◌, Option, none, some, List, [], ◌∷◌, leb, ◌==◌, if◌then◌else◌,
  length, take,
}

-- `none` is the -1 of a string that does not fit with its final zero.
unfoldable pub copy_checked : ℕ → List ℕ → Option (List ℕ)
copy_checked size src = if leb size (length src) then none else some src

-- `snprintf(dst, size, "%s", src)` cuts the string.
unfoldable pub copy_cut : ℕ → List ℕ → List ℕ
copy_cut size src = take (size - 1) src

-- What the array holds where the result of `copy_checked` is not looked at.
unfoldable pub copied_or_empty : Option (List ℕ) → List ℕ
copied_or_empty none = []
copied_or_empty (some s) = s

-- The bytes of a literal, which is ASCII.
abbrev pub codes : String → List ℕ
codes String.[] = []
codes (String.◌∷◌ c s) = code c ∷ codes s

-- `strcmp(a, b) == 0`
abbrev pub same_text : List ℕ → List ℕ → Bool
same_text [] [] = true
same_text [] (b ∷ bs) = false
same_text (a ∷ xs) [] = false
same_text (a ∷ xs) (b ∷ bs) = a == b && same_text xs bs

-- `strncmp(text, prefix, strlen(prefix)) == 0`
abbrev pub starts_with : List ℕ → List ℕ → Bool
starts_with text [] = true
starts_with [] (b ∷ bs) = false
starts_with (a ∷ xs) (b ∷ bs) = a == b && starts_with xs bs

-- The C string that begins an array of bytes: what stands in front of the first zero.
unfoldable pub c_string : List ℕ → List ℕ
c_string [] = []
c_string (b ∷ bs) = let rest = c_string bs in if b == 0 then [] else b ∷ rest
