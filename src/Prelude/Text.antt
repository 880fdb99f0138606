-- ===== src/Prelude/Text.antt =====
-- Byte strings as lists of numbers.
use pp.Prelude.Tests.{◌==◌, leb, if◌then◌else◌, Bool-cases, Option-cases}
use pp.Prelude.Lists.{length, All}
use Prim.Native.Nat.{ℕ, suc, ◌+◌, ◌-◌, ◌*◌, ◌%◌, ◌^◌}
use Prim.Native.Char.{code}
use Prim.Native.String.{String}
use mathlib.Core.Option.{Option, none, some}
use mathlib.Core.Path.{◌≡◌, refl}
use mathlib.Core.Logic.{◌↔◌, ◌≢◌, inl, inr}
use mathlib.Core.Bool.{Bool, true, false, ◌&&◌, ◌||◌}
use mathlib.Core.List.{List, [], ◌∷◌, ◌++◌}
use native.Mathlib.Omega.{arith}

abbrev pub Bytes : Type 0
Bytes = List ℕ

-- `==` of std::string and std::string_view.
unfoldable pub bytes_eq : Bytes → Bytes → Bool
bytes_eq [] [] = true
bytes_eq [] (b ∷ bs) = false
bytes_eq (a ∷ cs) [] = false
bytes_eq (a ∷ cs) (b ∷ bs) = a == b && bytes_eq cs bs

pub bytes_eq_iff : (cs bs : Bytes) → (bytes_eq cs bs ≡ true) ↔ (cs ≡ bs)
unfolding bytes_eq
bytes_eq_iff [] [] = ground arith
bytes_eq_iff [] (b ∷ bs) = ground arith
bytes_eq_iff (a ∷ cs) [] = ground arith
bytes_eq_iff (a ∷ cs) (b ∷ bs) = ground (arith, bytes_eq_iff cs bs)

-- The bytes of an ASCII text.
abbrev pub codes : String → Bytes
codes String.[] = []
codes (String.◌∷◌ c s) = code c ∷ codes s

-- tolower
unfoldable pub to_lower : ℕ → ℕ
to_lower c = if leb b'A' c && leb c b'Z' then c + 32 else c

-- `strncasecmp(p, s, strlen(p)) == 0`
unfoldable pub has_prefix_nocase : Bytes → Bytes → Bool
unfolding to_lower
has_prefix_nocase [] s = true
has_prefix_nocase (c ∷ p) [] = false
has_prefix_nocase (c ∷ p) (b ∷ s) = to_lower c == to_lower b && has_prefix_nocase p s

-- `find(c)`
unfoldable pub find_byte : ℕ → Bytes → Option ℕ
find_byte c [] = none
find_byte c (b ∷ s) =
    if b == c then some 0 else elim (find_byte c s) [ none ↦ none | some i ↦ some (suc i) ]

-- `find("\r\n")`, with what stands before and behind it.
unfoldable pub split_line : Bytes → Option (Bytes × Bytes)
split_line [] = none
split_line (a ∷ []) = none
split_line (a ∷ b ∷ s) =
    if a == 13 && b == 10
    then some ([], s)
    else elim (split_line (b ∷ s)) [ none ↦ none | some (line, rest) ↦ some (a ∷ line, rest) ]

-- The number that the digits at the start stand for, behind `n`.
unfoldable pub digits : ℕ → Bytes → ℕ
digits n [] = n
digits n (b ∷ s) = if leb b'0' b && leb b b'9' then digits (n * 10 + (b - b'0')) s else n

unfoldable pub skip_spaces : Bytes → Bytes
skip_spaces [] = []
skip_spaces (b ∷ s) = if b == 32 || (leb 9 b && leb b 13) then skip_spaces s else b ∷ s

-- strtol stops at the largest and the smallest number of 64 bits.
unfoldable pub saturate : (bound n : ℕ) → ℕ
saturate bound n = if leb n bound then n else bound

-- atoi and atoll as glibc has them, strtol and a conversion to their type, assigned to an unsigned
-- number of a size.
unfoldable pub ascii_to_unsigned : ℕ → Bytes → ℕ
unfolding digits skip_spaces saturate
ascii_to_unsigned size s = elim (skip_spaces s) [
  | [] ↦ 0
  | b ∷ rest ↦
      if b == b'-'
      then (size - saturate (2 ^ 63) (digits 0 rest) % size) % size
      else if b == b'+'
      then saturate (2 ^ 63 - 1) (digits 0 rest) % size
      else saturate (2 ^ 63 - 1) (digits 0 (b ∷ rest)) % size
]

-- A line that is found, its end and what follows are the whole text.
pub split_line-length :
    (s line rest : Bytes)
    → split_line s ≡ some (line, rest)
    → length s ≡ length line + 2 + length rest
unfolding split_line
split_line-length [] line rest h = cc
split_line-length (a ∷ []) line rest h = cc
split_line-length (a ∷ b ∷ s) line rest h = elim (Bool-cases (a == 13 && b == 10)) [
  | inl ends ↦ ground (arith, h, ends)
  | inr more ↦ elim (Option-cases (split_line (b ∷ s))) [
    | inl missing ↦ ground (arith, h, more, missing)
    | inr ((line', rest'), found) ↦
        ground (arith, h, more, found, split_line-length (b ∷ s) line' rest' found)
  ]
]

-- A text without a carriage return is a line.
pub split_line-append :
    (line rest : Bytes)
    → All (λ b. b ≢ 13) line
    → split_line (line ++ (13 ∷ 10 ∷ rest)) ≡ some (line, rest)
unfolding split_line
split_line-append [] rest h = refl
split_line-append (a ∷ []) rest h = ground (arith, h.0)
split_line-append (a ∷ b ∷ line) rest h = ground (arith, h.0, split_line-append (b ∷ line) rest h.1)
