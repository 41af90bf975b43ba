-- ===== src/Base/Text.antt =====
-- std::string and std::vector<std::uint8_t> as lists of bytes. Both are compared in
-- lexicographic order, and std::string compares its characters as unsigned bytes.
use Prim.Native.Nat.{ℕ, compare, Ordering}
use Prim.Native.Char.{code}
use Prim.Native.String.{String}
use mathlib.Core.Path.{◌≡◌, refl}
use mathlib.Core.Logic.{◌↔◌}
use mathlib.Core.Bool.{Bool, true, false}
use mathlib.Core.List.{List, [], ◌∷◌}
use native.Mathlib.Omega.{arith}

abbrev pub Bytes : Type 0
Bytes = List ℕ

-- The bytes of an ASCII text.
abbrev pub codes : String → Bytes
codes String.[] = []
codes (String.◌∷◌ c s) = code c ∷ codes s

pub data ThreeWay : Type 0 where
  less equal greater : ThreeWay

abbrev pub compare_byte : ℕ → ℕ → ThreeWay
compare_byte a b = elim (compare a b) [
  | Ordering.lt ↦ less
  | Ordering.eq ↦ equal
  | Ordering.gt ↦ greater
]

abbrev pub or_else : ThreeWay → ThreeWay → ThreeWay
or_else equal d = d
or_else c d = c

unfoldable pub lex_compare : Bytes → Bytes → ThreeWay
lex_compare [] [] = equal
lex_compare [] (y ∷ ys) = less
lex_compare (x ∷ xs) [] = greater
lex_compare (x ∷ xs) (y ∷ ys) = or_else (compare_byte x y) (lex_compare xs ys)

abbrev pub is_less : ThreeWay → Bool
is_less less = true
is_less _ = false

abbrev pub is_equal : ThreeWay → Bool
is_equal equal = true
is_equal _ = false

-- operator== and operator< of std::string and of std::vector<std::uint8_t>
unfoldable pub bytes_eq : Bytes → Bytes → Bool
bytes_eq [] [] = true
bytes_eq (x ∷ xs) (y ∷ ys) = elim (compare x y) [ Ordering.eq ↦ bytes_eq xs ys | _ ↦ false ]
bytes_eq _ _ = false

unfoldable pub bytes_lt : Bytes → Bytes → Bool
unfolding lex_compare
bytes_lt xs ys = is_less (lex_compare xs ys)

-- Three-way comparison seen from the other side.
abbrev pub opposite : ThreeWay → ThreeWay
opposite less = greater
opposite equal = equal
opposite greater = less

pub bytes_eq_refl : (xs : Bytes) → bytes_eq xs xs ≡ true
unfolding bytes_eq
bytes_eq_refl [] = refl
bytes_eq_refl (x ∷ xs) = ground (arith, bytes_eq_refl xs)

pub bytes_eq→eq : (xs ys : Bytes) → bytes_eq xs ys ≡ true → xs ≡ ys
unfolding bytes_eq
bytes_eq→eq [] [] h = refl
bytes_eq→eq [] (y ∷ ys) h = cc
bytes_eq→eq (x ∷ xs) [] h = cc
bytes_eq→eq (x ∷ xs) (y ∷ ys) h = ground (arith, bytes_eq→eq xs ys)

pub bytes_eq_iff : (xs ys : Bytes) → (bytes_eq xs ys ≡ true) ↔ (xs ≡ ys)
bytes_eq_iff xs ys = (bytes_eq→eq xs ys, λ e. rw e (bytes_eq_refl ys))

pub lex_compare_self : (xs : Bytes) → lex_compare xs xs ≡ equal
unfolding lex_compare
lex_compare_self [] = refl
lex_compare_self (x ∷ xs) = ground (arith, lex_compare_self xs)

pub lex_compare-equal : (xs ys : Bytes) → lex_compare xs ys ≡ equal → xs ≡ ys
unfolding lex_compare
lex_compare-equal [] [] h = refl
lex_compare-equal [] (y ∷ ys) h = cc
lex_compare-equal (x ∷ xs) [] h = cc
lex_compare-equal (x ∷ xs) (y ∷ ys) h = ground (arith, lex_compare-equal xs ys)

pub lex_compare-opposite : (xs ys : Bytes) → lex_compare ys xs ≡ opposite (lex_compare xs ys)
unfolding lex_compare
lex_compare-opposite [] [] = refl
lex_compare-opposite [] (y ∷ ys) = refl
lex_compare-opposite (x ∷ xs) [] = refl
lex_compare-opposite (x ∷ xs) (y ∷ ys) = ground (arith, lex_compare-opposite xs ys)

pub lex_compare_trans :
    (xs ys zs : Bytes)
    → lex_compare xs ys ≡ less
    → lex_compare ys zs ≡ less
    → lex_compare xs zs ≡ less
unfolding lex_compare
lex_compare_trans [] [] zs h k = cc
lex_compare_trans [] (y ∷ ys) [] h k = cc
lex_compare_trans [] (y ∷ ys) (z ∷ zs) h k = refl
lex_compare_trans (x ∷ xs) [] zs h k = cc
lex_compare_trans (x ∷ xs) (y ∷ ys) [] h k = cc
lex_compare_trans (x ∷ xs) (y ∷ ys) (z ∷ zs) h k = ground (arith, lex_compare_trans xs ys zs)
