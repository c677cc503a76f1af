-- ===== src/Text.antt =====
-- Rust strings as lists of Unicode scalar values, with the functions of `str` that the program
-- uses. A literal is `codes "…"`, which stays folded until a proof unfolds `codes`.
pub mod Utf8
pub mod Decimal
pub mod Hex
pub mod Lines
pub mod Fields
use Prim.Native.Char.{code}
use Prim.Native.String.{String}
use nm_dbus_proxy_rs.Prelude.{
  subst, ℕ, ◌≡◌, refl, ◌↔◌, Bool, true, false, ◌&&◌, ◌||◌, List, [], ◌∷◌, arith, eqb, if◌then◌else◌,
}

abbrev pub Str : Type 0
Str = List ℕ

unfoldable pub codes : String → Str
codes String.[] = []
codes (String.◌∷◌ c s) = code c ∷ codes s

infix 50 ◌==◌
unfoldable pub ◌==◌ : Str → Str → Bool
[] == [] = true
[] == (y ∷ ys) = false
(x ∷ xs) == [] = false
(x ∷ xs) == (y ∷ ys) = eqb x y && (xs == ys)

pub ==_sound : (a b : Str) → (a == b) ≡ true → a ≡ b
unfolding ◌==◌
==_sound [] [] h = refl
==_sound [] (y ∷ ys) h = cc
==_sound (x ∷ xs) [] h = cc
==_sound (x ∷ xs) (y ∷ ys) h = ground (arith, ==_sound xs ys)

pub ==_refl : (a : Str) → (a == a) ≡ true
unfolding ◌==◌
==_refl [] = refl
==_refl (x ∷ xs) = ground (arith, ==_refl xs)

pub ==_iff : (a b : Str) → ((a == b) ≡ true) ↔ (a ≡ b)
==_iff a b = (==_sound a b, λ e. subst (λ x. (a == x) ≡ true) e (==_refl a))

-- `str::starts_with` and `str::ends_with`.
unfoldable pub starts_with : Str → Str → Bool
starts_with xs [] = true
starts_with [] (p ∷ ps) = false
starts_with (x ∷ xs) (p ∷ ps) = eqb x p && starts_with xs ps

unfoldable pub ends_with : Str → Str → Bool
ends_with [] p = [] == p
ends_with (x ∷ xs) p = if (x ∷ xs) == p then true else ends_with xs p

unfoldable pub contains : ℕ → Str → Bool
contains c [] = false
contains c (x ∷ xs) = eqb x c || contains c xs

-- `s.rsplit(c).next()`: what stands behind the last `c`, the whole text where there is none.
-- `rsplit` always yields a first item, so this is no `Option`.
unfoldable pub after_last : ℕ → Str → Str
unfolding contains
after_last c [] = []
after_last c (x ∷ xs) = if contains c xs then after_last c xs else if eqb x c then xs else x ∷ xs
