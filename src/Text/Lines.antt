-- ===== src/Text/Lines.antt =====
-- `str::trim`, `str::lines`, `str::split_once` and `str::trim_matches` of the standard library.
use nm_dbus_proxy_rs.Prelude.{
  ℕ, ◌≡◌, refl, sym, ap, ◌∙◌, Bool, true, false, ◌&&◌, ◌||◌, List, [], ◌∷◌, ◌++◌, Option, none,
  some, is_empty, Bool-cases, inl, inr, arith, eqb, leb, if◌then◌else◌,
}
use nm_dbus_proxy_rs.Text.{Str, contains, starts_with}

-- `char::is_whitespace`: the `White_Space` characters of Unicode.
unfoldable pub is_white : ℕ → Bool
is_white c =
    (leb 9 c && leb c 13)
    || (eqb c 0x20
        || (eqb c 0x85
            || (eqb c 0xa0
                || (eqb c 0x1680
                    || ((leb 0x2000 c && leb c 0x200a)
                        || (eqb c 0x2028
                            || (eqb c 0x2029
                                || (eqb c 0x202f || (eqb c 0x205f || eqb c 0x3000)))))))))

unfoldable pub trim_start : Str → Str
unfolding is_white
trim_start [] = []
trim_start (c ∷ s) = let rest = trim_start s in if is_white c then rest else c ∷ s

unfoldable pub trim_end : Str → Str
unfolding is_white
trim_end [] = []
trim_end (c ∷ s) = let rest = trim_end s in if is_empty rest && is_white c then [] else c ∷ rest

unfoldable pub trim : Str → Str
unfolding trim_start trim_end
trim s = trim_end (trim_start s)

unfoldable pub push_front : ℕ → List Str → List Str
push_front c [] = (c ∷ []) ∷ []
push_front c (l ∷ ls) = (c ∷ l) ∷ ls

-- A line ends before a newline, or before a carriage return and a newline.
unfoldable pub lines : Str → List Str
unfolding push_front
lines [] = []
lines (c ∷ s) =
    let rest = lines s in
    if eqb c 10
    then [] ∷ rest
    else if eqb c 13 && starts_with s (10 ∷ [])
    then rest
    else push_front c rest

abbrev in_front : ℕ → Option (Str × Str) → Option (Str × Str)
in_front c none = none
in_front c (some (a, b)) = some (c ∷ a, b)

unfoldable pub split_once : ℕ → Str → Option (Str × Str)
split_once mark [] = none
split_once mark (c ∷ s) =
    let rest = in_front c (split_once mark s) in if eqb c mark then some ([], s) else rest

abbrev is_bracket : ℕ → Bool
is_bracket c = eqb c b'[' || eqb c b']'

unfoldable pub strip_start : Str → Str
strip_start [] = []
strip_start (c ∷ s) = let rest = strip_start s in if is_bracket c then rest else c ∷ s

unfoldable pub strip_end : Str → Str
strip_end [] = []
strip_end (c ∷ s) = let rest = strip_end s in if is_empty rest && is_bracket c then [] else c ∷ rest

-- `trim_matches(['[', ']'])`.
unfoldable pub trim_brackets : Str → Str
unfolding strip_start strip_end
trim_brackets s = strip_end (strip_start s)

-- A line as `lines` yields it and `trim` leaves it at its end.
pub record IsLine (l : Str) : Type 0 where
  pub unbroken : contains 10 l ≡ false
  pub ended : trim_end l ≡ l

trim_end-tail : (c : ℕ) (s : Str) → trim_end (c ∷ s) ≡ c ∷ s → trim_end s ≡ s
unfolding trim_end
trim_end-tail c s h = ground arith

trim_end-white : (c : ℕ) → is_white c ≡ true → trim_end (c ∷ []) ≡ []
unfolding trim_end is_empty
trim_end-white c h = rw h refl

trim_end-one : (c : ℕ) → trim_end (c ∷ []) ≡ c ∷ [] → is_white c ≡ false
trim_end-one c h = elim (Bool-cases (is_white c)) [
  | inl white ↦ absurd (let e : [] ≡ c ∷ [] = sym (trim_end-white c white) ∙ h in cc)
  | inr black ↦ black
]

-- A line comes back from a text that it starts.
pub lines-line : (l rest : Str) → IsLine l → lines (l ++ 10 ∷ rest) ≡ l ∷ lines rest
unfolding lines contains trim_end starts_with push_front is_white
lines-line [] rest h = refl
lines-line (c ∷ []) rest h = ground (arith, h.unbroken, trim_end-one c h.ended)
lines-line (c ∷ d ∷ l) rest h =
    let tail : IsLine (d ∷ l) = record {
      unbroken = ground (arith, h.unbroken);
      ended = trim_end-tail c (d ∷ l) h.ended;
    } in
    ground (arith, h.unbroken, lines-line (d ∷ l) rest tail)

trim_end_idem : (s : Str) → trim_end (trim_end s) ≡ trim_end s
unfolding trim_end
trim_end_idem [] = refl
trim_end_idem (c ∷ s) = ground (arith, trim_end_idem s)

pub trim-trim_end : (s : Str) → trim s ≡ s → trim_end s ≡ s
unfolding trim
trim-trim_end s h = ap trim_end (sym h) ∙ trim_end_idem (trim_start s) ∙ h
