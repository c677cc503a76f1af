-- ===== src/Text/Decimal.antt =====
-- `format!("{}", n)` and `str::parse::<usize>` of the standard library.
use nm_dbus_proxy_rs.Prelude.{
  ℕ, zero, suc, ◌+◌, ◌-◌, ◌*◌, ◌/◌, ◌%◌, ◌<◌, ◌≡◌, refl, ◌≢◌, true, ◌&&◌, [], ◌∷◌, ◌++◌, Option,
  none, some, arith, eqb, ltb, false, leb, if◌then◌else◌, inl, inr, Bool-cases, ltb→lt, ap, ◌∙◌,
}
use nm_dbus_proxy_rs.Prelude.Word.{word_mod}
use nm_dbus_proxy_rs.Text.{Str, contains}

digits : ℕ → ℕ → Str
digits zero n = []
digits (suc f) n =
    let more = digits f (n / 10) ++ (48 + n % 10) ∷ [] in if ltb n 10 then (48 + n) ∷ [] else more

-- A number has fewer digits than its value plus one.
unfoldable pub to_dec : ℕ → Str
unfolding digits
to_dec n = digits (suc n) n

digit : ℕ → Option ℕ
digit c = if leb 48 c && leb c 57 then some (c - 48) else none

-- One digit more; `none` for another character or a value of 2^64 or more.
push_digit : ℕ → ℕ → Option ℕ
unfolding digit
push_digit acc c = elim (digit c) [
  | none ↦ none
  | some d ↦ if ltb (acc * 10 + d) word_mod then some (acc * 10 + d) else none
]

read : Option ℕ → Str → Option ℕ
read none s = none
read (some acc) [] = some acc
read (some acc) (c ∷ s) = read (push_digit acc c) s

-- One leading `+` is accepted; there must be a digit.
unfoldable pub parse_usize : Str → Option ℕ
unfolding read push_digit
parse_usize [] = none
parse_usize (c ∷ []) = read (some 0) (c ∷ [])
parse_usize (c ∷ d ∷ s) = if eqb c b'+' then read (some 0) (d ∷ s) else read (some 0) (c ∷ d ∷ s)

abbrev then_push : Option ℕ → ℕ → Option ℕ
then_push none c = none
then_push (some acc) c = push_digit acc c

read-append : (o : Option ℕ) (s : Str) (c : ℕ) → read o (s ++ c ∷ []) ≡ then_push (read o s) c
unfolding read
read-append none [] c = refl
read-append none (d ∷ s) c = refl
read-append (some acc) [] c = ground arith
read-append (some acc) (d ∷ s) c = read-append (push_digit acc d) s c

push_digit_lem :
    (acc d : ℕ) → d < 10 → acc * 10 + d < word_mod → push_digit acc (48 + d) ≡ some (acc * 10 + d)
unfolding push_digit
push_digit_lem acc d h b = ground arith

read_nil : (o : Option ℕ) → read o [] ≡ o
unfolding read
read_nil none = refl
read_nil (some n) = refl

read_one : (n : ℕ) → n < 10 → n < word_mod → read (some 0) ((48 + n) ∷ []) ≡ some n
unfolding read
read_one n h b =
    read_nil (push_digit 0 (48 + n)) ∙ push_digit_lem 0 n h (omega arith) ∙ ap some (omega arith)

read-digits : (f n : ℕ) → n < f → n < word_mod → read (some 0) (digits f n) ≡ some n
unfolding read digits
read-digits zero n h b = absurd (omega arith)
read-digits (suc f) n h b = elim (Bool-cases (ltb n 10)) [
  | inl small ↦ rw small (read_one n (omega (arith, ltb→lt n 10 small)) b)
  | inr big ↦
      let upper : read (some 0) (digits f (n / 10)) ≡ some (n / 10) =
        read-digits f (n / 10) (ground arith) (omega arith) in
      rw big (
        read-append (some 0) (digits f (n / 10)) (48 + n % 10)
        ∙ ap (λ o. then_push o (48 + n % 10)) upper
        ∙ push_digit_lem (n / 10) (n % 10) (omega arith) (omega arith)
        ∙ ap some (omega arith))
]

read-plus : (c : ℕ) (s : Str) (n : ℕ) → eqb c b'+' ≡ true → read (some 0) (c ∷ s) ≢ some n
unfolding read push_digit
read-plus c [] n p = ground arith
read-plus c (d ∷ s) n p = ground arith

parse_usize-read : (s : Str) (n : ℕ) → s ≢ [] → read (some 0) s ≡ some n → parse_usize s ≡ some n
unfolding parse_usize
parse_usize-read [] n h e = absurd (h refl)
parse_usize-read (c ∷ []) n h e = e
parse_usize-read (c ∷ d ∷ s) n h e = elim (Bool-cases (eqb c b'+')) [
  | inl plus ↦ absurd (read-plus c (d ∷ s) n plus e)
  | inr other ↦ rw other e
]

cons_ne_nil : (s : Str) (c : ℕ) → s ++ c ∷ [] ≢ []
cons_ne_nil [] c = λ e. cc
cons_ne_nil (d ∷ s) c = λ e. cc

digits-ne-nil : (f n : ℕ) → digits (suc f) n ≢ []
unfolding digits
digits-ne-nil f n = ground (arith, cons_ne_nil (digits f (n / 10)) (48 + n % 10))

-- A machine number comes back from its decimal text.
pub parse_usize-to_dec : (n : ℕ) → n < word_mod → parse_usize (to_dec n) ≡ some n
unfolding to_dec
parse_usize-to_dec n h =
    parse_usize-read (digits (suc n) n) n (digits-ne-nil n n)
      (read-digits (suc n) n (omega arith) h)

contains-push :
    (c d : ℕ) (s : Str) → contains c s ≡ false → eqb d c ≡ false → contains c (s ++ d ∷ []) ≡ false
unfolding contains
contains-push c d [] h e = ground arith
contains-push c d (x ∷ s) h e = ground (arith, contains-push c d s)

contains-digits : (c f n : ℕ) → c < 48 → contains c (digits f n) ≡ false
unfolding contains digits
contains-digits c zero n h = refl
contains-digits c (suc f) n h =
    ground
      (arith, contains-push c (48 + n % 10) (digits f (n / 10)) (contains-digits c f (n / 10) h))

-- Decimal text has digits alone, so no `/`.
pub contains-to_dec : (n : ℕ) → contains b'/' (to_dec n) ≡ false
unfolding to_dec
contains-to_dec n = contains-digits b'/' (suc n) n (omega arith)
