-- ===== src/Device/Running.antt =====
-- Which active connection runs on an interface: the search of
-- `active_connection_path_for_interface` in runtime.rs, by the splits of lists and texts.
use nm_dbus_proxy_rs.Prelude.{
  ◌≡◌, refl, ap, ◌∙◌, Bool, Bool-cases, inl, inr, true, false, List, [], ◌∷◌, ◌++◌, Option, none,
  some, any, find_if, All, arith,
}
use nm_dbus_proxy_rs.Text.{Str, ends_with, ◌==◌, ==_iff, ==_refl}
use nm_dbus_proxy_rs.Paths.{ObjectPath}
use nm_dbus_proxy_rs.Runtime.State.{ActiveConnectionRecord}
use nm_dbus_proxy_rs.Runtime.Active.{runs_on}

-- One of the record's devices has a path that the interface's name ends.
pub record RunsOn (name : Str) (r : ActiveConnectionRecord) : Type 0 where
  pub earlier : List ObjectPath
  pub later : List ObjectPath
  pub front : Str
  pub has_device : r.value.devices ≡ earlier ++ (front ++ name) ∷ later

-- The first record of a list that runs on the interface.
pub record IsFirstOn (name : Str) (l : List ActiveConnectionRecord) (r : ActiveConnectionRecord)
    : Type 0 where
  pub earlier : List ActiveConnectionRecord
  pub later : List ActiveConnectionRecord
  pub is_split : l ≡ earlier ++ r ∷ later
  pub runs : RunsOn name r
  pub none_earlier : All (λ q. ¬ RunsOn name q) earlier

ends_with-front : (d name : Str) → ends_with d name ≡ true → (front : Str) × (d ≡ front ++ name)
unfolding ends_with
ends_with-front [] name h = ([], (==_iff [] name).0 h)
ends_with-front (c ∷ d) name h = elim (Bool-cases ((c ∷ d) == name)) [
  | inl same ↦ ([], (==_iff (c ∷ d) name).0 same)
  | inr other ↦
      let (front, e) = ends_with-front d name (ground (arith, h, other)) in
      (c ∷ front, ap (λ t. c ∷ t) e)
]

front-ends_with : (front name : Str) → ends_with (front ++ name) name ≡ true
unfolding ends_with
front-ends_with [] [] = ==_refl []
front-ends_with [] (c ∷ name) = rw (==_refl (c ∷ name)) refl
front-ends_with (c ∷ front) name = ground (arith, front-ends_with front name)

any-middle :
    {A : Type 0}
    → (p : A → Bool) (xs ys : List A) (a : A) → p a ≡ true
    → any p (xs ++ a ∷ ys) ≡ true
unfolding any
any-middle p [] ys a h = rw h refl
any-middle p (x ∷ xs) ys a h = ground (arith, any-middle p xs ys a h)

device_split :
    (name : Str) (l : List ObjectPath)
    → any (λ path. ends_with path name) l ≡ true
    → (earlier : List ObjectPath) × (later : List ObjectPath) × (front : Str) × (l
        ≡ earlier ++ (front ++ name) ∷ later)
unfolding any
device_split name [] h = absurd (cc)
device_split name (d ∷ l) h = elim (Bool-cases (ends_with d name)) [
  | inl hit ↦ let (front, e) = ends_with-front d name hit in ([], l, front, ap (λ t. t ∷ l) e)
  | inr miss ↦
      let (earlier, later, front, e) = device_split name l (ground (arith, h, miss)) in
      (d ∷ earlier, later, front, ap (λ t. d ∷ t) e)
]

runs_on-RunsOn : (name : Str) (r : ActiveConnectionRecord) → runs_on name r ≡ true → RunsOn name r
unfolding runs_on
runs_on-RunsOn name r h =
    let (earlier, later, front, e) = device_split name r.value.devices h in
    record { earlier = earlier; later = later; front = front; has_device = e }

idle_lem : (name : Str) (r : ActiveConnectionRecord) → runs_on name r ≡ false → ¬ RunsOn name r
unfolding runs_on
idle_lem name r h = λ on.
    let hit =
      any-middle (λ path. ends_with path name) on.earlier on.later (on.front ++ name)
        (front-ends_with on.front name) in
    let found = ap (any (λ path. ends_with path name)) on.has_device ∙ hit in cc (found, h)

-- The search finds the first record that runs on the interface, and none where there is none.
abbrev pub IsFound : Str → List ActiveConnectionRecord → Option ActiveConnectionRecord → Type 0
IsFound name l none = All (λ q. ¬ RunsOn name q) l
IsFound name l (some r) = IsFirstOn name l r

later_lem :
    (name : Str) (q : ActiveConnectionRecord) (l : List ActiveConnectionRecord)
    (found : Option ActiveConnectionRecord)
    → ¬ RunsOn name q
    → IsFound name l found
    → IsFound name (q ∷ l) found
later_lem name q l none idle h = (idle, h)
later_lem name q l (some r) idle h = record {
  earlier = q ∷ h.earlier;
  later = h.later;
  is_split = ap (λ t. q ∷ t) h.is_split;
  runs = h.runs;
  none_earlier = (idle, h.none_earlier);
}

pub find_if-IsFound :
    (name : Str) (l : List ActiveConnectionRecord) → IsFound name l (find_if (runs_on name) l)
unfolding find_if
find_if-IsFound name [] = tt
find_if-IsFound name (r ∷ l) = elim (Bool-cases (runs_on name r)) [
  | inl hit ↦ rw hit (record {
    earlier = [];
    later = l;
    is_split = refl;
    runs = runs_on-RunsOn name r hit;
    none_earlier = tt;
  })
  | inr miss ↦ rw miss (later_lem name r l _ (idle_lem name r miss) (find_if-IsFound name l))
]
