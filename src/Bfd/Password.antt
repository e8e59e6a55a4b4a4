-- ===== src/Bfd/Password.antt =====
-- The password lookups of nest/password.c. `now` is current_real_time().
use bird.Common.{
  ℕ, Bool, true, ltb, leb, ◌==◌, ◌&&◌, if◌then◌else◌, Option, none, some, List, [], ◌∷◌, ◌≡◌, arith,
  Bool-cases, inl, inr,
}
use mathlib.Core.List.{Memᴰ}
use bird.Bfd.{PasswordItem}

-- The item may be used for generating at `now`.
abbrev pub is_generating : ℕ → PasswordItem → Bool
is_generating now pi = ltb pi.genfrom now && ltb now pi.gento

-- !pf || pf->genfrom < pi->genfrom
abbrev pub is_better : Option PasswordItem → PasswordItem → Bool
is_better none pi = true
is_better (some pf) pi = ltb pf.genfrom pi.genfrom

-- The loop of password_find, with the best item so far.
unfoldable pub find_from : ℕ → Bool → Option PasswordItem → List PasswordItem → Option PasswordItem
find_from now first_fit pf [] = pf
find_from now first_fit pf (pi ∷ l) =
    let better = if is_generating now pi && is_better pf pi then some pi else pf in
    let rest = find_from now first_fit better l in
    if is_generating now pi && first_fit then some pi else rest

unfoldable pub password_find : ℕ → Option (List PasswordItem) → Bool → Option PasswordItem
password_find now none first_fit = none
password_find now (some l) first_fit = find_from now first_fit none l

-- The item may be used for accepting at `now`.
abbrev pub is_accepting : ℕ → PasswordItem → Bool
is_accepting now pi = leb pi.accfrom now && ltb now pi.accto

find_id : ℕ → List PasswordItem → ℕ → Option PasswordItem
find_id now [] id = none
find_id now (pi ∷ l) id = if pi.id == id && is_accepting now pi then some pi else find_id now l id

unfoldable pub password_find_by_id : ℕ → Option (List PasswordItem) → ℕ → Option PasswordItem
unfolding find_id
password_find_by_id now none id = none
password_find_by_id now (some l) id = find_id now l id

find_id-accepted :
    (now : ℕ) (l : List PasswordItem) (id : ℕ) (pi : PasswordItem)
    → find_id now l id ≡ some pi
    → (pi.id ≡ id) × (is_accepting now pi ≡ true) × Memᴰ pi l
unfolding find_id
find_id-accepted now [] id pi h = absurd (cc)
find_id-accepted now (x ∷ l) id pi h = elim (Bool-cases (x.id == id && is_accepting now x)) [
  | inl found ↦
      let e : pi ≡ x = ground (arith, found, h) in
      (ground (arith, found, h), ground (arith, found, h), Memᴰ.head e)
  | inr other ↦
      let rest = find_id-accepted now l id pi (rw other at h) in (rest.0, rest.1, Memᴰ.tail rest.2)
]

-- A password of the list, if there is one.
abbrev pub IsConfigured : Option (List PasswordItem) → PasswordItem → Type 0
IsConfigured none pi = ⊥
IsConfigured (some l) pi = Memᴰ pi l

-- A password that is found for accepting is one of the list, has the identifier asked for and is
-- within its time.
pub find_by_id-accepted :
    (now : ℕ) (l : Option (List PasswordItem)) (id : ℕ) (pi : PasswordItem)
    → password_find_by_id now l id ≡ some pi
    → (pi.id ≡ id) × (is_accepting now pi ≡ true) × IsConfigured l pi
unfolding password_find_by_id
find_by_id-accepted now none id pi h = absurd (cc)
find_by_id-accepted now (some l) id pi h = find_id-accepted now l id pi h
