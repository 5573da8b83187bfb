-- ===== src/Scull/Access/Cloned.antt =====
-- The devices by terminal (scull/access.c, `scull_c_lookfor_device`, `scull_c_open`): a map from keys
-- to devices.
use device_drivers_lab_proje.Prelude.{
  ℕ, ◌≡◌, ◌⊎◌, inl, inr, refl, sym, ◌∙◌, ap, arith, Bool, true, false, Option, none, some, [], ◌∷◌,
  if◌then◌else◌, ◌==◌, Bool-cases,
}
use device_drivers_lab_proje.Prelude.Int.{pos, enomem}
use device_drivers_lab_proje.Scull.Dev.{ScullDev, Params, scull_trim}
use device_drivers_lab_proje.Scull.Access.{
  Clones, zeroed, open_dev, find_clone, scull_c_lookfor_device, change_clone, scull_c_open,
  found_or_new, open_found,
}

-- The device that a search found, changed.
abbrev pub map_found : (ScullDev → ScullDev) → Option ScullDev → Option ScullDev
map_found f none = none
map_found f (some d) = some (f d)

find_clone-change_clone :
    (key k : ℕ) (f : ScullDev → ScullDev) (cs : Clones)
    → find_clone k (change_clone key f cs)
      ≡ (if k == key then map_found f (find_clone k cs) else find_clone k cs)
unfolding find_clone change_clone
find_clone-change_clone key k f [] = ground arith
find_clone-change_clone key k f ((j, d) ∷ cs) =
    let later = find_clone-change_clone key k f cs in ground arith

-- The device that an open gives: the one with the key, or a new one, trimmed for a write-only open.
abbrev pub given : Params → Bool → Option ScullDev → ScullDev
given p wronly none = open_dev p wronly (scull_trim p zeroed)
given p wronly (some d) = open_dev p wronly d

scull_c_open_found :
    (p : Params) (wronly memory : Bool) (key : ℕ) (cs : Clones) (d : ScullDev)
    → find_clone key cs ≡ some d
    → scull_c_open p wronly memory (some key) cs ≡ (pos 0, change_clone key (open_dev p wronly) cs)
unfolding scull_c_open scull_c_lookfor_device
scull_c_open_found p wronly memory key cs d e =
    ap (λ o. open_found p wronly key (found_or_new p memory key cs o)) e

scull_c_open_new :
    (p : Params) (wronly memory : Bool) (key : ℕ) (cs : Clones)
    → find_clone key cs ≡ none
    → scull_c_open p wronly memory (some key) cs ≡ (
        if memory
        then (pos 0, change_clone key (open_dev p wronly) ((key, scull_trim p zeroed) ∷ cs))
        else (enomem, cs))
unfolding scull_c_open scull_c_lookfor_device
scull_c_open_new p wronly true key cs e =
    ap (λ o. open_found p wronly key (found_or_new p true key cs o)) e
scull_c_open_new p wronly false key cs e =
    ap (λ o. open_found p wronly key (found_or_new p false key cs o)) e

find_clone-new :
    (key k : ℕ) (f : ScullDev → ScullDev) (d : ScullDev) (cs : Clones)
    → find_clone k (change_clone key f ((key, d) ∷ cs))
      ≡ (if k == key then some (f d) else find_clone k cs)
unfolding find_clone change_clone
find_clone-new key k f d cs = ground arith

eq_of : (a b : ℕ) → a == b ≡ true → a ≡ b
eq_of a b e = ground arith

find_clone-old :
    (key k : ℕ) (f : ScullDev → ScullDev) (d : ScullDev) (cs : Clones)
    → find_clone key cs ≡ some d
    → find_clone k (change_clone key f cs) ≡ (if k == key then some (f d) else find_clone k cs)
find_clone-old key k f d cs h = find_clone-change_clone key k f cs ∙ by_key (Bool-cases (k == key))
  where
    by_key :
        (k == key ≡ true) ⊎ (k == key ≡ false)
        → (if k == key then map_found f (find_clone k cs) else find_clone k cs)
          ≡ (if k == key then some (f d) else find_clone k cs)
    by_key (inl e) = rw e (ap (map_found f) (ap (λ j. find_clone j cs) (eq_of k key e) ∙ h))
    by_key (inr e) = rw e refl

-- An open of a terminal with memory succeeds; the terminal's device is then the one it had, or a new
-- one where it had none, trimmed if the file is write-only; every other terminal's is as it was.
-- Without memory the open of a terminal that has no device yet answers ENOMEM and changes nothing.
scull_c_open-find_clone :
    (p : Params) (wronly : Bool) (key k : ℕ) (cs : Clones)
    → let (e, cs') = scull_c_open p wronly true (some key) cs in
      (e ≡ pos 0)
      × (find_clone k cs'
          ≡ (if k == key then some (given p wronly (find_clone key cs)) else find_clone k cs))
      × (((d : ScullDev) × (find_clone key cs ≡ some d))
          ⊎ (scull_c_open p wronly false (some key) cs ≡ (enomem, cs)))
unfolding find_clone scull_c_lookfor_device scull_c_open change_clone
scull_c_open-find_clone p wronly key k cs = by_found (find_clone key cs) refl
  where
    by_found :
        (o : Option ScullDev)
        → find_clone key cs ≡ o
        → let (e, cs') = scull_c_open p wronly true (some key) cs in
          (e ≡ pos 0)
          × (find_clone k cs'
              ≡ (if k == key then some (given p wronly (find_clone key cs)) else find_clone k cs))
          × (((d : ScullDev) × (find_clone key cs ≡ some d))
              ⊎ (scull_c_open p wronly false (some key) cs ≡ (enomem, cs)))
    by_found none e =
        let now = scull_c_open_new p wronly true key cs e in
        (
          ap (λ r. r.0) now,
          ap (λ r. find_clone k r.1) now
              ∙ find_clone-new key k (open_dev p wronly) (scull_trim p zeroed) cs
              ∙ ap (λ o. if k == key then some (given p wronly o) else find_clone k cs) (sym e),
          inr (scull_c_open_new p wronly false key cs e),
        )
    by_found (some d) e =
        let now = scull_c_open_found p wronly true key cs d e in
        (
          ap (λ r. r.0) now,
          ap (λ r. find_clone k r.1) now
              ∙ find_clone-old key k (open_dev p wronly) d cs e
              ∙ ap (λ o. if k == key then some (given p wronly o) else find_clone k cs) (sym e),
          inl (d, e),
        )
