-- ===== src/Scull/Access/User.antt =====
-- The devices of one user at a time (scull/access.c, `scull_u_*` and `scull_w_*`): who can hold one
-- open beside whom.
use device_drivers_lab_proje.Prelude.{
  ℕ, suc, ◌≡◌, ◌⊎◌, inl, inr, refl, sym, ◌∙◌, ap, arith, Bool, true, false, List, [], ◌∷◌, ◌++◌,
  length, ◌==◌, Bool-cases,
}
use mathlib.Core.Path.{subst}
use device_drivers_lab_proje.Prelude.Int.{pos, ebusy, eagain}
use device_drivers_lab_proje.Scull.Dev.{Params}
use device_drivers_lab_proje.Scull.Access.{
  Caller, UserDev, Wake, signalled, woken, opened, error, scull_w_available, take_user,
  scull_u_open, scull_u_release, scull_w_open,
}

-- Where `scull_u_open` answers EBUSY, `scull_w_open` of a file that does not wait answers EAGAIN; where
-- the one opens the device, so does the other, and they leave it in the same state.
scull_w_open-scull_u_open :
    (p : Params) (wronly : Bool) (c : Caller) (d : UserDev) (ws : List Wake)
    → ((scull_u_open p wronly c d ≡ (ebusy, d))
        × (scull_w_open p wronly true c d ws ≡ error eagain))
      ⊎ ((d' : UserDev) × (scull_u_open p wronly c d ≡ (pos 0, d'))
          × (scull_w_open p wronly true c d ws ≡ opened d'))
unfolding scull_u_open scull_w_open scull_w_available
scull_w_open-scull_u_open p wronly c d [] = ground arith
scull_w_open-scull_u_open p wronly c d (signalled ∷ ws) = ground arith
scull_w_open-scull_u_open p wronly c d (woken d' ∷ ws) = ground arith

-- The device with those that hold it open.
pub record Held : Type 0 where
  pub dev : UserDev
  pub holders : List Caller

-- An open that succeeds, of the one kind or the other, and the release of any holder.
pub data Step (p : Params) : Held → Held → Type 0 where
  open_u :
      (h : Held) (wronly : Bool) (c : Caller) (d : UserDev)
      → scull_u_open p wronly c h.dev ≡ (pos 0, d)
      → Step p h (record { dev = d; holders = c ∷ h.holders })
  open_w :
      (h : Held) (wronly : Bool) (c : Caller)
      → scull_w_available c h.dev ≡ true
      → Step p h (record { dev = take_user p wronly c h.dev; holders = c ∷ h.holders })
  release :
      (h : Held) (before after : List Caller) (c : Caller)
      → h.holders ≡ before ++ (c ∷ after)
      → Step p h (record { dev = scull_u_release h.dev; holders = before ++ after })

pub data Reach (p : Params) (h : Held) : Held → Type 0 where
  here : Reach p h h
  next : {k l : Held} → Reach p h k → Step p k l → Reach p h l

-- Whom the owner's device is open to.
abbrev pub MayHold : ℕ → Caller → Type 0
MayHold owner c = (owner ≡ c.uid) ⊎ ((owner ≡ c.euid) ⊎ (c.override ≡ true))

abbrev pub All : (Caller → Type 0) → List Caller → Type 0
All P [] = Unit
All P (c ∷ cs) = P c × All P cs

All-append : (P : Caller → Type 0) (xs ys : List Caller) → All P xs → All P ys → All P (xs ++ ys)
All-append P [] ys hx hy = hy
All-append P (x ∷ xs) ys hx hy = (hx.0, All-append P xs ys hx.1 hy)

All-before : (P : Caller → Type 0) (xs ys : List Caller) → All P (xs ++ ys) → All P xs
All-before P [] ys h = tt
All-before P (x ∷ xs) ys h = (h.0, All-before P xs ys h.1)

All-after : (P : Caller → Type 0) (xs ys : List Caller) → All P (xs ++ ys) → All P ys
All-after P [] ys h = h
All-after P (x ∷ xs) ys h = All-after P xs ys h.1

-- The count is the number of holders, and each of them may hold the owner's device.
pub record IsShared (h : Held) : Type 0 where
  pub counted : h.dev.count ≡ length h.holders
  pub allowed : All (MayHold h.dev.owner) h.holders

-- An open that succeeds found the device available, and took it.
scull_u_open-take_user :
    (p : Params) (wronly : Bool) (c : Caller) (d d' : UserDev)
    → scull_u_open p wronly c d ≡ (pos 0, d')
    → (scull_w_available c d ≡ true) × (d' ≡ take_user p wronly c d)
unfolding scull_u_open scull_w_available
scull_u_open-take_user p wronly c d d' h = ground arith

All-nobody : (P : Caller → Type 0) (cs : List Caller) → length cs ≡ 0 → All P cs
All-nobody P [] e = tt
All-nobody P (c ∷ cs) e = absurd (omega arith)

length-counted : (h : Held) → IsShared h → h.dev.count == 0 ≡ true → length h.holders ≡ 0
length-counted h x e = ground arith

first_owner :
    (p : Params) (wronly : Bool) (c : Caller) (d : UserDev)
    → d.count == 0 ≡ true
    → (take_user p wronly c d).owner ≡ c.uid
unfolding take_user
first_owner p wronly c d e = ground arith

same_owner :
    (p : Params) (wronly : Bool) (c : Caller) (d : UserDev)
    → d.count == 0 ≡ false
    → (take_user p wronly c d).owner ≡ d.owner
unfolding take_user
same_owner p wronly c d e = ground arith

available-MayHold :
    (c : Caller) (d : UserDev)
    → scull_w_available c d ≡ true
    → d.count == 0 ≡ false
    → MayHold d.owner c
unfolding scull_w_available
available-MayHold c d a e = ground arith

length-release :
    (before after : List Caller) (c : Caller)
    → length (before ++ (c ∷ after)) ≡ suc (length (before ++ after))
length-release [] after c = refl
length-release (b ∷ before) after c = ap suc (length-release before after c)

-- Taking a device that is available keeps the shares.
take_user-IsShared :
    (p : Params) (wronly : Bool) (c : Caller) (h : Held)
    → scull_w_available c h.dev ≡ true
    → IsShared h
    → IsShared (record { dev = take_user p wronly c h.dev; holders = c ∷ h.holders })
unfolding take_user scull_w_available
take_user-IsShared p wronly c h a x = record {
  counted = omega arith;
  allowed = elim (Bool-cases (h.dev.count == 0)) [
    | inl e ↦ (
      inl (first_owner p wronly c h.dev e),
      All-nobody (MayHold (take_user p wronly c h.dev).owner) h.holders (length-counted h x e),
    )
    | inr e ↦
        subst (λ o. MayHold o c × All (MayHold o) h.holders) (sym (same_owner p wronly c h.dev e))
          (available-MayHold c h.dev a e, x.allowed)
  ];
}

release-IsShared :
    (h : Held) (before after : List Caller) (c : Caller)
    → h.holders ≡ before ++ (c ∷ after)
    → IsShared h
    → IsShared (record { dev = scull_u_release h.dev; holders = before ++ after })
unfolding scull_u_release
release-IsShared h before after c e x = record {
  counted =
      let all = ap length e ∙ length-release before after c in
      let before_release = x.counted in omega arith;
  allowed =
      let kept = subst (All (MayHold h.dev.owner)) e x.allowed in
      All-append (MayHold h.dev.owner) before after
        (All-before (MayHold h.dev.owner) before (c ∷ after) kept)
        ((All-after (MayHold h.dev.owner) before (c ∷ after) kept).1);
}

Step-IsShared : {p : Params} {h k : Held} → Step p h k → IsShared h → IsShared k
Step-IsShared {p} (open_u h wronly c d e) x =
    let (free, taken) = scull_u_open-take_user p wronly c h.dev d e in
    subst (λ t. IsShared (record { dev = t; holders = c ∷ h.holders })) (sym taken)
      (take_user-IsShared p wronly c h free x)
Step-IsShared {p} (open_w h wronly c e) x = take_user-IsShared p wronly c h e x
Step-IsShared (release h before after c e) x = release-IsShared h before after c e x

-- However opens that succeed and releases follow each other, from a state that is shared rightly: the
-- count is the number of those that hold the device open, and each of them is the owner, by its user
-- or its effective user, or has the capability.
pub Reach-IsShared : {p : Params} {h k : Held} → IsShared h → Reach p h k → IsShared k
Reach-IsShared x here = x
Reach-IsShared x (next r s) = Step-IsShared s (Reach-IsShared x r)
