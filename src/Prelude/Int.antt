-- ===== src/Prelude/Int.antt =====
-- Signed integers over the native numbers, and the C conversions between integer widths.
use device_drivers_lab_proje.Prelude.{
  ℕ, suc, ◌+◌, ◌-◌, ◌%◌, ◌^◌, ◌≤◌, ◌<◌, ◌≡◌, Bool, arith, ◌/◌, List, [], ◌∷◌, ltb, leb,
  if◌then◌else◌, ◌&&◌, ◌==◌, ◌≢◌, true, false,
}

-- `negsuc n` is -(n + 1).
pub data ℤ : Type 0 where
  pos : ℕ → ℤ
  negsuc : ℕ → ℤ

abbrev pub pos_part : ℤ → ℕ
pos_part (pos n) = n
pos_part (negsuc n) = 0

abbrev pub neg_part : ℤ → ℕ
neg_part (pos n) = 0
neg_part (negsuc n) = suc n

-- a - b, as an integer.
abbrev pub sub_ℕ : ℕ → ℕ → ℤ
sub_ℕ a b = if leb b a then pos (a - b) else negsuc (b - a - 1)

infixl 65 ◌+ℤ◌
abbrev pub ◌+ℤ◌ : ℤ → ℤ → ℤ
a +ℤ b = sub_ℕ (pos_part a + pos_part b) (neg_part a + neg_part b)

infix 50 ◌≤ℤ◌
abbrev pub ◌≤ℤ◌ : ℤ → ℤ → Type 0
a ≤ℤ b = pos_part a + neg_part b ≤ pos_part b + neg_part a

abbrev pub ltb_ℤ : ℤ → ℤ → Bool
ltb_ℤ a b = ltb (pos_part a + neg_part b) (pos_part b + neg_part a)

abbrev pub eqb_ℤ : ℤ → ℤ → Bool
eqb_ℤ a b = pos_part a == pos_part b && neg_part a == neg_part b

abbrev pub is_negative : ℤ → Bool
is_negative a = ltb 0 (neg_part a)

-- The residue of an integer modulo `m`: what a conversion to an unsigned type keeps.
abbrev pub residue : ℕ → ℤ → ℕ
residue m (pos n) = n % m
residue m (negsuc n) = m - 1 - n % m

-- `(unsigned long)a` and `(unsigned int)a`
abbrev pub to_u64 : ℤ → ℕ
to_u64 = residue (2 ^ 64)

abbrev pub to_u32 : ℤ → ℕ
to_u32 = residue (2 ^ 32)

-- The signed reading of a pattern below `2 ^ (w + 1)`.
abbrev pub signed : ℕ → ℕ → ℤ
signed half n = if ltb n half then pos n else negsuc (half + half - n - 1)

-- `(int)a`
abbrev pub to_int : ℤ → ℤ
to_int a = signed (2 ^ 31) (to_u32 a)

-- `(short)a`
abbrev pub to_short : ℤ → ℤ
to_short v = signed (2 ^ 15) (residue (2 ^ 16) v)

-- The four bytes of an `int`, the lowest first.
abbrev pub int_bytes : ℤ → List ℕ
int_bytes v =
    let n = to_u32 v in (n % 256) ∷ (n / 2 ^ 8 % 256) ∷ (n / 2 ^ 16 % 256) ∷ (n / 2 ^ 24 % 256) ∷ []

-- The errors of <errno.h>, as the negative values that the drivers return.
abbrev pub errno : ℕ → ℤ
errno n = negsuc (n - 1)

abbrev pub eperm : ℤ
eperm = errno 1

abbrev pub eagain : ℤ
eagain = errno 11

abbrev pub enomem : ℤ
enomem = errno 12

abbrev pub efault : ℤ
efault = errno 14

abbrev pub ebusy : ℤ
ebusy = errno 16

abbrev pub enodev : ℤ
enodev = errno 19

abbrev pub einval : ℤ
einval = errno 22

abbrev pub enotty : ℤ
enotty = errno 25

abbrev pub erestartsys : ℤ
erestartsys = errno 512

-- A value that fits an `int` is converted to itself.
pub to_int_small : (n : ℕ) → n < 2 ^ 31 → to_int (pos n) ≡ pos n
to_int_small n h = ground arith

pub eqb_ℤ→eq : (a b : ℤ) → eqb_ℤ a b ≡ true → a ≡ b
eqb_ℤ→eq a b h = ground arith

pub eqb_ℤ→ne : (a b : ℤ) → eqb_ℤ a b ≡ false → a ≢ b
eqb_ℤ→ne a b h = ground arith
