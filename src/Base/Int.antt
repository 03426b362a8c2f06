-- ===== src/Base/Int.antt =====
-- Signed integers of 64 and 32 bits as integers, and their decimal text.
use gpu_provisioner.Base.{
  ℕ, zero, suc, ◌+◌, ◌-◌, ◌*◌, ◌/◌, ◌%◌, ◌^◌, ◌≤◌, Bool, [], ◌∷◌, ◌++◌, ltb, leb, if◌then◌else◌,
}
use gpu_provisioner.Base.Text.{Bytes}

-- `negsuc n` is -(n + 1).
pub data ℤ : Type 0 where
  pos : ℕ → ℤ
  negsuc : ℕ → ℤ

abbrev pub pos_part : ℤ → ℕ
pos_part (pos n) = n
pos_part (negsuc n) = 0

abbrev pub neg_part : ℤ → ℕ
neg_part (pos n) = 0
neg_part (negsuc n) = suc n

abbrev pub sub_ℕ : ℕ → ℕ → ℤ
sub_ℕ a b = if leb b a then pos (a - b) else negsuc (b - a - 1)

infixl 65 ◌+ℤ◌ ◌-ℤ◌
infixl 70 ◌*ℤ◌
unfoldable pub ◌+ℤ◌ : ℤ → ℤ → ℤ
a +ℤ b = sub_ℕ (pos_part a + pos_part b) (neg_part a + neg_part b)

unfoldable pub ◌-ℤ◌ : ℤ → ℤ → ℤ
a -ℤ b = sub_ℕ (pos_part a + neg_part b) (neg_part a + pos_part b)

unfoldable pub ◌*ℤ◌ : ℤ → ℤ → ℤ
a *ℤ b =
    sub_ℕ (pos_part a * pos_part b + neg_part a * neg_part b)
      (pos_part a * neg_part b + neg_part a * pos_part b)

infix 50 ◌≤ℤ◌
abbrev pub ◌≤ℤ◌ : ℤ → ℤ → Type 0
a ≤ℤ b = pos_part a + neg_part b ≤ pos_part b + neg_part a

-- `a < b` and `a <= b`
abbrev pub ltb_ℤ : ℤ → ℤ → Bool
ltb_ℤ a b = ltb (pos_part a + neg_part b) (pos_part b + neg_part a)

abbrev pub leb_ℤ : ℤ → ℤ → Bool
leb_ℤ a b = leb (pos_part a + neg_part b) (pos_part b + neg_part a)

-- The integer that the low `k + 1` bits of an integer stand for.
abbrev pub from_word : ℕ → ℕ → ℤ
from_word half w = if ltb w half then pos w else negsuc (half + half - 1 - w)

abbrev pub wrap_word : ℕ → ℤ → ℤ
wrap_word half (pos n) = from_word half (n % (half + half))
wrap_word half (negsuc n) = from_word half (half + half - 1 - n % (half + half))

unfoldable pub wrap64 : ℤ → ℤ
wrap64 = wrap_word (2 ^ 63)

abbrev pub signed32 : ℕ → ℤ
signed32 = from_word (2 ^ 31)

-- The digits of a number, on fuel above it.
unfoldable pub digits : ℕ → ℕ → Bytes
digits zero n = []
digits (suc fuel) n =
    let front = digits fuel (n / 10) in
    if ltb n 10 then (48 + n) ∷ [] else front ++ (48 + n % 10) ∷ []

-- fmt.Sprint of an integer
unfoldable pub sprint : ℤ → Bytes
unfolding digits
sprint (pos n) = digits (suc n) n
sprint (negsuc n) = b'-' ∷ digits (suc (suc n)) (suc n)
