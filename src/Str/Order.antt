-- ===== src/Str/Order.antt =====
-- `mg_strcmp` is a total order on byte strings, and equality is its zero.
use evmongoose.Common.{
  arith, ℕ, zero, suc, ◌^◌, ◌≤◌, ◌<◌, ◌≡◌, refl, sym, ap, ◌∙◌, List, [], ◌∷◌, length, take, ltb,
  if◌then◌else◌, ◌↔◌, take_all,
}
use evmongoose.Common.Bytes.{AllBytes}
use evmongoose.Common.Int.{is_zero, pos, negsuc, neg}
use evmongoose.Str.{strcmp, strncmp, memcmp, vcmp, length_diff}

strcmp_refl : (a : List ℕ) → strcmp a a ≡ pos 0
unfolding strcmp
strcmp_refl [] = refl
strcmp_refl (x ∷ a) = ground (arith, strcmp_refl a)

eq_of_strcmp : (a b : List ℕ) → AllBytes a → AllBytes b → strcmp a b ≡ pos 0 → a ≡ b
unfolding strcmp
eq_of_strcmp [] [] ha hb h = refl
eq_of_strcmp (x ∷ a) [] ha hb h = cc
eq_of_strcmp [] (y ∷ b) ha hb h = cc
eq_of_strcmp (x ∷ a) (y ∷ b) (hx, ha) (hy, hb) h = ground (arith, eq_of_strcmp a b ha hb)

-- `mg_strcmp` answers 0 for equal strings and for no others.
pub strcmp-zero : (a b : List ℕ) → AllBytes a → AllBytes b → (strcmp a b ≡ pos 0) ↔ (a ≡ b)
strcmp-zero a b ha hb = (eq_of_strcmp a b ha hb, λ e. ap (strcmp a) (sym e) ∙ strcmp_refl a)

-- Swapping the arguments of `mg_strcmp` negates the answer.
pub strcmp_swap : (a b : List ℕ) → strcmp b a ≡ neg (strcmp a b)
unfolding strcmp
strcmp_swap [] [] = ground arith
strcmp_swap (x ∷ a) [] = ground arith
strcmp_swap [] (y ∷ b) = ground arith
strcmp_swap (x ∷ a) (y ∷ b) = ground (arith, strcmp_swap a b)

-- Strings that come before one another in two steps do so in one: `mg_strcmp` is transitive.
pub strcmp_trans :
    (a b c : List ℕ) → strcmp a b ≡ negsuc 0 → strcmp b c ≡ negsuc 0 → strcmp a c ≡ negsuc 0
unfolding strcmp
strcmp_trans [] [] [] h k = h
strcmp_trans [] (y ∷ b) [] h k = cc
strcmp_trans [] b (z ∷ c) h k = refl
strcmp_trans (x ∷ a) [] c h k = cc
strcmp_trans (x ∷ a) (y ∷ b) [] h k = cc
strcmp_trans (x ∷ a) (y ∷ b) (z ∷ c) h k = ground (arith, strcmp_trans a b c)

-- `mg_strncmp` compares the first `n` bytes.
pub strncmp-take : (a b : List ℕ) (n : ℕ) → strncmp a b n ≡ strcmp (take n a) (take n b)
unfolding strncmp
strncmp-take a b n = ground (arith, take_all n a, take_all n b)

memcmp-zero :
    (n : ℕ) (a b : List ℕ)
    → n ≤ length a
    → n ≤ length b
    → (memcmp a b n ≡ pos 0) ↔ (take n a ≡ take n b)
unfolding memcmp
memcmp-zero zero a b h k = (λ _. refl, λ _. refl)
memcmp-zero (suc n) [] b h k = absurd (omega arith)
memcmp-zero (suc n) (x ∷ a) [] h k = absurd (omega arith)
memcmp-zero (suc n) (x ∷ a) (y ∷ b) h k = ground (arith, memcmp-zero n a b)

pub length_diff-zero : (n m : ℕ) → n < 2 ^ 32 → m < 2 ^ 32 → length_diff n m ≡ pos 0 → n ≡ m
length_diff-zero n m h k e = ground arith

-- `mg_vcmp`, given the length that both strings reach.
vcmp_of_memcmp :
    (a z : List ℕ) (n : ℕ)
    → n ≡ (if ltb (length a) (length z) then length a else length z)
    → vcmp a z
      ≡ (if is_zero (memcmp a z n) then length_diff (length a) (length z) else memcmp a z n)
unfolding vcmp
vcmp_of_memcmp a z n h = rw h

eq_of_vcmp : (a z : List ℕ) → length a < 2 ^ 32 → length z < 2 ^ 32 → vcmp a z ≡ pos 0 → a ≡ z
eq_of_vcmp a z h k e =
    let n : ℕ = if ltb (length a) (length z) then length a else length z in
    ground (
      arith,
      vcmp_of_memcmp a z n refl,
      length_diff-zero (length a) (length z),
      memcmp-zero n a z,
      take_all n a,
      take_all n z,
    )

vcmp_refl : (a : List ℕ) → length a < 2 ^ 32 → vcmp a a ≡ pos 0
vcmp_refl a h = ground (arith, vcmp_of_memcmp a a (length a), memcmp-zero (length a) a a)

-- `mg_vcmp` answers 0 for equal strings and for no others, while the lengths are below 2 ^ 32.
pub vcmp-zero :
    (a z : List ℕ) → length a < 2 ^ 32 → length z < 2 ^ 32 → (vcmp a z ≡ pos 0) ↔ (a ≡ z)
vcmp-zero a z h k = (eq_of_vcmp a z h k, λ e. ap (vcmp a) (sym e) ∙ vcmp_refl a h)
