-- ===== src/Exact/Unsigned/Compare.antt =====
-- `Ord::cmp` is the order of the numbers.
use ffhn.Base.{ℕ, zero, suc, ◌+◌, ◌*◌, ◌<◌, ◌≡◌, refl, compare, Ordering, List, [], ◌∷◌, arith, leb}
use ffhn.Exact.Unsigned.{word, value, IsUnsigned, cmp, at_least}
use ffhn.Exact.Unsigned.Sum.{IsUnsigned-tail}

-- A higher digit that differs decides.
compare-digits :
    (x y a b : ℕ)
    → x < word
    → y < word
    → compare (x + word * a) (y + word * b)
      ≡ elim (compare a b) [ Ordering.eq ↦ compare x y | other ↦ other ]
compare-digits x y a b hx hy = ground arith

-- `cmp` of two numbers of `n` limbs is the comparison of their values.
pub cmp-value :
    (n : ℕ) (a b : List ℕ) → IsUnsigned n a → IsUnsigned n b → cmp a b ≡ compare (value a) (value b)
unfolding cmp
cmp-value zero [] [] ha hb = refl
cmp-value zero [] (y ∷ b) ha hb = absurd (omega arith)
cmp-value zero (x ∷ a) b ha hb = absurd (omega arith)
cmp-value (suc n) [] b ha hb = absurd (omega arith)
cmp-value (suc n) (x ∷ a) [] ha hb = absurd (omega arith)
cmp-value (suc n) (x ∷ a) (y ∷ b) ha hb =
    rw
      (
        cmp-value n a b (IsUnsigned-tail n x a ha) (IsUnsigned-tail n y b hb),
        compare-digits x y (value a) (value b) ha.words.0 hb.words.0,
      )
      refl

pub at_least-value :
    (n : ℕ) (a b : List ℕ)
    → IsUnsigned n a
    → IsUnsigned n b
    → at_least a b ≡ leb (value b) (value a)
at_least-value n a b ha hb = rw (at_least, cmp-value n a b ha hb) (ground arith)
