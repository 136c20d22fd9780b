-- ===== src/Common/Text.antt =====
-- Of two texts the one that is not at most the other is above it.
use Prim.Native.Nat.compare as compare_ℕ
use Prim.Native.String.compare
use Prim.Native.Nat.{Ordering, compare as compare_ℕ}
use Prim.Native.Char.{code}
use Prim.Native.String.{String, [], ◌∷◌, compare, then as and_then}
use outboxexpress.Common.{ℕ, zero, suc, ◌≡◌, refl, sym, ◌∙◌}

then-flip :
    (o p q r : Ordering)
    → and_then o q ≡ Ordering.gt
    → (o ≡ Ordering.gt → p ≡ Ordering.lt)
    → (o ≡ Ordering.eq → p ≡ Ordering.eq)
    → (q ≡ Ordering.gt → r ≡ Ordering.lt)
    → and_then p r ≡ Ordering.lt
then-flip Ordering.lt p q r h gt eq more = cc
then-flip Ordering.eq p q r h gt eq more = rw (eq refl) (more h)
then-flip Ordering.gt p q r h gt eq more = rw (gt refl) refl

compare_ℕ-flip-gt : (m n : ℕ) → compare_ℕ m n ≡ Ordering.gt → compare_ℕ n m ≡ Ordering.lt
compare_ℕ-flip-gt zero zero h = cc
compare_ℕ-flip-gt zero (suc n) h = cc (compare_ℕ.zero-suc n)
compare_ℕ-flip-gt (suc m) zero h = compare_ℕ.zero-suc m
compare_ℕ-flip-gt (suc m) (suc n) h =
    compare_ℕ.suc-suc n m ∙ compare_ℕ-flip-gt m n (sym (compare_ℕ.suc-suc m n) ∙ h)

compare_ℕ-flip-eq : (m n : ℕ) → compare_ℕ m n ≡ Ordering.eq → compare_ℕ n m ≡ Ordering.eq
compare_ℕ-flip-eq zero zero h = refl
compare_ℕ-flip-eq zero (suc n) h = cc (compare_ℕ.zero-suc n)
compare_ℕ-flip-eq (suc m) zero h = cc (compare_ℕ.suc-zero m)
compare_ℕ-flip-eq (suc m) (suc n) h =
    compare_ℕ.suc-suc n m ∙ compare_ℕ-flip-eq m n (sym (compare_ℕ.suc-suc m n) ∙ h)

pub compare-flip : (a b : String) → compare a b ≡ Ordering.gt → compare b a ≡ Ordering.lt
compare-flip [] [] h = cc
compare-flip [] (d ∷ t) h = cc (compare.nil-cons d t)
compare-flip (c ∷ s) [] h = compare.nil-cons c s
compare-flip (c ∷ s) (d ∷ t) h =
    compare.cons-cons d c t s
    ∙ then-flip (compare_ℕ (code c) (code d)) (compare_ℕ (code d) (code c)) (compare s t)
        (compare t s) (sym (compare.cons-cons c d s t) ∙ h) (compare_ℕ-flip-gt (code c) (code d))
        (compare_ℕ-flip-eq (code c) (code d)) (compare-flip s t)
