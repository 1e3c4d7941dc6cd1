-- ===== src/Prelude/Sets.antt =====
-- Lists of texts as sets and as bags: membership, counting, inclusion.
use Prim.Native.Nat.{ℕ, suc, ◌+◌, ◌<◌}
use Prim.Native.String.{String}
use mathlib.Core.Path.{◌≡◌, refl}
use mathlib.Core.Bool.{Bool, true, false, ◌&&◌}
use mathlib.Core.List.{List, [], ◌∷◌, ◌++◌}
use native.Mathlib.Omega.{arith}
use text.Mathlib.TextEquality.{eq_iff}
use sccsos.Prelude.Tests.{str_eq, if◌then◌else◌}
use sccsos.Prelude.Lists.{has, every, keep}

abbrev pub count : String → List String → ℕ
count k [] = 0
count k (x ∷ xs) = if str_eq x k then suc (count k xs) else count k xs

abbrev pub bit : Bool → ℕ
bit true = 1
bit false = 0

abbrev pub Unique : List String → Type 0
Unique [] = Unit
Unique (x ∷ xs) = (has x xs ≡ false) × Unique xs

abbrev pub Included : List String → List String → Type 0
Included xs ys = (k : String) → has k xs ≡ true → has k ys ≡ true

pub count-append : (k : String) (xs ys : List String) → count k (xs ++ ys) ≡ count k xs + count k ys
count-append k [] ys = omega arith
count-append k (x ∷ xs) ys = ground (arith, count-append k xs ys)

pub has_of_count : (k : String) (xs : List String) → 0 < count k xs → has k xs ≡ true
has_of_count k [] h = absurd (omega arith)
has_of_count k (x ∷ xs) h = ground (arith, has_of_count k xs)

pub count_of_has : (k : String) (xs : List String) → has k xs ≡ true → 0 < count k xs
count_of_has k [] h = ground arith
count_of_has k (x ∷ xs) h = ground (arith, count_of_has k xs)

pub count_of_has_not : (k : String) (xs : List String) → has k xs ≡ false → count k xs ≡ 0
count_of_has_not k [] h = refl
count_of_has_not k (x ∷ xs) h = ground (arith, count_of_has_not k xs)

-- A test on texts gives the same answer on equal texts.
pub has-keep :
    (k : String) (p : String → Bool) (xs : List String) → has k (keep p xs) ≡ (has k xs && p k)
has-keep k p [] = refl
has-keep k p (x ∷ xs) = ground (arith, has-keep k p xs, eq_iff x k)

pub keep_all : (p : String → Bool) (xs : List String) → every p xs ≡ true → keep p xs ≡ xs
keep_all p [] h = refl
keep_all p (x ∷ xs) h = ground (arith, keep_all p xs)

-- What a list test that holds says of a member.
pub every_at :
    (p : String → Bool) (xs : List String) (k : String)
    → every p xs ≡ true
    → has k xs ≡ true
    → p k ≡ true
every_at p [] k h m = ground arith
every_at p (x ∷ xs) k h m = ground (arith, every_at p xs k, eq_iff x k)

pub every_of :
    (p : String → Bool) (xs : List String)
    → ((k : String) → has k xs ≡ true → p k ≡ true)
    → every p xs ≡ true
every_of p [] h = refl
every_of p (x ∷ xs) h = ground (arith, h x, eq_iff x x, every_of p xs (λ k m. h k (ground arith)))

pub every-append :
    (p : String → Bool) (xs ys : List String) → every p (xs ++ ys) ≡ (every p xs && every p ys)
every-append p [] ys = refl
every-append p (x ∷ xs) ys = ground (arith, every-append p xs ys)

pub every_mono :
    (p q : String → Bool) (xs : List String)
    → ((k : String) → p k ≡ true → q k ≡ true)
    → every p xs ≡ true
    → every q xs ≡ true
every_mono p q [] h e = refl
every_mono p q (x ∷ xs) h e = ground (arith, h x, every_mono p q xs h)

-- A list with no member is empty.
pub empty_of_has_none : (xs : List String) → ((k : String) → has k xs ≡ false) → xs ≡ []
empty_of_has_none [] h = refl
empty_of_has_none (x ∷ xs) h = ground (arith, h x, eq_iff x x)
