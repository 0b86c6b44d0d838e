-- ===== src/Common/Distinct.antt =====
-- Lists whose elements differ in a key.
use mathlib.Core.Path.{◌≡◌, refl}
use mathlib.Core.Bool.{Bool, true, false, ◌&&◌, ◌||◌, not}
use mathlib.Core.List.{List, [], ◌∷◌, ◌++◌}
use native.Mathlib.Omega.{arith}
use redxt.Common.Lists.{any, keep, update_where}

module _ {A : Type 0} where
  pub any-append : (p : A → Bool) (xs ys : List A) → any p (xs ++ ys) ≡ (any p xs || any p ys)
  any-append p [] ys = refl
  any-append p (x ∷ xs) ys = ground (arith, any-append p xs ys)

  any-keep : (p q : A → Bool) (xs : List A) → any p xs ≡ false → any p (keep q xs) ≡ false
  any-keep p q [] h = refl
  any-keep p q (x ∷ xs) h = ground (arith, any-keep p q xs)

module _ {A : Type 0} (same : A → A → Bool) where
  -- No two elements have the same key.
  abbrev pub differ : List A → Bool
  differ [] = true
  differ (x ∷ xs) = not (any (same x) xs) && differ xs

  pub differ-append :
      (xs : List A) (x : A)
      → ((a b : A) → same a b ≡ same b a)
      → any (same x) xs ≡ false
      → differ xs ≡ true
      → differ (xs ++ x ∷ []) ≡ true
  differ-append [] x comm h i = refl
  differ-append (y ∷ xs) x comm h i =
      ground (arith, any-append (same y) xs (x ∷ []), differ-append xs x comm, comm x y)

  pub differ-keep : (q : A → Bool) (xs : List A) → differ xs ≡ true → differ (keep q xs) ≡ true
  differ-keep q [] h = refl
  differ-keep q (x ∷ xs) h = ground (arith, any-keep (same x) q xs, differ-keep q xs)

  module _ (p : A → Bool) (f : A → A) (left : (a b : A) → same (f a) b ≡ same a b)
      (right : (a b : A) → same a (f b) ≡ same a b) where
    any-update : (x : A) (xs : List A) → any (same x) (update_where p f xs) ≡ any (same x) xs
    any-update x [] = refl
    any-update x (y ∷ xs) = ground (arith, right x y, any-update x xs)

    any-moved : (x : A) (xs : List A) → any (same (f x)) xs ≡ any (same x) xs
    any-moved x [] = refl
    any-moved x (y ∷ xs) = ground (arith, left x y, any-moved x xs)

    pub differ-update : (xs : List A) → differ xs ≡ true → differ (update_where p f xs) ≡ true
    differ-update [] h = refl
    differ-update (x ∷ xs) h =
        ground (arith, any-update x xs, any-update (f x) xs, any-moved x xs, differ-update xs)
