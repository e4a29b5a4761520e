-- ===== src/Prelude/Window.antt =====
-- A list that holds the last elements of a longer one.
use Prim.Native.Nat.{ℕ, zero, suc, ◌+◌, ◌-◌, ◌≤◌}
use mathlib.Core.Path.{◌≡◌, refl, ap, ◌∙◌}
use mathlib.Core.List.{List, [], ◌∷◌, ◌++◌, map}
use native.Mathlib.Omega.{arith}
use mcloudtt.Prelude.Lists.{length, drop, length-append, length-map}

module _ {ℓ} {A : Type ℓ} where
  -- The last `cap` elements: a full channel overwrites its oldest message.
  abbrev pub last : ℕ → List A → List A
  last cap xs = drop (length xs - cap) xs

  pub length-drop : (n : ℕ) (xs : List A) → length (drop n xs) ≡ length xs - n
  length-drop zero xs = omega arith
  length-drop (suc n) [] = omega arith
  length-drop (suc n) (x ∷ xs) = omega (arith, length-drop n xs)

  drop-append : (n : ℕ) (xs ys : List A) → n ≤ length xs → drop n xs ++ ys ≡ drop n (xs ++ ys)
  drop-append zero xs ys h = refl
  drop-append (suc n) [] ys h = absurd (omega arith)
  drop-append (suc n) (x ∷ xs) ys h = drop-append n xs ys (omega arith)

  drop-drop : (m n : ℕ) (xs : List A) → drop m (drop n xs) ≡ drop (n + m) xs
  drop-drop m zero xs = let e : 0 + m ≡ m = omega arith in rw e refl
  drop-drop zero (suc n) [] = let e : suc n + 0 ≡ suc n = omega arith in rw e refl
  drop-drop (suc m) (suc n) [] = let e : suc n + suc m ≡ suc (n + suc m) = omega arith in rw e refl
  drop-drop m (suc n) (x ∷ xs) =
      let e : suc n + m ≡ suc (n + m) = omega arith in rw e (drop-drop m n xs)

  pub length-last : (n : ℕ) (xs : List A) → n ≤ length xs → length (last n xs) ≡ n
  length-last n xs h = omega (arith, length-drop (length xs - n) xs)

  pub last-all : (n : ℕ) (xs : List A) → length xs ≤ n → last n xs ≡ xs
  last-all n xs h = let e : length xs - n ≡ 0 = omega arith in rw e refl

  -- What has been overwritten already does not matter later.
  pub last-last-append : (n : ℕ) (xs ys : List A) → last n (last n xs ++ ys) ≡ last n (xs ++ ys)
  last-last-append n xs ys =
      let b = length xs - n in
      let a = length (last n xs ++ ys) - n in
      let e : b + a ≡ length (xs ++ ys) - n =
        omega (arith, length-append (last n xs) ys, length-append xs ys, length-drop b xs) in
      ap (drop a) (drop-append b xs ys (omega arith))
      ∙ drop-drop a b (xs ++ ys)
      ∙ ap (λ k. drop k (xs ++ ys)) e

pub last-map {ℓ κ} :
    {A : Type ℓ} {B : Type κ} (n : ℕ) (f : A → B) (xs : List A)
    → last n (map f xs) ≡ map f (last n xs)
last-map n f xs = ap (λ k. drop (k - n) (map f xs)) (length-map xs f) ∙ drop-map (length xs - n) xs
  where
    drop-map : (m : ℕ) (ys : List _) → drop m (map f ys) ≡ map f (drop m ys)
    drop-map zero ys = refl
    drop-map (suc m) [] = refl
    drop-map (suc m) (y ∷ ys) = drop-map m ys
