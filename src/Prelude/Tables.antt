-- ===== src/Prelude/Tables.antt =====
-- Database tables as lists of rows: what the source asks of its ORM session.

use Prim.Native.Nat.{suc}
use mathlib.Core.Path.{◌≡◌, refl, ap, ◌∙◌}
use mathlib.Core.Bool.{Bool, true, false}
use mathlib.Core.Option.{Option, none, some}
use mathlib.Core.Logic.{inl, inr}
use mathlib.Core.List.{List, [], ◌∷◌}
use native.Mathlib.Omega.{arith}
use aiagent.Prelude.Tests.{if◌then◌else◌, Bool-cases, if_both}
use aiagent.Prelude.Lists.{All, length}

module _ {ℓ} {A : Type ℓ} where
  -- `session.scalar(select(A).where(p))`.
  abbrev pub find : (A → Bool) → List A → Option A
  find p [] = none
  find p (x ∷ xs) = if p x then some x else find p xs

  -- An assignment to columns of the rows that pass a test.
  abbrev pub update : (A → Bool) → (A → A) → List A → List A
  update p f [] = []
  update p f (x ∷ xs) = (if p x then f x else x) ∷ update p f xs

  -- `order_by(...).limit(1)`: the first row by a strict order.
  abbrev pub first_by : (A → A → Bool) → List A → Option A
  first_by lt [] = none
  first_by lt (x ∷ xs) = elim (first_by lt xs) [
    | none ↦ some x
    | some y ↦ if lt y x then some y else some x
  ]

  abbrev pub insert_by : (A → A → Bool) → A → List A → List A
  insert_by lt x [] = x ∷ []
  insert_by lt x (y ∷ ys) = if lt y x then y ∷ insert_by lt x ys else x ∷ y ∷ ys

  -- `order_by(...)`.
  abbrev pub order_by : (A → A → Bool) → List A → List A
  order_by lt [] = []
  order_by lt (x ∷ xs) = insert_by lt x (order_by lt xs)

  pub find-update-none :
      (p q : A → Bool) (f : A → A) (xs : List A)
      → ((x : A) → q x ≡ true → p (f x) ≡ false)
      → ((x : A) → p x ≡ true → q x ≡ true)
      → find p (update q f xs) ≡ none
  find-update-none p q f [] h k = refl
  find-update-none p q f (x ∷ xs) h k = ground (arith, h x, k x, find-update-none p q f xs h k)

  -- The row that is written over the first one that is found.
  pub find-update_self :
      (p : A → Bool) (w : A) (xs : List A) {a : A}
      → find p xs ≡ some a
      → p w ≡ true
      → find p (update p (λ _. w) xs) ≡ some w
  find-update_self p w [] {a} e h = cc
  find-update_self p w (x ∷ xs) {a} e h = ground (arith, h, find-update_self p w xs {a = a})

  -- Rows of another kind are found as before.
  pub find-update_other :
      (p q : A → Bool) (w : A) (xs : List A)
      → p w ≡ false
      → ((x : A) → q x ≡ true → p x ≡ false)
      → find p (update q (λ _. w) xs) ≡ find p xs
  find-update_other p q w [] h k = refl
  find-update_other p q w (x ∷ xs) h k = ground (arith, h, k x, find-update_other p q w xs h k)

module _ {ℓ κ} {A : Type ℓ} (P : A → Type κ) where
  pub find-All :
      (p : A → Bool) (xs : List A) {a : A} → All P xs → find p xs ≡ some a → P a × (p a ≡ true)
  find-All p [] h e = cc
  find-All p (x ∷ xs) {a} h e = elim (Bool-cases (p x)) [
    | inl yes_x ↦ ground (arith, h.0)
    | inr no_x ↦ find-All p xs h.1 (ground arith)
  ]

  pub update-All :
      (p : A → Bool) (f : A → A) (xs : List A)
      → All P xs
      → ((x : A) → P x → p x ≡ true → P (f x))
      → All P (update p f xs)
  update-All p f [] h k = tt
  update-All p f (x ∷ xs) h k =
      (if_both P (p x) (f x) x (λ e. k x h.0 e) (λ _. h.0), update-All p f xs h.1 k)

  pub first_by-All :
      (lt : A → A → Bool) (xs : List A) {a : A} → All P xs → first_by lt xs ≡ some a → P a
  first_by-All lt [] h e = cc
  first_by-All lt (x ∷ xs) {a} h e = ground (arith, h.0, first_by-All lt xs {a = a} h.1)

  insert_by-All :
      (lt : A → A → Bool) (x : A) (xs : List A) → P x → All P xs → All P (insert_by lt x xs)
  insert_by-All lt x [] hx h = (hx, tt)
  insert_by-All lt x (y ∷ ys) hx h =
      let rest = insert_by-All lt x ys hx h.1 in
      if_both (All P) (lt y x) (y ∷ insert_by lt x ys) (x ∷ y ∷ ys) (λ _. (h.0, rest))
        (λ _. (hx, h))

  pub order_by-All : (lt : A → A → Bool) (xs : List A) → All P xs → All P (order_by lt xs)
  order_by-All lt [] h = tt
  order_by-All lt (x ∷ xs) h = insert_by-All lt x (order_by lt xs) h.0 (order_by-All lt xs h.1)

module _ {ℓ} {A : Type ℓ} where
  pub length-insert_by :
      (lt : A → A → Bool) (x : A) (xs : List A) → length (insert_by lt x xs) ≡ suc (length xs)
  length-insert_by lt x [] = refl
  length-insert_by lt x (y ∷ ys) = ground (arith, length-insert_by lt x ys)

  pub length-order_by : (lt : A → A → Bool) (xs : List A) → length (order_by lt xs) ≡ length xs
  length-order_by lt [] = refl
  length-order_by lt (x ∷ xs) =
      length-insert_by lt x (order_by lt xs) ∙ ap suc (length-order_by lt xs)
