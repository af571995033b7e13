-- ===== src/Base/Last.antt =====
-- Searches that take the last element with a property, as loops without `break` do.
use mathlib.Core.Path.{◌≡◌, ap}
use mathlib.Core.Bool.{Bool, true, false}
use mathlib.Core.List.{List, [], ◌∷◌, ◌++◌}
use newtmq_server.Base.Lists.{All}
use mathlib.Core.Option.{Option, none, some}
use mathlib.Core.Logic.{inl, inr}
use newtmq_server.Base.Tests.{if◌then◌else◌, Bool-cases}

module _ {ℓ} {A : Type ℓ} (p : A → Bool) where
  unfoldable pub any : List A → Bool
  any [] = false
  any (x ∷ xs) = if p x then true else any xs

  unfoldable pub find_last : List A → Option A
  unfolding any
  find_last [] = none
  find_last (x ∷ xs) = if any xs then find_last xs else if p x then some x else none

  unfoldable pub update_last : (A → A) → List A → List A
  unfolding any
  update_last f [] = []
  update_last f (x ∷ xs) = if any xs then x ∷ update_last f xs else if p x then f x ∷ xs else x ∷ xs

  unfoldable pub remove_last : List A → List A
  unfolding any
  remove_last [] = []
  remove_last (x ∷ xs) = if any xs then x ∷ remove_last xs else if p x then xs else x ∷ xs

module _ {ℓ} {A : Type ℓ} (p : A → Bool) (x : A) (h : p x ≡ true) where
  pub any-end : (xs : List A) → any p (xs ++ x ∷ []) ≡ true
  unfolding any
  any-end [] = rw h
  any-end (y ∷ ys) = elim (Bool-cases (p y)) [ inl e ↦ rw e | inr e ↦ rw e (any-end ys) ]

  pub find_last-end : (xs : List A) → find_last p (xs ++ x ∷ []) ≡ some x
  unfolding find_last
  find_last-end [] = rw h
  find_last-end (y ∷ ys) = rw (any-end ys) (find_last-end ys)

  pub update_last-end : (f : A → A) (xs : List A) → update_last p f (xs ++ x ∷ []) ≡ xs ++ f x ∷ []
  unfolding update_last
  update_last-end f [] = rw h
  update_last-end f (y ∷ ys) = rw (any-end ys) (ap (◌∷◌ y) (update_last-end f ys))

  pub remove_last-end : (xs : List A) → remove_last p (xs ++ x ∷ []) ≡ xs
  unfolding remove_last
  remove_last-end [] = rw h
  remove_last-end (y ∷ ys) = rw (any-end ys) (ap (◌∷◌ y) (remove_last-end ys))

module _ {ℓ κ} {A : Type ℓ} (P : A → Type κ) where
  pub All-update_last :
      (p : A → Bool) (f : A → A) (xs : List A)
      → ((x : A) → P x → P (f x))
      → All P xs
      → All P (update_last p f xs)
  unfolding update_last
  All-update_last p f [] k h = tt
  All-update_last p f (x ∷ xs) k h = elim (Bool-cases (any p xs)) [
    | inl e ↦ rw e (h.0, All-update_last p f xs k h.1)
    | inr e ↦ elim (Bool-cases (p x)) [ inl e' ↦ rw (e, e') (k x h.0, h.1) | inr e' ↦ rw (e, e') h ]
  ]

  pub All-remove_last : (p : A → Bool) (xs : List A) → All P xs → All P (remove_last p xs)
  unfolding remove_last
  All-remove_last p [] h = tt
  All-remove_last p (x ∷ xs) h = elim (Bool-cases (any p xs)) [
    | inl e ↦ rw e (h.0, All-remove_last p xs h.1)
    | inr e ↦ elim (Bool-cases (p x)) [ inl e' ↦ rw (e, e') h.1 | inr e' ↦ rw (e, e') h ]
  ]

  -- of what a search finds, if it finds anything
  abbrev pub Found : Option A → Type κ
  Found none = Unit
  Found (some x) = P x

  pub All-find_last : (p : A → Bool) (xs : List A) → All P xs → Found (find_last p xs)
  unfolding find_last
  All-find_last p [] h = tt
  All-find_last p (x ∷ xs) h = elim (Bool-cases (any p xs)) [
    | inl e ↦ rw e (All-find_last p xs h.1)
    | inr e ↦ elim (Bool-cases (p x)) [ inl e' ↦ rw (e, e') h.0 | inr e' ↦ rw (e, e') tt ]
  ]
