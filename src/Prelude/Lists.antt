-- ===== src/Prelude/Lists.antt =====
-- Lists over the native numbers: the loops "all items pass", "some item passes", "keep the items
-- that pass" and `slices.Contains`, with their meaning by membership.
use Prim.Native.Nat.{ℕ, suc}
use Prim.Native.String.{String}
use mathlib.Core.Path.{◌≡◌, refl}
use mathlib.Core.Logic.{◌⊎◌, inl, inr}
use mathlib.Core.Bool.{Bool, true, false, ◌&&◌, ◌||◌}
use mathlib.Core.List.{List, [], ◌∷◌, ◌++◌, Memᴰ}
use native.Mathlib.Omega.{arith}
use text.Mathlib.Text.{◌==◌}
use text.Mathlib.TextEquality.{eq_iff}
use text.Mathlib.TextPositions.{eq_refl}
use edp_codebase_operator.Prelude.Tests.{if◌then◌else◌, Bool-cases}

module _ {ℓ} {A : Type ℓ} where
  abbrev pub length : List A → ℕ
  length [] = 0
  length (x ∷ xs) = suc (length xs)

  abbrev pub is_empty : List A → Bool
  is_empty [] = true
  is_empty (x ∷ xs) = false

  unfoldable pub all : List A → (A → Bool) → Bool
  all [] p = true
  all (x ∷ xs) p = p x && all xs p

  unfoldable pub any : List A → (A → Bool) → Bool
  any [] p = false
  any (x ∷ xs) p = p x || any xs p

  unfoldable pub select : List A → (A → Bool) → List A
  select [] p = []
  select (x ∷ xs) p = let rest = select xs p in if p x then x ∷ rest else rest

  pub all-mem : (xs : List A) (p : A → Bool) (a : A) → all xs p ≡ true → Memᴰ a xs → p a ≡ true
  unfolding all
  all-mem [] p a h m = elim m [ ]
  all-mem (x ∷ xs) p a h (Memᴰ.head e) = rw e (ground arith)
  all-mem (x ∷ xs) p a h (Memᴰ.tail m) = all-mem xs p a (ground arith) m

  pub all_of_mem :
      (xs : List A) (p : A → Bool) → ((a : A) → Memᴰ a xs → p a ≡ true) → all xs p ≡ true
  unfolding all
  all_of_mem [] p h = refl
  all_of_mem (x ∷ xs) p h =
      let here : p x ≡ true = h x (Memᴰ.head refl) in
      rw here (all_of_mem xs p (λ a m. h a (Memᴰ.tail m)))

  pub any_of_mem : (xs : List A) (p : A → Bool) (a : A) → Memᴰ a xs → p a ≡ true → any xs p ≡ true
  unfolding any
  any_of_mem [] p a m h = elim m [ ]
  any_of_mem (x ∷ xs) p a (Memᴰ.head e) h = let here : p x ≡ true = rw (← e) h in rw here
  any_of_mem (x ∷ xs) p a (Memᴰ.tail m) h = ground (arith, any_of_mem xs p a m h)

  pub mem_of_any :
      (xs : List A) (p : A → Bool) → any xs p ≡ true → (a : A) × Memᴰ a xs × (p a ≡ true)
  unfolding any
  mem_of_any [] p h = cc
  mem_of_any (x ∷ xs) p h = elim (Bool-cases (p x)) [
    | inl e ↦ (x, Memᴰ.head refl, e)
    | inr e ↦ let (a, m, q) = mem_of_any xs p (rw e at h) in (a, Memᴰ.tail m, q)
  ]

  pub mem-cons_cases : {a x : A} {xs : List A} → Memᴰ a (x ∷ xs) → (a ≡ x) ⊎ Memᴰ a xs
  mem-cons_cases (Memᴰ.head e) = inl e
  mem-cons_cases (Memᴰ.tail m) = inr m

  pub mem-append_cases : {a : A} (xs ys : List A) → Memᴰ a (xs ++ ys) → Memᴰ a xs ⊎ Memᴰ a ys
  mem-append_cases [] ys m = inr m
  mem-append_cases (x ∷ xs) ys (Memᴰ.head e) = inl (Memᴰ.head e)
  mem-append_cases (x ∷ xs) ys (Memᴰ.tail m) = elim (mem-append_cases xs ys m) [
    | inl n ↦ inl (Memᴰ.tail n)
    | inr n ↦ inr n
  ]

  pub mem-select :
      (xs : List A) (p : A → Bool) (a : A) → Memᴰ a (select xs p) → Memᴰ a xs × (p a ≡ true)
  unfolding select
  mem-select [] p a m = elim m [ ]
  mem-select (x ∷ xs) p a m = elim (Bool-cases (p x)) [
    | inl e ↦ elim (mem-cons_cases (rw (e, if◌then◌else◌) at m)) [
      | inl q ↦ (Memᴰ.head q, rw q e)
      | inr n ↦ let (n', q) = mem-select xs p a n in (Memᴰ.tail n', q)
    ]
    | inr e ↦ let (n, q) = mem-select xs p a (rw (e, if◌then◌else◌) at m) in (Memᴰ.tail n, q)
  ]

  pub mem-select_of_mem :
      (xs : List A) (p : A → Bool) (a : A) → Memᴰ a xs → p a ≡ true → Memᴰ a (select xs p)
  unfolding select
  mem-select_of_mem [] p a m h = elim m [ ]
  mem-select_of_mem (x ∷ xs) p a (Memᴰ.head e) h =
      let here : p x ≡ true = rw (← e) h in rw here (Memᴰ.head e)
  mem-select_of_mem (x ∷ xs) p a (Memᴰ.tail m) h = elim (Bool-cases (p x)) [
    | inl e ↦ rw e (Memᴰ.tail (mem-select_of_mem xs p a m h))
    | inr e ↦ rw e (mem-select_of_mem xs p a m h)
  ]

unfoldable pub contains : List String → String → Bool
unfolding any
contains xs s = any xs (λ x. x == s)

pub mem_of_contains : (xs : List String) (s : String) → contains xs s ≡ true → Memᴰ s xs
unfolding contains
mem_of_contains xs s h = let (x, m, e) = mem_of_any xs (λ x. x == s) h in rw ((eq_iff x s).0 e) at m

pub contains_of_mem : (xs : List String) (s : String) → Memᴰ s xs → contains xs s ≡ true
unfolding contains
contains_of_mem xs s m = any_of_mem xs (λ x. x == s) s m (eq_refl s)
