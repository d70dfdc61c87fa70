-- ===== src/Ai/Lists.antt =====
-- internal/domain/ai/strategy.go: the lists that the filters make, and when they are empty.
use uniedit_server.Common.{
  ◌≡◌, refl, arith, sym, ℕ, suc, Bool, true, false, inl, inr, All, List, [], ◌∷◌, if◌then◌else◌,
  arith, ◌⊎◌, any, not, ◌&&◌,
}
use uniedit_server.Ai.Strategies.{keep, or_all, is_empty}

pub impossible : ¬ (true ≡ false)
impossible e = grind arith

pub nothing_left : {n : ℕ} → ¬ (0 ≡ suc n)
nothing_left e = omega arith

module _ {A : Type 0} where
  pub is_empty-or_all : (kept xs : List A) → is_empty xs ≡ false → is_empty (or_all kept xs) ≡ false
  is_empty-or_all [] xs h = h
  is_empty-or_all (x ∷ kept) xs h = refl

  pub is_empty-cases :
      (b : Bool) (xs ys : List A)
      → is_empty xs ≡ false
      → is_empty ys ≡ false
      → is_empty (if b then xs else ys) ≡ false
  is_empty-cases true xs ys h k = h
  is_empty-cases false xs ys h k = k

  pub is_empty-keep_step :
      (b : Bool) (x : A) (xs : List A)
      → (b ≡ true) ⊎ (is_empty xs ≡ false)
      → is_empty (if b then x ∷ xs else xs) ≡ false
  is_empty-keep_step true x xs h = refl
  is_empty-keep_step false x xs (inl e) = absurd (impossible (sym e))
  is_empty-keep_step false x xs (inr e) = e

  pub is_empty-keep :
      (p : A → Bool) (xs : List A)
      → All (λ x. p x ≡ true) xs
      → is_empty xs ≡ false
      → is_empty (keep p xs) ≡ false
  is_empty-keep p [] h e = e
  is_empty-keep p (x ∷ xs) h e = is_empty-keep_step (p x) x (keep p xs) (inl h.0)

  pub All-imply : (P Q : A → Type 0) (xs : List A) → ((x : A) → P x → Q x) → All P xs → All Q xs
  All-imply P Q [] s h = tt
  All-imply P Q (x ∷ xs) s h = (s x h.0, All-imply P Q xs s h.1)

module _ {A : Type 0} where
  All-any_step :
      (b : Bool) (P : A → Type 0) (rest : Bool) (xs : List A) (x : A)
      → (b ≡ false → P x)
      → (rest ≡ false → All P xs)
      → (elim b [ true ↦ true | false ↦ rest ]) ≡ false
      → All P (x ∷ xs)
  All-any_step true P rest xs x h k e = absurd (impossible e)
  All-any_step false P rest xs x h k e = (h refl, k e)

  -- What no entry passes, all fail.
  pub All-any : (p : A → Bool) (xs : List A) → any p xs ≡ false → All (λ x. p x ≡ false) xs
  All-any p [] e = tt
  All-any p (x ∷ xs) e =
      All-any_step (p x) (λ y. p y ≡ false) (any p xs) xs x (λ q. q) (All-any p xs) e

-- Both hold, where it fails that they do not.
pub both-lem : (a b : Bool) → not (a && b) ≡ false → (a ≡ true) × (b ≡ true)
both-lem true true e = (refl, refl)
both-lem true false e = absurd (impossible e)
both-lem false b e = absurd (impossible e)
