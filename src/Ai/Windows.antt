-- ===== src/Ai/Windows.antt =====
-- internal/domain/ai/strategy.go: the candidates with the largest window are never none.
use uniedit_server.Common.{
  ◌≡◌, refl, sym, ◌∙◌, zero, suc, ℤ, pos, negsuc, ℤ_Eq, le_ℤ, lt_ℤ, ◌==◌, Bool, true, false, inl,
  inr, All, List, [], ◌∷◌, if◌then◌else◌, ◌⊎◌, arith,
}
use uniedit_server.Ai.Model.{AiScoredCandidate}
use uniedit_server.Ai.Strategies.{keep, or_largest, max_context, is_empty}
use uniedit_server.Ai.Lists.{is_empty-keep_step}

window_of_zero : (w : ℤ) → le_ℤ (pos 0) w ≡ true → (if lt_ℤ (pos 0) w then w else pos 0) ≡ w
window_of_zero (pos zero) h = refl
window_of_zero (pos (suc n)) h = ground arith
window_of_zero (negsuc n) h = ground arith

larger-cases : (b : Bool) (m n w : ℤ) → m ≡ (if b then w else n) → (m ≡ n) ⊎ (w ≡ m)
larger-cases true m n w e = inr (sym e)
larger-cases false m n w e = inl e

module _ {F : Type 0} where
  -- The largest window is where the search began, or the window of a candidate.
  reached-cases :
      (n m : ℤ) (cs : List (AiScoredCandidate F))
      → m ≡ max_context n cs
      → (m ≡ n) ⊎ (is_empty (keep (λ c. c.model.context_window == m) cs) ≡ false)
  reached-cases n m [] e = inl e
  reached-cases n m (c ∷ cs) e =
      elim (reached-cases (if lt_ℤ n c.model.context_window then c.model.context_window else n) m cs
        e) [
          | inl k ↦
              elim (larger-cases (lt_ℤ n c.model.context_window) m n c.model.context_window k) [
                | inl q ↦ inl q
                | inr q ↦
                    inr (
                      is_empty-keep_step _ c _
                        (inl ((ℤ_Eq.is_eq_iff c.model.context_window m).1 q)))
              ]
          | inr k ↦ inr (is_empty-keep_step (c.model.context_window == m) c _ (inr k))
        ]

  pub is_empty-or_largest :
      (kept cs : List (AiScoredCandidate F))
      → All (λ c. le_ℤ (pos 0) c.model.context_window ≡ true) cs
      → is_empty cs ≡ false
      → is_empty (or_largest kept cs) ≡ false
  unfolding or_largest
  is_empty-or_largest (k ∷ kept) cs h e = refl
  is_empty-or_largest [] [] h e = e
  is_empty-or_largest [] (c ∷ cs) h e =
      elim (reached-cases
        (if lt_ℤ (pos 0) c.model.context_window then c.model.context_window else pos 0) _ cs refl) [
          | inl k ↦ is_empty-keep_step _ c _ (
              inl (
                (ℤ_Eq.is_eq_iff c.model.context_window _).1
                  (sym (k ∙ window_of_zero c.model.context_window h.0))))
          | inr k ↦
              is_empty-keep_step (c.model.context_window == max_context (pos 0) (c ∷ cs)) c _
                (inr k)
        ]
