-- ===== src/Common/Outcome.antt =====
-- To prove what holds when a service method has returned, in the world that it leaves.
use mathlib.Core.Path.{◌≡◌, refl, subst}
use mathlib.Core.Bool.{Bool, true, false}
use mathlib.Core.Option.{Option, none, some}
use uniedit_server.Common.Results.{Result, ok, err}
use uniedit_server.Common.Safety.{Returned, Returned-imply}
use uniedit_server.Common.Effects.{
  Reply, returns, fails_with, panics, PortWith, Service, after_reply, ◌>>=◌, give, require, wrapped,
  call, deref, found, try,
}

-- Where the reply is a value, the value and the world have the property.
abbrev pub Holds : {W E A : Type 0} → (A → W → Type 0) → Reply E A × W → Type 0
Holds Q r = Returned (λ a. Q a r.1) r.0

pub record Ensures {W E A : Type 0} (m : Service W E A) (w : W) (Q : A → W → Type 0) : Type 0 where
  pub holds : Holds Q (m w)

module _ {W E A : Type 0} {Q : A → W → Type 0} where
  pub ensured :
      (m : Service W E A) (a : A) (w w' : W) → Ensures m w Q → m w ≡ (returns a, w') → Q a w'
  ensured m a w w' h e = subst (Holds Q) e h.holds

  pub Ensures-imply :
      {R : A → W → Type 0} (m : Service W E A) (w : W)
      → Ensures m w Q
      → ((a : A) → Q a (m w).1 → R a (m w).1)
      → Ensures m w R
  Ensures-imply m w h f = record { holds = Returned-imply (m w).0 f h.holds }

  pub Ensures-give : (a : A) (w : W) → Q a w → Ensures {E = E} (give a) w Q
  Ensures-give a w q = record { holds = q }

  pub Ensures-found :
      (o : Option A) (e : E) (w : W) → ((a : A) → o ≡ some a → Q a w) → Ensures (found o e) w Q
  Ensures-found none e w q = record { holds = tt }
  Ensures-found (some a) e w q = record { holds = q a refl }

  pub Ensures-deref :
      (o : Option A) (w : W) → ((a : A) → o ≡ some a → Q a w) → Ensures {E = E} (deref o) w Q
  Ensures-deref none w q = record { holds = tt }
  Ensures-deref (some a) w q = record { holds = q a refl }

-- Of a method that need not be looked into.
module _ {W E A : Type 0} where
  all-Holds : (Q : A → W → Type 0) (r : Reply E A × W) → ((a : A) (w : W) → Q a w) → Holds Q r
  all-Holds Q (returns a, w) q = q a w
  all-Holds Q (fails_with e, w) q = tt
  all-Holds Q (panics, w) q = tt

  pub Ensures-all :
      {Q : A → W → Type 0} (m : Service W E A) (w : W) → ((a : A) (w' : W) → Q a w') → Ensures m w Q
  Ensures-all {Q = Q} m w q = record { holds = all-Holds Q (m w) q }

module _ {W E S A : Type 0} {Q : A → W → Type 0} where
  wrapped-Holds :
      (f : S → E) (r : Result S A × W)
      → ((a : A) (w : W) → r ≡ (ok a, w) → Q a w)
      → Holds Q (wrapped f r)
  wrapped-Holds f (ok a, w) q = q a w refl
  wrapped-Holds f (err e, w) q = tt

  pub Ensures-call :
      (f : S → E) (p : PortWith S W A) (w : W)
      → ((a : A) (w' : W) → p w ≡ (ok a, w') → Q a w')
      → Ensures (call f p) w Q
  Ensures-call f p w q = record { holds = wrapped-Holds f (p w) q }

module _ {W E S A : Type 0} {Q : Result S A → W → Type 0} where
  pub Ensures-try :
      (p : PortWith S W A) (w : W)
      → ((r : Result S A) (w' : W) → p w ≡ (r, w') → Q r w')
      → Ensures {E = E} (try p) w Q
  Ensures-try p w q = record { holds = q (p w).0 (p w).1 refl }

module _ {W E : Type 0} where
  require-Holds :
      (Q : Unit {0} → W → Type 0) (b : Bool) (e : E) (w : W)
      → (b ≡ true → Q tt w)
      → Holds Q (require b e w)
  require-Holds Q true e w q = q refl
  require-Holds Q false e w q = tt

  pub Ensures-require :
      {Q : Unit {0} → W → Type 0} (b : Bool) (e : E) (w : W)
      → (b ≡ true → Q tt w)
      → Ensures (require b e) w Q
  Ensures-require {Q = Q} b e w q = record { holds = require-Holds Q b e w q }

module _ {W E A B : Type 0} where
  after_reply-Holds :
      (Q : B → W → Type 0) (r : Reply E A × W) (f : A → Service W E B)
      → Holds (λ a w. Ensures (f a) w Q) r
      → Holds Q (after_reply r f)
  after_reply-Holds Q (returns a, w) f h = h.holds
  after_reply-Holds Q (fails_with e, w) f h = tt
  after_reply-Holds Q (panics, w) f h = tt

  pub Ensures-bind :
      {Q : B → W → Type 0} (m : Service W E A) (f : A → Service W E B) (w : W)
      → Ensures m w (λ a w'. Ensures (f a) w' Q)
      → Ensures (m >>= f) w Q
  Ensures-bind {Q = Q} m f w h = record { holds = after_reply-Holds Q (m w) f h.holds }
