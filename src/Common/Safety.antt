-- ===== src/Common/Safety.antt =====
-- To prove an invariant of the world over service methods: a method keeps the invariant, however it
-- ends, and what it returns has a property. The rules follow the code line by line.
use mathlib.Core.Path.{◌≡◌, refl}
use mathlib.Core.Bool.{Bool, true, false}
use mathlib.Core.Option.{Option, none, some}
use uniedit_server.Common.Tests.{if◌then◌else◌}
use uniedit_server.Common.Results.{Result, ok, err}
use uniedit_server.Common.Effects.{
  Reply, returns, fails_with, panics, PortWith, Service, after_reply, ◌>>=◌, ◌>>◌, give, raise,
  require, try, wrapped, call, deref, found,
}

module _ {E A : Type 0} where
  abbrev pub Returned : (A → Type 0) → Reply E A → Type 0
  Returned Q (returns a) = Q a
  Returned Q (fails_with e) = Unit
  Returned Q panics = Unit

  abbrev pub Answered : (A → Type 0) → Result E A → Type 0
  Answered Q (ok a) = Q a
  Answered Q (err e) = Unit

pub record Safe {W E A : Type 0} (Inv : W → Type 0) (m : Service W E A) (Q : A → Type 0)
    : Type 0 where
  pub safe : (w : W) → Inv w → Inv (m w).1 × Returned Q (m w).0

pub record SafePort {W S A : Type 0} (Inv : W → Type 0) (p : PortWith S W A) (Q : A → Type 0)
    : Type 0 where
  pub safe : (w : W) → Inv w → Inv (p w).1 × Answered Q (p w).0

-- What a method returns may be forgotten.
abbrev pub Any : {A : Type 0} → A → Type 0
Any a = Unit

pub Answered-Any : {S A : Type 0} (r : Result S A) → Answered Any r
Answered-Any (ok a) = tt
Answered-Any (err e) = tt

pub Returned-Any : {E A : Type 0} (r : Reply E A) → Returned Any r
Returned-Any (returns a) = tt
Returned-Any (fails_with e) = tt
Returned-Any panics = tt

pub Returned-imply :
    {E A : Type 0} {Q R : A → Type 0} (r : Reply E A)
    → ((a : A) → Q a → R a)
    → Returned Q r
    → Returned R r
Returned-imply (returns a) f q = f a q
Returned-imply (fails_with e) f q = tt
Returned-imply panics f q = tt

pub Answered-if :
    {S A : Type 0} (Q : A → Type 0) (r : Result S A) → ((a : A) → r ≡ ok a → Q a) → Answered Q r
Answered-if Q (ok a) q = q a refl
Answered-if Q (err e) q = tt

module _ {W : Type 0} (Inv : W → Type 0) where
  require-Safe :
      {E : Type 0} (b : Bool) (e : E) (w : W)
      → Inv w
      → Inv (require b e w).1 × Returned (λ u. b ≡ true) (require b e w).0
  require-Safe true e w i = (i, refl)
  require-Safe false e w i = (i, tt)

  wrapped-Safe :
      {E S A : Type 0} (Q : A → Type 0) (f : S → E) (r : Result S A × W)
      → Inv r.1 × Answered Q r.0
      → Inv (wrapped f r).1 × Returned Q (wrapped f r).0
  wrapped-Safe Q f (ok a, w) i = i
  wrapped-Safe Q f (err e, w) i = i

module _ {W E : Type 0} {Inv : W → Type 0} where
  pub Safe-give : {A : Type 0} {Q : A → Type 0} (a : A) → Q a → Safe {E = E} Inv (give a) Q
  Safe-give a q = record { safe = λ w i. (i, q) }

  pub Safe-raise : {A : Type 0} {Q : A → Type 0} (e : E) → Safe Inv (raise e) Q
  Safe-raise e = record { safe = λ w i. (i, tt) }

  pub Safe-require : (b : Bool) (e : E) → Safe Inv (require b e) (λ u. b ≡ true)
  Safe-require b e = record { safe = require-Safe Inv b e }

module _ {W E A : Type 0} {Inv : W → Type 0} where
  pub Safe-weaken : {Q : A → Type 0} {m : Service W E A} → Safe Inv m Q → Safe Inv m Any
  Safe-weaken {m = m} s = record { safe = λ w i. ((s.safe w i).0, Returned-Any (m w).0) }

  pub Safe-imply :
      {Q R : A → Type 0} {m : Service W E A} → Safe Inv m Q → ((a : A) → Q a → R a) → Safe Inv m R
  Safe-imply {m = m} s f = record {
    safe = λ w i. ((s.safe w i).0, Returned-imply (m w).0 f (s.safe w i).1);
  }

  pub Safe-if :
      {Q : A → Type 0} {m n : Service W E A} (b : Bool)
      → Safe Inv m Q
      → Safe Inv n Q
      → Safe Inv (if b then m else n) Q
  Safe-if true s t = s
  Safe-if false s t = t

  pub Safe-deref : (o : Option A) → Safe {E = E} Inv (deref o) Any
  Safe-deref none = record { safe = λ w i. (i, tt) }
  Safe-deref (some a) = record { safe = λ w i. (i, tt) }

  pub Safe-found : (o : Option A) (e : E) → Safe Inv (found o e) (λ a. o ≡ some a)
  Safe-found none e = record { safe = λ w i. (i, tt) }
  Safe-found (some a) e = record { safe = λ w i. (i, refl) }

module _ {W E S A : Type 0} {Inv : W → Type 0} {Q : A → Type 0} where
  pub Safe-call : (f : S → E) (p : PortWith S W A) → SafePort Inv p Q → Safe Inv (call f p) Q
  Safe-call f p s = record { safe = λ w i. wrapped-Safe Inv Q f (p w) (s.safe w i) }

  pub Safe-try : (p : PortWith S W A) → SafePort Inv p Q → Safe {E = E} Inv (try p) (Answered Q)
  Safe-try p s = record { safe = λ w i. s.safe w i }

module _ {W E A B : Type 0} {Inv : W → Type 0} {Q : A → Type 0} {R : B → Type 0} where
  after_reply-Safe :
      (r : Reply E A × W) (f : A → Service W E B)
      → Inv r.1 × Returned Q r.0
      → ((a : A) → Q a → Safe Inv (f a) R)
      → Inv (after_reply r f).1 × Returned R (after_reply r f).0
  after_reply-Safe (returns a, w) f (i, q) s = (s a q).safe w i
  after_reply-Safe (fails_with e, w) f (i, q) s = (i, tt)
  after_reply-Safe (panics, w) f (i, q) s = (i, tt)

  pub Safe-bind :
      (m : Service W E A) (f : A → Service W E B)
      → Safe Inv m Q
      → ((a : A) → Q a → Safe Inv (f a) R)
      → Safe Inv (m >>= f) R
  Safe-bind m f s t = record { safe = λ w i. after_reply-Safe (m w) f (s.safe w i) t }

-- The same for a line of the code with what follows it.
module _ {W E S A B : Type 0} {Inv : W → Type 0} {Q : A → Type 0} {R : B → Type 0} where
  pub Safe-call_then :
      {p : PortWith S W A} {f : A → Service W E B} (g : S → E)
      → SafePort Inv p Q
      → ((a : A) → Q a → Safe Inv (f a) R)
      → Safe Inv (call g p >>= f) R
  Safe-call_then g s t = Safe-bind _ _ (Safe-call _ _ s) t

  pub Safe-try_then :
      {p : PortWith S W A} {f : Result S A → Service W E B}
      → SafePort Inv p Q
      → ((r : Result S A) → Answered Q r → Safe Inv (f r) R)
      → Safe Inv (try p >>= f) R
  Safe-try_then s t = Safe-bind _ _ (Safe-try _ s) t

module _ {W E B : Type 0} {Inv : W → Type 0} {R : B → Type 0} where
  pub Safe-require_then :
      {m : Service W E B} (b : Bool) (e : E)
      → (b ≡ true → Safe Inv m R)
      → Safe Inv (require b e >> m) R
  Safe-require_then b e t = Safe-bind _ _ (Safe-require b e) (λ u q. t q)
