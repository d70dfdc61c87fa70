-- ===== src/Common/Effects.antt =====
-- A service method in Go: it acts on the world through ports, and returns a value, an error, or a
-- panic (a nil pointer that is dereferenced). A port returns a value or an error message.
use Prim.Native.String.{String}
use mathlib.Core.Bool.{Bool, true, false}
use mathlib.Core.Option.{Option, none, some}
use uniedit_server.Common.Results.{Result, ok, err}

pub data Reply (E : Type 0) (A : Type 0) : Type 0 where
  returns : A → Reply E A
  fails_with : E → Reply E A
  panics : Reply E A

-- A method of a port, with its errors `S`.
abbrev pub PortWith : Type 0 → Type 0 → Type 0 → Type 0
PortWith S W A = W → Result S A × W

-- A method of a port whose errors the code does not tell apart: they are messages.
abbrev pub Port : Type 0 → Type 0 → Type 0
Port W A = PortWith String W A

-- A method of a service.
abbrev pub Service : Type 0 → Type 0 → Type 0 → Type 0
Service W E A = W → Reply E A × W

module _ {W E A B : Type 0} where
  abbrev pub after_reply : Reply E A × W → (A → Service W E B) → Reply E B × W
  after_reply (returns a, w) f = f a w
  after_reply (fails_with e, w) f = (fails_with e, w)
  after_reply (panics, w) f = (panics, w)

  infixl 5 ◌>>=◌
  abbrev pub ◌>>=◌ : Service W E A → (A → Service W E B) → Service W E B
  ◌>>=◌ m f w = after_reply (m w) f

module _ {W E S : Type 0} where
  abbrev pub caught : {A : Type 0} → Result S A × W → Reply E (Result S A) × W
  caught (r, w) = (returns r, w)

  -- A call of a port whose error the code looks at, or drops.
  abbrev pub try : {A : Type 0} → PortWith S W A → Service W E (Result S A)
  try p w = caught (p w)

  abbrev pub wrapped : {A : Type 0} → (S → E) → Result S A × W → Reply E A × W
  wrapped f (ok a, w) = (returns a, w)
  wrapped f (err s, w) = (fails_with (f s), w)

  -- A call of a port whose error ends the method: `if err != nil { return f(err) }`.
  abbrev pub call : {A : Type 0} → (S → E) → PortWith S W A → Service W E A
  call f p w = wrapped f (p w)

module _ {W E : Type 0} where
  infixl 5 ◌>>◌
  abbrev pub ◌>>◌ : {B : Type 0} → Service W E (Unit {0}) → Service W E B → Service W E B
  m >> k = m >>= λ _. k

  abbrev pub give : {A : Type 0} → A → Service W E A
  give a w = (returns a, w)

  abbrev pub raise : {A : Type 0} → E → Service W E A
  raise e w = (fails_with e, w)

  -- `if !test { return e }`.
  abbrev pub require : Bool → E → Service W E (Unit {0})
  require true e w = (returns tt, w)
  require false e w = (fails_with e, w)

  -- The use of a pointer: `nil` panics.
  abbrev pub deref : {A : Type 0} → Option A → Service W E A
  deref none w = (panics, w)
  deref (some a) w = (returns a, w)

  -- `if p == nil { return e }`.
  abbrev pub found : {A : Type 0} → Option A → E → Service W E A
  found none e w = (fails_with e, w)
  found (some a) e w = (returns a, w)
