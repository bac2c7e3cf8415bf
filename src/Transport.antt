-- ===== src/Transport.antt =====
-- What the handshake and the client use of a connection: SocketWriter::write_all and
-- SocketReader::read_frame (include/stream/socket.hpp), as operations on a world `W`; and programs
-- over such a world. `none` is a program that gives no result: it has used up its fuel, or an
-- exception has left it.
pub mod Simulates
pub mod Preserves
use rabbitmq_ai.Common.{
  ◌≡◌, refl, ap, Bool, true, false, not, Option, none, some, Bytes, if◌then◌else◌,
}
use rabbitmq_ai.Errors.{StreamError}
use rabbitmq_ai.Result.{Result, ok, err}
use rabbitmq_ai.Frame.{IncomingFrame}

abbrev pub Io : Type 0 → Type 0 → Type 0
Io W A = W → Option (Result A × W)

pub record Transport (W : Type 0) : Type 0 where
  pub write_all : Bytes → Io W (Unit {0})
  pub read_frame : Io W IncomingFrame

module _ {W A : Type 0} where
  unfoldable pub returns : A → Io W A
  returns a w = some (ok a, w)

  unfoldable pub from : Result A → Io W A
  from x w = some (x, w)

  unfoldable pub runs_out : Io W A
  runs_out w = none

module _ {W A B : Type 0} where
  unfoldable pub continue : (A → Io W B) → Option (Result A × W) → Option (Result B × W)
  continue f none = none
  continue f (some (ok a, w)) = f a w
  continue f (some (err e, w)) = some (err e, w)

  infixl 5 ◌>>=◌
  unfoldable pub ◌>>=◌ : Io W A → (A → Io W B) → Io W B
  unfolding continue
  ◌>>=◌ m f w = continue f (m w)

  -- A program that starts with one that gives `a`.
  pub starts :
      (m : Io W A) (f : A → Io W B) (w w' : W) (a : A)
      → m w ≡ some (ok a, w')
      → (m >>= f) w ≡ f a w'
  unfolding continue ◌>>=◌
  starts m f w w' a h = ap (continue f) h

  -- A program that starts with one that fails.
  pub fails :
      (m : Io W A) (f : A → Io W B) (w w' : W) (e : StreamError)
      → m w ≡ some (err e, w')
      → (m >>= f) w ≡ some (err e, w')
  unfolding continue ◌>>=◌
  fails m f w w' e h = ap (continue f) h

infixl 5 ◌>>◌
abbrev pub ◌>>◌ : {W B : Type 0} → Io W (Unit {0}) → Io W B → Io W B
m >> n = m >>= λ _. n

-- `if (b) return err(e);`
unfoldable pub stops_if : {W : Type 0} → Bool → StreamError → Io W (Unit {0})
stops_if b e w = some ((if b then err e else ok tt), w)

pub passes :
    {W : Type 0} (b : Bool) (e : StreamError) (w : W)
    → b ≡ true
    → stops_if (not b) e w ≡ some (ok tt, w)
unfolding stops_if
passes b e w h = rw h refl

pub stops :
    {W : Type 0} (b : Bool) (e : StreamError) (w : W)
    → b ≡ false
    → stops_if (not b) e w ≡ some (err e, w)
unfolding stops_if
stops b e w h = rw h refl

pub halts :
    {W : Type 0} (b : Bool) (e : StreamError) (w : W) → b ≡ true → stops_if b e w ≡ some (err e, w)
unfolding stops_if
halts b e w h = rw h refl

pub gives : {W A : Type 0} (x : Result A) (a : A) (w : W) → x ≡ ok a → from x w ≡ some (ok a, w)
unfolding from
gives x a w h = ap (λ y. some (y, w)) h
