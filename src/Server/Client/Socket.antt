-- ===== src/Server/Client/Socket.antt =====
-- server/core/bridge_client.py: what a call sees of the socket and the clock, and what a block of it
-- comes to.
use blender_design.Common.{ℕ, Bool, List, Option, Result, ok, err}
use blender_design.Protocol.Framing.{Bytes}
use blender_design.Protocol.Json.{Text}
use blender_design.Server.Response.{Failure}

-- `client.connect`: `again` is EAGAIN, `connect_timeout` is ETIMEDOUT, an OSError that is a
-- TimeoutError, and `refused` any other OSError than EINPROGRESS.
pub data ConnectResult : Type 0 where
  connected again in_progress connect_timeout refused : ConnectResult

-- `selector.select`, and the SO_ERROR of a ready socket: none, ETIMEDOUT, or another one.
pub data SelectResult : Type 0 where
  nothing ready ready_timeout ready_error : SelectResult

-- A timeout of `send` or `recv` is the TimeoutError of the deadline, or that of ETIMEDOUT.
pub data SendResult : Type 0 where
  sent : ℕ → SendResult
  send_timeout send_error : SendResult

pub data RecvResult : Type 0 where
  received : Bytes → RecvResult
  recv_timeout recv_error : RecvResult

pub record Env : Type 0 where
  pub clock : ℕ → ℕ
  pub check_cancelled : Option (ℕ → Bool)
  pub connect : ℕ → ConnectResult
  pub select : ℕ → SelectResult
  pub send : ℕ → SendResult
  pub recv : ℕ → RecvResult
  -- str(uuid.uuid4())
  pub uuid : Text

-- What has been read from the environment, written to the socket and read from it.
pub record World : Type 0 where
  pub observed : ℕ
  pub written : Bytes
  pub inbound : List Bytes

abbrev pub Client : Type 0 → Type 0
Client A = World → Result Failure A × World

module _ {A : Type 0} where
  abbrev pub return : A → Client A
  return a w = (ok a, w)

  abbrev pub raise : Failure → Client A
  raise e w = (err e, w)

-- What follows a part that may have raised.
abbrev pub continue :
    {A B : Type 0} → (A → Client B) → Result Failure A × World → Result Failure B × World
continue next (ok a, w) = next a w
continue next (err e, w) = (err e, w)

infixl 5 ◌>>=◌ ◌>>◌
abbrev pub ◌>>=◌ : {A B : Type 0} → Client A → (A → Client B) → Client B
(first >>= next) w = continue next (first w)

abbrev pub ◌>>◌ : {B : Type 0} → Client (Unit {0}) → Client B → Client B
(first >> next) w = continue (λ _. next) (first w)
