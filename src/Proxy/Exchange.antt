-- ===== src/Proxy/Exchange.antt =====
-- One request being served: the world, what was written to the `http.ResponseWriter` in order, and
-- the requests that were forwarded to netmaster.
pub mod Receiving
pub mod Unsent
pub mod Settled
pub mod Forwards
pub mod Answers
pub mod Writes
pub mod Preserving
use auth_proxy.Prelude.{
  ℕ, Bool, String, List, [], ◌∷◌, ◌++◌, Option, none, some, ◌==◌, if◌then◌else◌,
}
use auth_proxy.Errors.{Error, is_panic, Result, ok, err}
use auth_proxy.Exec.{Exec}
use auth_proxy.Env.{Env, Request}

pub data Write : Type 0 where
  set_header : String → String → Write
  write_header : ℕ → Write
  write_body : String → Write

pub record Exchange (W : Type 0) : Type 0 where
  pub world : W
  pub out : List Write
  pub sent : List Request

-- A handler; its only errors are panics.
abbrev pub Handler : Type 0 → Type 0 → Type 0
Handler W A = Exec (Exchange W) A

-- An entry of `mux.Vars`, empty if it is missing.
unfoldable pub var : List (String × String) → String → String
var [] key = ""
var ((k, v) ∷ vs) key = if k == key then v else var vs key

-- `Header.Get` and the test that a header is there.
unfoldable pub header_values : List (String × List String) → String → Option (List String)
header_values [] key = none
header_values ((k, vs) ∷ h) key = if k == key then some vs else header_values h key

abbrev pub first_value : List String → String
first_value [] = ""
first_value (v ∷ _) = v

-- A call's error is a value for the handler, and a panic is not caught.
abbrev pub settle {ℓ} : {A : Type ℓ} → Result A → Result (Result A)
settle (ok a) = ok (ok a)
settle (err e) = if is_panic e then err e else ok (err e)

module _ {W A : Type 0} where
  -- The result of a call that does not write the response.
  unfoldable pub call : Exec W A → Handler W (Result A)
  call m x = let (r, w) = m x.world in (settle r, record x { world = w })

module _ {W : Type 0} where
  unfoldable pub emit : Write → Handler W (Unit {0})
  emit a x = (ok tt, record x { out = x.out ++ a ∷ [] })

  unfoldable pub note_sent : Request → Handler W (Unit {0})
  note_sent r x = (ok tt, record x { sent = x.sent ++ r ∷ [] })

-- What the client receives, by the rules of `http.ResponseWriter`: the first status counts, a body
-- without one sends 200, and headers that are set later are not sent.
pub record Received : Type 0 where
  pub status : Option ℕ
  pub headers : List (String × String)
  pub body : List String

abbrev pub nothing : Received
nothing = record { status = none; headers = []; body = [] }

unfoldable pub receive : Received → Write → Received
receive r (set_header k v) = elim r.status [
  | none ↦ record r { headers = r.headers ++ (k, v) ∷ [] }
  | some _ ↦ r
]
receive r (write_header n) = elim r.status [ none ↦ record r { status = some n } | some _ ↦ r ]
receive r (write_body b) = elim r.status [
  | none ↦ record r { status = some 200; body = r.body ++ b ∷ [] }
  | some _ ↦ record r { body = r.body ++ b ∷ [] }
]

unfoldable pub receive_all : Received → List Write → Received
receive_all r [] = r
receive_all r (a ∷ out) = receive_all (receive r a) out

unfoldable pub received : List Write → Received
unfolding receive receive_all
received out = receive_all nothing out
