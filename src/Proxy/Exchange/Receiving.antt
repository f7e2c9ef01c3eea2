-- ===== src/Proxy/Exchange/Receiving.antt =====
-- What the client receives of writes that come one after the other.
use auth_proxy.Prelude.{ℕ, ◌≡◌, refl, String, List, [], ◌∷◌, ◌++◌, some, Option-cases, inl, inr}
use auth_proxy.Proxy.Exchange.{
  Write, set_header, write_header, Received, receive, receive_all, received, nothing,
}

receive_all-append :
    (r : Received) (out late : List Write)
    → receive_all r (out ++ late) ≡ receive_all (receive_all r out) late
unfolding receive_all
receive_all-append r [] late = refl
receive_all-append r (a ∷ out) late = receive_all-append (receive r a) out late

pub received-append :
    (out late : List Write) → received (out ++ late) ≡ receive_all (received out) late
unfolding received
received-append out late = receive_all-append nothing out late

late_header :
    (r : Received) (n : ℕ) (k v : String) → r.status ≡ some n → receive r (set_header k v) ≡ r
unfolding receive
late_header r n k v h = rw h refl

pub received-late_header :
    (out : List Write) (n : ℕ) (k v : String)
    → (received out).status ≡ some n
    → received (out ++ set_header k v ∷ []) ≡ received out
unfolding receive_all
received-late_header out n k v h =
    rw (received-append out (set_header k v ∷ [])) (late_header (received out) n k v h)

status_written :
    (r : Received) (n : ℕ)
    → ((receive r (write_header n)).headers ≡ r.headers)
      × ((m : ℕ) × ((receive r (write_header n)).status ≡ some m))
unfolding receive
status_written r n = elim (Option-cases r.status) [
  | inl first ↦ rw first (refl, (n, refl))
  | inr (m, late) ↦ rw late (refl, (m, refl))
]

-- A status does not change the headers, and from then on there is one.
pub received-status_written :
    (out : List Write) (n : ℕ)
    → ((received (out ++ write_header n ∷ [])).headers ≡ (received out).headers)
      × ((m : ℕ) × ((received (out ++ write_header n ∷ [])).status ≡ some m))
unfolding receive_all
received-status_written out n =
    rw (received-append out (write_header n ∷ [])) (status_written (received out) n)
