-- ===== src/Proxy/Exchange/Answers.antt =====
-- What an action makes of the answer to a request: the status that the client receives, if one was
-- written, with one rule for each way to build an action.
use auth_proxy.Prelude.{
  ◌++◌, ℕ, ◌≡◌, Bool, true, false, Bool-cases, String, List, [], ◌∷◌, Option, none, some,
  Option-cases, inl, inr, if◌then◌else◌,
}
use auth_proxy.Errors.{Error, is_panic, Result, ok, err}
use auth_proxy.Exec.{Exec, pure, throw, continue, ◌>>=◌, ◌>>◌}
use auth_proxy.Exec.Returns.{Returns}
use auth_proxy.Proxy.Exchange.{
  Exchange, Handler, Write, set_header, write_header, write_body, emit, call, settle, Received,
  receive, receive_all, received,
}
use auth_proxy.Proxy.Exchange.Receiving.{received-append}

-- A status is one of `P`. An answered request has a status, any other may have one.
abbrev pub Stands : (ℕ → Type 0) → Bool → Option ℕ → Type 0
Stands P true none = ⊥
Stands P false none = Unit {0}
Stands P b (some n) = P n

-- An action ends by a panic, or it returns a value, from which `done` tells whether it has answered.
abbrev pub Ends : {A : Type 0} → (ℕ → Type 0) → (A → Bool) → Result A → Option ℕ → Type 0
Ends P done (ok a) s = Stands P (done a) s
Ends P done (err e) s = is_panic e ≡ true

abbrev pub status_of : {W : Type 0} → Exchange W → Option ℕ
status_of x = (received x.out).status

-- `before` tells whether the request was answered before.
pub record Answers {W A : Type 0} (P : ℕ → Type 0) (before : Bool) (done : A → Bool)
    (m : Handler W A) : Type 0 where
  pub at :
      (x : Exchange W) → Stands P before (status_of x) → Ends P done (m x).0 (status_of (m x).1)

may_be : (P : ℕ → Type 0) (b : Bool) (s : Option ℕ) → Stands P b s → Stands P false s
may_be P true (some n) p = p
may_be P false (some n) p = p
may_be P b none p = tt

-- A call does not write.
settled :
    {A : Type 0} (P : ℕ → Type 0) (b : Bool) (r : Result A) (s : Option ℕ)
    → Stands P b s
    → Ends P (λ _. b) (settle r) s
settled P b (ok a) s h = h
settled P b (err e) s h = elim (Bool-cases (is_panic e)) [
  | inl panics ↦ rw panics panics
  | inr returns ↦ rw returns h
]

module _ {W A : Type 0} {P : ℕ → Type 0} where
  pub Answers-pure : (done : A → Bool) (a : A) → Answers {W = W} P (done a) done (pure a)
  Answers-pure done a = record { at = λ x h. h }

  pub Answers-throw :
      (b : Bool) (done : A → Bool) (e : Error)
      → is_panic e ≡ true
      → Answers {W = W} P b done (throw e)
  Answers-throw b done e h = record { at = λ x _. h }

  pub Answers-if :
      {before : Bool} {done : A → Bool} (b : Bool) (m n : Handler W A)
      → Answers P before done m
      → Answers P before done n
      → Answers P before done (if b then m else n)
  Answers-if true m n km kn = km
  Answers-if false m n km kn = kn

  -- What answers a request may also be done after the answer.
  pub Answers-late :
      {done : A → Bool} (m : Handler W A) → Answers P false done m → Answers P true done m
  Answers-late m km = record { at = λ x h. km.at x (may_be P true _ h) }

  pub Answers-call : (b : Bool) (m : Exec W A) → Answers P b (λ _. b) (call m)
  unfolding call
  Answers-call b m = record { at = λ x h. settled P b (m x.world).0 (status_of x) h }

module _ {W A B : Type 0} {P : ℕ → Type 0} where
  continued :
      (done : A → Bool) (last : B → Bool) (r : Result A) (f : A → Handler W B)
      → ((a : A) → Answers P (done a) last (f a))
      → (x : Exchange W) → Ends P done r (status_of x)
      → Ends P last (continue r f x).0 (status_of (continue r f x).1)
  continued done last (ok a) f kf x h = (kf a).at x h
  continued done last (err e) f kf x h = h

  pub Answers-bind :
      {before : Bool} (done : A → Bool) {last : B → Bool} (m : Handler W A) (f : A → Handler W B)
      → Answers P before done m
      → ((a : A) → Answers P (done a) last (f a))
      → Answers P before last (m >>= f)
  Answers-bind done {last} m f km kf = record {
    at = λ x h. continued done last (m x).0 f kf (m x).1 (km.at x h);
  }

  pub Answers-then :
      {before : Bool} (b : Bool) {last : B → Bool} (m : Handler W A) (n : Handler W B)
      → Answers P before (λ _. b) m
      → Answers P b last n
      → Answers P before last (m >> n)
  Answers-then b m n km kn = Answers-bind (λ _. b) m (λ _. n) km (λ _. kn)

  -- A call that returns in every state.
  pub Answers-returned :
      {before : Bool} {done : B → Bool} {Q : A → Type 0} (m : Exec W A) (f : Result A → Handler W B)
      → Returns Q m
      → ((a : A) → Q a → Answers P before done (f (ok a)))
      → Answers P before done (call m >>= f)
  unfolding call
  Answers-returned {before} {done} {Q} m f km kf = record { at = λ x h. after x h (km.at x.world) }
    where
      after :
          (x : Exchange W)
          → Stands P before (status_of x)
          → (a : A) × ((m x.world).0 ≡ ok a) × Q a
          → Ends P done
              (continue (call m x).0 f (call m x).1).0
              (status_of (continue (call m x).0 f (call m x).1).1)
      after x h (a, e, q) = rw e ((kf a q).at (record x { world = (m x.world).1 }) h)

-- A write appended to others is received after them.
received-emitted :
    (out : List Write) (a : Write) → received (out ++ a ∷ []) ≡ receive (received out) a
unfolding receive_all
received-emitted out a = received-append out (a ∷ [])

header-Stands :
    (P : ℕ → Type 0) (b : Bool) (r : Received) (k v : String)
    → Stands P b r.status
    → Stands P b (receive r (set_header k v)).status
unfolding receive
header-Stands P b r k v h = elim (Option-cases r.status) [
  | inl first ↦ rw first (rw first at h)
  | inr (n, late) ↦ rw late (rw late at h)
]

status-Stands :
    (P : ℕ → Type 0) (r : Received) (n : ℕ)
    → P n
    → Stands P false r.status
    → Stands P true (receive r (write_header n)).status
unfolding receive
status-Stands P r n p h = elim (Option-cases r.status) [
  | inl first ↦ rw first p
  | inr (m, late) ↦ rw late (rw late at h)
]

body-Stands :
    (P : ℕ → Type 0) (r : Received) (s : String)
    → P 200
    → Stands P false r.status
    → Stands P true (receive r (write_body s)).status
unfolding receive
body-Stands P r s p h = elim (Option-cases r.status) [
  | inl first ↦ rw first p
  | inr (m, late) ↦ rw late (rw late at h)
]

late-Stands :
    (P : ℕ → Type 0) (r : Received) (a : Write)
    → Stands P true r.status
    → Stands P true (receive r a).status
unfolding receive
late-Stands P r (set_header k v) h = header-Stands P true r k v h
late-Stands P r (write_header n) h = elim (Option-cases r.status) [
  | inl first ↦ absurd (rw first at h)
  | inr (m, late) ↦ rw late (rw late at h)
]
late-Stands P r (write_body s) h = elim (Option-cases r.status) [
  | inl first ↦ absurd (rw first at h)
  | inr (m, late) ↦ rw late (rw late at h)
]

module _ {W : Type 0} {P : ℕ → Type 0} where
  pub Answers-header :
      (b : Bool) (k v : String) → Answers {W = W} P b (λ _. b) (emit (set_header k v))
  unfolding emit
  Answers-header b k v = record {
    at = λ x h.
        rw (status_of, received-emitted x.out (set_header k v))
          (header-Stands P b (received x.out) k v h);
  }

  pub Answers-status : (n : ℕ) → P n → Answers {W = W} P false (λ _. true) (emit (write_header n))
  unfolding emit
  Answers-status n p = record {
    at = λ x h.
        rw (status_of, received-emitted x.out (write_header n))
          (status-Stands P (received x.out) n p h);
  }

  pub Answers-body :
      (s : String) → P 200 → Answers {W = W} P false (λ _. true) (emit (write_body s))
  unfolding emit
  Answers-body s p = record {
    at = λ x h.
        rw (status_of, received-emitted x.out (write_body s))
          (body-Stands P (received x.out) s p h);
  }

  -- What is written after the answer does not count.
  pub Answers-emit : (a : Write) → Answers {W = W} P true (λ _. true) (emit a)
  unfolding emit
  Answers-emit a = record {
    at = λ x h. rw (status_of, received-emitted x.out a) (late-Stands P (received x.out) a h);
  }
