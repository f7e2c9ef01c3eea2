-- ===== src/Proxy/Exchange/Writes.antt =====
-- Conditions on all that a handler writes, one rule for each action that writes or calls.
use auth_proxy.Prelude.{Bool-cases, inl, inr, ◌≡◌, refl, List, [], ◌∷◌, ◌++◌, All}
use auth_proxy.Errors.{Result, ok, err, is_panic}
use auth_proxy.Exec.{Exec, continue, ◌>>=◌}
use auth_proxy.Exec.Preserves.{Preserves}
use auth_proxy.Exec.Returns.{Returns}
use auth_proxy.Proxy.Exchange.{Exchange, Handler, Write, emit, call, settle}

-- If all that was written satisfies the condition, then all that is written afterwards does.
abbrev pub Writes : {W A : Type 0} → (Write → Type 0) → Handler W A → Type 0
Writes Q m = Preserves (λ x. All Q x.out) m

All-snoc :
    (Q : Write → Type 0) (out : List Write) (a : Write) → All Q out → Q a → All Q (out ++ a ∷ [])
All-snoc Q [] a h q = (q, tt)
All-snoc Q (b ∷ out) a (here, later) q = (here, All-snoc Q out a later q)

module _ {W : Type 0} (Q : Write → Type 0) where
  pub Writes-emit : (a : Write) → Q a → Writes {W = W} Q (emit a)
  unfolding emit
  Writes-emit a q = record { at = λ x h. All-snoc Q x.out a h q }

  pub Writes-call : {A : Type 0} (m : Exec W A) → Writes Q (call m)
  unfolding call
  Writes-call m = record { at = λ x h. h }

  -- A call that returns in every state.
  pub Writes-returned :
      {A B : Type 0} {R : A → Type 0} (m : Exec W A) (f : Result A → Handler W B)
      → Returns R m
      → ((a : A) → R a → Writes Q (f (ok a)))
      → Writes Q (call m >>= f)
  unfolding call
  Writes-returned {A} {B} {R} m f km kf = record { at = λ x h. after x h (km.at x.world) }
    where
      after :
          (x : Exchange W)
          → All Q x.out
          → (a : A) × ((m x.world).0 ≡ ok a) × R a
          → All Q (continue (call m x).0 f (call m x).1).1.out
      after x h (a, e, r) = rw e ((kf a r).at (record x { world = (m x.world).1 }) h)

  -- What a call returned is known afterwards.
  pub Writes-known :
      {A B : Type 0} (m : Exec W A) (f : Result A → Handler W B)
      → ((w : W) (r : Result A) → (m w).0 ≡ r → Writes Q (f r))
      → Writes Q (call m >>= f)
  unfolding call
  Writes-known {A} {B} m f kf = record {
    at = λ x h.
        settled (m x.world).0 (kf x.world (m x.world).0 refl) (record x { world = (m x.world).1 })
          h;
  }
    where
      settled :
          (r : Result A)
          → Writes Q (f r)
          → (x : Exchange W) → All Q x.out
          → All Q (continue (settle r) f x).1.out
      settled (ok a) kr x h = kr.at x h
      settled (err e) kr x h = elim (Bool-cases (is_panic e)) [
        | inl panics ↦ rw panics h
        | inr other ↦ rw other (kr.at x h)
      ]
