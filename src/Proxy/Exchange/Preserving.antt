-- ===== src/Proxy/Exchange/Preserving.antt =====
-- Handlers that keep an invariant of the world: writes do not touch the world, and a call does what
-- the called function does.
use auth_proxy.Prelude.{◌≡◌, true}
use auth_proxy.Exec.{Exec}
use auth_proxy.Exec.Preserves.{Preserves}
use auth_proxy.Text.Splitting.{is_free}
use auth_proxy.Env.{Request}
use auth_proxy.Proxy.Exchange.{Handler, Write, emit, note_sent, call, var}

-- The user's name in the path has no slash, as `{username}` matches no slash.
abbrev pub NoSlash : Request → Type 0
NoSlash req = is_free b'/' (var req.vars "username") ≡ true

-- A handler keeps an invariant of the world.
abbrev pub Spares : {W A : Type 0} → (W → Type 0) → Handler W A → Type 0
Spares I m = Preserves (λ x. I x.world) m

module _ {W : Type 0} (I : W → Type 0) where
  pub Spares-call : {A : Type 0} {m : Exec W A} → Preserves I m → Spares I (call m)
  unfolding call
  Spares-call km = record { at = λ x h. km.at x.world h }

  pub Spares-emit : (a : Write) → Spares I (emit a)
  unfolding emit
  Spares-emit a = record { at = λ x h. h }

  pub Spares-note_sent : (r : Request) → Spares I (note_sent r)
  unfolding note_sent
  Spares-note_sent r = record { at = λ x h. h }
