-- ===== src/Proxy/Server/Timeouts.antt =====
-- The timeouts that `Init` of proxy/proxy.go accepts, and what becomes of them.
use auth_proxy.Prelude.{
  ℕ, zero, suc, ◌<◌, ◌≤◌, ◌*◌, ℤ, pos, negsuc, is_positive, leb_int, int64, times, true, false, not,
  ◌≡◌, refl, subst, arith, Bool-cases, inl, inr,
}
use auth_proxy.Errors.{ok}
use auth_proxy.Env.{Config}
use auth_proxy.Proxy.Server.{duration, Server, init, http_server}

-- The longest time in whole seconds that fits into a duration.
abbrev max_seconds : ℕ
max_seconds = 9223372036

-- The two sides of a duration: exact up to the bound, negative for as long again.
pub duration-pos :
    (n : ℕ)
    → (n ≤ max_seconds → duration (pos n) ≡ pos (n * 1000000000))
      × (max_seconds < n → n ≤ 18446744073 → is_positive (duration (pos n)) ≡ false)
unfolding duration times int64 is_positive
duration-pos n = (λ le. ground arith, λ lt le. ground arith)

positive : (x : ℤ) → not (is_positive x) ≡ false → (n : ℕ) × (x ≡ pos n) × (0 < n)
unfolding is_positive
positive (pos zero) h = cc
positive (pos (suc n)) h = (suc n, refl, omega arith)
positive (negsuc n) h = cc

-- What is known of a server that `Init` accepted, with the timeouts in seconds.
pub record Accepted (c : Config) (s : Server) : Type 0 where
  pub netmaster : ℕ
  pub read : ℕ
  pub write : ℕ
  pub netmaster_is : c.netmaster_request_timeout ≡ pos netmaster
  pub read_is : c.client_read_timeout ≡ pos read
  pub write_is : c.client_write_timeout ≡ pos write
  pub some_time : (0 < netmaster) × (0 < read)
  pub order : netmaster < write
  pub exact :
      write ≤ max_seconds
      → read ≤ max_seconds
      → (s.netmaster_timeout ≡ pos (netmaster * 1000000000))
        × ((http_server s).read_timeout ≡ pos (read * 1000000000))
        × ((http_server s).write_timeout ≡ pos (write * 1000000000))
  pub lost :
      max_seconds < netmaster → netmaster ≤ 18446744073 → is_positive s.netmaster_timeout ≡ false

later : (a b : ℕ) → leb_int (pos b) (pos a) ≡ false → a < b
unfolding leb_int
later a b h = ground arith

accepted :
    (c : Config)
    → (n : ℕ) × (c.netmaster_request_timeout ≡ pos n) × (0 < n)
    → (n : ℕ) × (c.client_read_timeout ≡ pos n) × (0 < n)
    → (n : ℕ) × (c.client_write_timeout ≡ pos n) × (0 < n)
    → leb_int c.client_write_timeout c.netmaster_request_timeout ≡ false
    → Accepted c (record {
      config = c;
      netmaster_timeout = duration c.netmaster_request_timeout;
      use_keepalives = true;
    })
unfolding http_server
accepted c (n, n_is, n_pos) (r, r_is, r_pos) (w, w_is, w_pos) after =
    let order = later n w (rw (n_is, w_is) at after) in
    record {
      netmaster = n;
      read = r;
      write = w;
      netmaster_is = n_is;
      read_is = r_is;
      write_is = w_is;
      some_time = (n_pos, r_pos);
      order = order;
      exact = λ le le'. (
        rw n_is ((duration-pos n).0 (omega arith)),
        rw r_is ((duration-pos r).0 le'),
        rw w_is ((duration-pos w).0 le),
      );
      lost = λ lt le. rw n_is ((duration-pos n).1 lt le);
    }

-- `Init` accepts only timeouts that are positive, and for netmaster less time than for the client's
-- response; up to 9223372036 seconds the server has exactly these times in nanoseconds, but above
-- that the time for netmaster wraps around and is not positive, up to twice as many seconds at least.
pub init-Accepted : (c : Config) (s : Server) → init c ≡ ok s → Accepted c s
unfolding init
init-Accepted c s h = elim (Bool-cases (not (is_positive c.netmaster_request_timeout))) [
  | inl bad ↦ let h' = (rw bad at h) in cc h'
  | inr n ↦ elim (Bool-cases (not (is_positive c.client_read_timeout))) [
    | inl bad ↦ let h' = (rw (n, bad) at h) in cc h'
    | inr r ↦ elim (Bool-cases (not (is_positive c.client_write_timeout))) [
      | inl bad ↦ let h' = (rw (n, r, bad) at h) in cc h'
      | inr w ↦ elim (Bool-cases (leb_int c.client_write_timeout c.netmaster_request_timeout)) [
        | inl bad ↦ let h' = (rw (n, r, w, bad) at h) in cc h'
        | inr after ↦
            let h' = (rw (n, r, w, after) at h) in
            subst (Accepted c) (cc h') (
              accepted c (positive c.netmaster_request_timeout n) (positive c.client_read_timeout r)
                (positive c.client_write_timeout w) after)
      ]
    ]
  ]
]
