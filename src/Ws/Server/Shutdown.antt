-- ===== src/Ws/Server/Shutdown.antt =====
-- `shutdown` of apps/ws/src/server.ts, up to its wait of 250 ms and after it. What the sockets do
-- when they are closed is Ws.Server.Lifecycle. `quit` of a Redis client may fail, which is ignored.
use block_docs.Base.{ℕ, zero, suc, ◌≡◌, refl, ap, ◌∙◌, Bool, true, false, List, ◌++◌, map}

pub record Process : Type 0 where
  pub shutting_down : Bool
  pub heartbeat : Bool
  pub listening : Bool
  pub clients : List ℕ
  pub closed : List (ℕ × ℕ)
  pub redis : Bool
  pub subscriber : Bool
  pub accepting : Bool

abbrev pub service_restart : ℕ
service_restart = 1012

-- `if (shuttingDown) return;`
unless_begun : Bool → Process → Process
unless_begun true p = p
unless_begun false p = record p {
  shutting_down = true;
  heartbeat = false;
  listening = false;
  closed = p.closed ++ map (λ s. (s, service_restart)) p.clients;
}

unfoldable pub begin_shutdown : Process → Process
unfolding unless_begun
begin_shutdown p = unless_begun p.shutting_down p

unfoldable pub end_shutdown : Process → Process
end_shutdown p = record p { redis = false; subscriber = false; accepting = false }

-- SIGTERM and SIGINT may both arrive.
unfoldable pub signals : ℕ → Process → Process
unfolding begin_shutdown
signals zero p = p
signals (suc n) p = signals n (begin_shutdown p)

ignored : (n : ℕ) (p : Process) → p.shutting_down ≡ true → signals n p ≡ p
unfolding signals begin_shutdown unless_begun
ignored zero p h = refl
ignored (suc n) p h = ap (λ b. signals n (unless_begun b p)) h ∙ ignored n p h

-- However often the process is told to stop, every client is closed once.
pub signals_once :
    (n : ℕ) (p : Process)
    → p.shutting_down ≡ false
    → (signals (suc n) p).closed ≡ p.closed ++ map (λ s. (s, service_restart)) p.clients
unfolding signals begin_shutdown unless_begun
signals_once n p h =
    ap (λ b. (signals n (unless_begun b p)).closed) h
    ∙ ap (λ (q : Process). q.closed) (ignored n (unless_begun false p) refl)
