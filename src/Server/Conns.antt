-- ===== src/Server/Conns.antt =====
-- internal/server/tcp.go: the connections that the server tracks, the loop of Start that accepts them, and
-- the goroutine that closes them when the context is done. A `net.Conn` is told by its address.
use dsend.Base.{
  ℕ, Bool, true, false, List, [], ◌∷◌, ◌++◌, map, ◌≡◌, ◌≢◌, ◌⊎◌, sym, ◌∙◌, Mem, refl, inl, inr,
  arith, nat_eq, All, All-append, All-map, All-delete_func, delete_func, if_cases, if◌then◌else◌,
}

-- A connection of `conns`. `handled` says that its handler runs.
pub record Conn : Type 0 where
  pub address : ℕ
  pub is_closed : Bool
  pub handled : Bool

-- Where the loop of Start is: at Accept, with a connection that it has not tracked yet, with one that
-- it has tracked, or behind the loop.
pub data AcceptStage : Type 0 where
  accepting : AcceptStage
  accepted tracked : ℕ → AcceptStage
  stopped : AcceptStage

-- Server, with its listener and its goroutine. `swept` says that closeConns has run, and `turned_away` has
-- the connections that Start has closed itself.
pub record Server : Type 0 where
  pub conns : List Conn
  pub turned_away : List Conn
  pub stage : AcceptStage
  pub listening : Bool
  pub cancelled : Bool
  pub swept : Bool

-- New, and the listener of Start
abbrev pub new_server : Server
new_server = record {
  conns = [];
  turned_away = [];
  stage = accepting;
  listening = true;
  cancelled = false;
  swept = false;
}

-- trackConn
unfoldable pub track_conn : List Conn → ℕ → List Conn
track_conn conns address =
    conns ++ record { address = address; is_closed = false; handled = false } ∷ []

-- untrackConn
unfoldable pub untrack_conn : List Conn → ℕ → List Conn
untrack_conn conns address = delete_func (λ (c : Conn). nat_eq c.address address) conns

-- closeConns
unfoldable pub close_conns : List Conn → List Conn
close_conns = map (λ (c : Conn). record c { is_closed = true })

-- `go func(conn)`, for a connection that is tracked
abbrev pub handle_conn : ℕ → Conn → Conn
handle_conn address c = if nat_eq c.address address then record c { handled = true } else c

-- The `select` of Start: a connection that was accepted while the server shuts down is not tracked any
-- more, and closed.
unfoldable pub check_conn : Server → ℕ → Server
check_conn s address = record s {
  conns = if s.cancelled then untrack_conn s.conns address else map (handle_conn address) s.conns;
  turned_away =
      if s.cancelled
      then record { address = address; is_closed = true; handled = false } ∷ s.turned_away
      else s.turned_away;
  stage = accepting;
}

-- One step of the loop, of the goroutine, or of a handler. Accept returns a connection that no other
-- has the address of, or `net.ErrClosed` once the listener is closed.
pub data Step : Server → Server → Type 0 where
  accepts :
      (s : Server) (address : ℕ)
      → s.stage ≡ accepting
      → s.listening ≡ true
      → All (λ (c : Conn). c.address ≢ address) s.conns
      → Step s (record s { stage = accepted address })
  tracks :
      (s : Server) (address : ℕ)
      → s.stage ≡ accepted address
      → Step s (record s { conns = track_conn s.conns address; stage = tracked address })
  checks : (s : Server) (address : ℕ) → s.stage ≡ tracked address → Step s (check_conn s address)
  stops :
      (s : Server)
      → s.stage ≡ accepting
      → s.listening ≡ false
      → Step s (record s { stage = stopped })
  cancels : (s : Server) → Step s (record s { cancelled = true })
  unlistens : (s : Server) → s.cancelled ≡ true → Step s (record s { listening = false })
  sweeps :
      (s : Server)
      → s.cancelled ≡ true
      → s.listening ≡ false
      → Step s (record s { conns = close_conns s.conns; swept = true })
  finishes :
      (s : Server) (c : Conn)
      → Mem c s.conns
      → c.handled ≡ true
      → Step s (record s { conns = untrack_conn s.conns c.address })

pub data Reach (s : Server) : Server → Type 0 where
  here : Reach s s
  next : {u v : Server} → Reach s u → Step u v → Reach s v

-- A connection is closed, or is the one that the loop is about to close.
abbrev pub IsDone : AcceptStage → Conn → Type 0
IsDone stage c = (c.is_closed ≡ true) ⊎ (stage ≡ tracked c.address)

record IsSwept (s : Server) : Type 0 where
  done : s.swept ≡ true → All (IsDone s.stage) s.conns
  last : s.swept ≡ true → s.cancelled ≡ true

tracked-injective : {i j : ℕ} → tracked i ≡ tracked j → i ≡ j
tracked-injective e = cc e

other : {i j : ℕ} → nat_eq j i ≡ false → i ≢ j
other {i} {j} k e = ground (arith, k, e)

-- Between two connections all are closed.
settled :
    (stage stage' : AcceptStage) (c : Conn)
    → ((address : ℕ) → stage ≢ tracked address)
    → IsDone stage c
    → IsDone stage' c
settled stage stage' c idle (inl closed) = inl closed
settled stage stage' c idle (inr mine) = absurd (idle c.address mine)

-- What is left when the connection that the loop has is taken out.
untracked :
    (s : Server) (address : ℕ) (conns : List Conn)
    → s.stage ≡ tracked address
    → All (IsDone s.stage) conns
    → All (λ (c : Conn). c.is_closed ≡ true) (untrack_conn conns address)
unfolding untrack_conn delete_func
untracked s address [] e h = tt
untracked s address (c ∷ cs) e (inl closed, rest) =
    if_cases (All (λ (c : Conn). c.is_closed ≡ true)) (nat_eq c.address address)
      (λ _. untracked s address cs e rest) (λ _. (closed, untracked s address cs e rest))
untracked s address (c ∷ cs) e (inr mine, rest) =
    if_cases (All (λ (c : Conn). c.is_closed ≡ true)) (nat_eq c.address address)
      (λ _. untracked s address cs e rest)
      (λ k. absurd (other k (tracked-injective (sym e ∙ mine))))

closed-All : (s : AcceptStage) (conns : List Conn) → All (IsDone s) (close_conns conns)
unfolding close_conns
closed-All s [] = tt
closed-All s (c ∷ cs) = (inl refl, closed-All s cs)

Step-IsSwept : {s u : Server} → Step s u → IsSwept s → IsSwept u
unfolding check_conn track_conn untrack_conn
Step-IsSwept (accepts s address e listening is_new) h = record {
  done = λ k.
      All-map (IsDone s.stage) _ s.conns (λ c. settled s.stage _ c (λ i f. cc (e, f))) (h.done k);
  last = h.last;
}
Step-IsSwept (tracks s address e) h = record {
  done = λ k.
      All-append _ s.conns _
        (All-map (IsDone s.stage) _ s.conns (λ c. settled s.stage _ c (λ i f. cc (e, f)))
          (h.done k))
        (inr refl, tt);
  last = h.last;
}
Step-IsSwept (checks s address e) h = record {
  done = λ k. rw (h.last k) (
      All-map (λ (c : Conn). c.is_closed ≡ true) (IsDone accepting) _ (λ c. inl)
        (untracked s address s.conns e (h.done k)));
  last = h.last;
}
Step-IsSwept (stops s e listening) h = record {
  done = λ k.
      All-map (IsDone s.stage) _ s.conns (λ c. settled s.stage _ c (λ i f. cc (e, f))) (h.done k);
  last = h.last;
}
Step-IsSwept (cancels s) h = record { done = h.done; last = λ _. refl }
Step-IsSwept (unlistens s cancelled) h = record { done = h.done; last = h.last }
Step-IsSwept (sweeps s cancelled listening) h = record {
  done = λ _. closed-All s.stage s.conns;
  last = λ _. cancelled;
}
Step-IsSwept (finishes s c tracks_it handled) h = record {
  done = λ k. All-delete_func _ _ s.conns (h.done k);
  last = h.last;
}

Reach-IsSwept : {s u : Server} → IsSwept s → Reach s u → IsSwept u
Reach-IsSwept h here = h
Reach-IsSwept h (next r st) = Step-IsSwept st (Reach-IsSwept h r)

-- In every run of the server, whatever the interleaving of Accept, the goroutine that shuts it down and
-- the handlers: once closeConns has run, every connection that the server tracks is closed, but for
-- one that the loop has just tracked and is about to close; so after the loop has ended all of them are.
pub shutdown-Closes :
    {u : Server} → Reach new_server u → u.swept ≡ true → All (IsDone u.stage) u.conns
shutdown-Closes r k = (Reach-IsSwept (record { done = λ e. cc; last = λ e. cc }) r).done k
