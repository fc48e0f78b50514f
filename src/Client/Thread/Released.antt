-- ===== src/Client/Thread/Released.antt =====
-- src/client/client_deamon.c: theorems on `client_deamon_create`.
use simple_mqtt.Base.{
  ℕ, ◌+◌, ◌≡◌, ◌≢◌, refl, ap, sym, arith, Bool, true, false, not, ◌&&◌, ◌⊎◌, Option, none, some,
  List, [], ◌∷◌, ◌++◌, reverse, append_assoc, append-nil, if◌then◌else◌, ok, err, fault, stuck,
  ◌>>=◌, inl, inr,
}
use simple_mqtt.Client.Thread.{
  Join, joined, undefined, waits, behind_join, Host, Trace, open_fd, close_fd, init_global_timer,
  Created, start_thread, with_epoll, with_timer, client_deamon_create,
}

-- What one trace has more than another: descriptors that have been opened and, in reverse order, closed,
-- `n` contexts allocated and freed, and threads started just if the code is MQTT_SUCCESS.
pub record Tidy (before after : Trace) (ret : Option ℕ) : Type 0 where
  pub fds : List ℕ
  pub contexts : ℕ
  pub opens : after.opened ≡ before.opened ++ fds
  pub closes : after.closed ≡ before.closed ++ reverse fds
  pub allocates : after.allocated ≡ before.allocated + contexts
  pub frees : after.freed ≡ before.freed + contexts
  pub starts :
      ((ret ≡ some 0) × (after.started ≡ before.started + 1))
      ⊎ ((ret ≢ some 0) × (after.started ≡ before.started))

-- What holds behind a call, which does not return just where pthread_join(3) does not.
abbrev After : Join → (Trace → Option ℕ → Type 0) → Created → Type 0
After join P (ok (trace, ret)) = P trace ret
After join P (err code) = ⊥
After join P fault = join ≡ undefined
After join P stuck = join ≡ waits

-- The part of it without the context.
record Closed (before after : Trace) (ret : Option ℕ) : Type 0 where
  fds : List ℕ
  opens : after.opened ≡ before.opened ++ fds
  closes : after.closed ≡ before.closed ++ reverse fds
  allocates : after.allocated ≡ before.allocated
  frees : after.freed ≡ before.freed
  starts :
      ((ret ≡ some 0) × (after.started ≡ before.started + 1))
      ⊎ ((ret ≢ some 0) × (after.started ≡ before.started))

-- What stands at the label `close2`, with both descriptors open.
with_both :
    (added : Bool) (join : Join) (timer_fd epoll_fd : ℕ) (trace : Trace)
    → let opened = open_fd epoll_fd (open_fd timer_fd trace) in
      let called : Created =
        if added
        then behind_join join (record opened { started = trace.started + 1 }, some 0)
        else ok (opened, none) in
      After join
        (Closed trace)
        (called >>= λ result. ok (close_fd timer_fd (close_fd epoll_fd result.0), result.1))
with_both false join timer_fd epoll_fd trace = record {
  fds = timer_fd ∷ epoll_fd ∷ [];
  opens = append_assoc trace.opened (timer_fd ∷ []) (epoll_fd ∷ []);
  closes = append_assoc trace.closed (epoll_fd ∷ []) (timer_fd ∷ []);
  allocates = refl;
  frees = refl;
  starts = inr ((λ e. cc), refl);
}
with_both true (joined code) timer_fd epoll_fd trace = record {
  fds = timer_fd ∷ epoll_fd ∷ [];
  opens = append_assoc trace.opened (timer_fd ∷ []) (epoll_fd ∷ []);
  closes = append_assoc trace.closed (epoll_fd ∷ []) (timer_fd ∷ []);
  allocates = refl;
  frees = refl;
  starts = inl (refl, refl);
}
with_both true undefined timer_fd epoll_fd trace = refl
with_both true waits timer_fd epoll_fd trace = refl

with_epoll-Closed :
    (host : Host) (epoll : Option ℕ) (timer_fd : ℕ) (trace : Trace)
    → After (host.join 0) (Closed trace) (with_epoll host epoll timer_fd (open_fd timer_fd trace))
unfolding with_epoll start_thread
with_epoll-Closed host none timer_fd trace = record {
  fds = timer_fd ∷ [];
  opens = refl;
  closes = refl;
  allocates = refl;
  frees = refl;
  starts = inr ((λ e. cc), refl);
}
with_epoll-Closed host (some epoll_fd) timer_fd trace =
    with_both (host.socket_added && host.timer_added && host.thread_created) (host.join 0) timer_fd
      epoll_fd trace

with_timer-Closed :
    (host : Host) (timer : Option ℕ) (timer_set : Bool) (trace : Trace)
    → After (host.join 0) (Closed trace) (with_timer host (init_global_timer timer timer_set trace))
unfolding with_timer init_global_timer
with_timer-Closed host none timer_set trace = record {
  fds = [];
  opens = sym (append-nil trace.opened);
  closes = sym (append-nil trace.closed);
  allocates = refl;
  frees = refl;
  starts = inr ((λ e. cc), refl);
}
with_timer-Closed host (some fd) true trace = with_epoll-Closed host host.epoll fd trace
with_timer-Closed host (some fd) false trace = record {
  fds = fd ∷ [];
  opens = refl;
  closes = refl;
  allocates = refl;
  frees = refl;
  starts = inr ((λ e. cc), refl);
}

-- The context, around that.
free-Tidy :
    (join : Join) (trace : Trace) (called : Created)
    → After join (Closed (record trace { allocated = trace.allocated + 1 })) called
    → After join
        (Tidy trace)
        (called >>= λ result. ok (record result.0 { freed = result.0.freed + 1 }, result.1))
free-Tidy join trace (ok (after, ret)) h = record {
  fds = h.fds;
  contexts = 1;
  opens = h.opens;
  closes = h.closes;
  allocates = h.allocates;
  frees = ap (λ n. n + 1) h.frees;
  starts = h.starts;
}
free-Tidy join trace (err code) h = h
free-Tidy join trace fault h = h
free-Tidy join trace stuck h = h

refused : (trace : Trace) (code : ℕ) → code ≢ 0 → Tidy trace trace (some code)
refused trace code ne = record {
  fds = [];
  contexts = 0;
  opens = sym (append-nil trace.opened);
  closes = sym (append-nil trace.closed);
  allocates = omega arith;
  frees = omega arith;
  starts = inr ((λ e. ne cc), refl);
}

granted-Tidy :
    (host : Host) (ph_ok ctx_granted : Bool) (trace : Trace)
    → After (host.join 0) (Tidy trace) (
        if not ph_ok
        then ok (trace, some 2)
        else if not ctx_granted
        then ok (trace, some 3)
        else (do
          result ← with_timer host (
              init_global_timer host.timer host.timer_set
                (record trace { allocated = trace.allocated + 1 }))
          ok (record result.0 { freed = result.0.freed + 1 }, result.1)))
granted-Tidy host false ctx_granted trace = refused trace 2 (omega arith)
granted-Tidy host true false trace = refused trace 3 (omega arith)
granted-Tidy host true true trace = free-Tidy (host.join 0) trace _ (
    with_timer-Closed host host.timer host.timer_set
      (record trace { allocated = trace.allocated + 1 }))

-- A call in terms of that.
abbrev pub Ends : Join → (Trace → Option ℕ → Type 0) → Created → Type 0
Ends join P called =
    ((trace : Trace) × (ret : Option ℕ) × (called ≡ ok (trace, ret)) × P trace ret)
    ⊎ (((join ≡ undefined) × (called ≡ fault)) ⊎ ((join ≡ waits) × (called ≡ stuck)))

After-Ends :
    (join : Join) (P : Trace → Option ℕ → Type 0) (called : Created)
    → After join P called
    → Ends join P called
After-Ends join P (ok (trace, ret)) h = inl (trace, ret, refl, h)
After-Ends join P (err code) h = absurd h
After-Ends join P fault h = inr (inl (h, refl))
After-Ends join P stuck h = inr (inr (h, refl))

-- For whatever the system calls return, the code of pthread_join(3) included, `client_deamon_create` returns,
-- unless it comes to a call of pthread_join(3) that is undefined behaviour or waits for ever. Where it returns,
-- it has closed the descriptors that it has opened, in reverse order, and freed its context. So it has where it
-- returns MQTT_SUCCESS, which is just when it has started the thread that uses them.
pub client_deamon_create-Tidy :
    (host : Host) (ph_ok : Bool) (trace : Trace)
    → Ends (host.join 0) (Tidy trace) (client_deamon_create host ph_ok trace)
unfolding client_deamon_create
client_deamon_create-Tidy host ph_ok trace =
    After-Ends (host.join 0) (Tidy trace) _ (granted-Tidy host ph_ok host.ctx_granted trace)
