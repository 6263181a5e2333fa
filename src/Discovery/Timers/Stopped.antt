-- ===== src/Discovery/Timers/Stopped.antt =====
-- discovery-service.ts: what `stop` leaves of the timers.
use dchat_desktop.Common.{
  ℕ, suc, ◌≤◌, Bool, true, false, ◌||◌, Option, none, some, List, [], ◌∷◌, ◌≡◌, refl, All, select,
  nat_eq, arith, sym, subst, zero, length, ◌⊎◌, inl, inr,
}
use dchat_desktop.Discovery.Timers.{
  Timers, no_timers, start_network_tasks, start_timers, start_each, on_status_connected, clear,
  initial_fires, stop_timers, TimerEvent, connects, fires, stops, step, run_timers,
}

abbrev holds : Option ℕ → ℕ → Bool
holds none i = false
holds (some j) i = nat_eq i j

clear-All :
    (o : Option ℕ) (p : ℕ → Bool) (is : List ℕ)
    → All (λ i. (holds o i || p i) ≡ true) is
    → All (λ i. p i ≡ true) (clear o is)
unfolding clear select
clear-All none p is h = h
clear-All (some j) p [] h = tt
clear-All (some j) p (i ∷ is) h = ground (arith, h.0, clear-All (some j) p is h.1)

clear-empty : (o : Option ℕ) → clear o [] ≡ []
unfolding clear select
clear-empty none = refl
clear-empty (some i) = refl

clear-kept :
    (o : Option ℕ) (p : ℕ → Bool) (is : List ℕ)
    → All (λ i. p i ≡ true) is
    → All (λ i. p i ≡ true) (clear o is)
unfolding clear select
clear-kept none p is h = h
clear-kept (some j) p [] h = tt
clear-kept (some j) p (i ∷ is) h = ground (arith, h.0, clear-kept (some j) p is h.1)

none_left : (is : List ℕ) → All (λ i. false ≡ true) is → is ≡ []
none_left [] h = refl
none_left (i ∷ is) h = ground (arith, h.0)

abbrev is_held : Timers → ℕ → Bool
is_held t i =
    holds t.broadcast_timer i
    || (holds t.verify_timer i || (holds t.cleanup_timer i || (holds t.initial_timer i || false)))

-- Every timer that may fire has its handle in a field; and while a listener waits, nothing is armed.
record IsTracked (t : Timers) : Type 0 where
  at_most_one : t.listeners ≤ 1
  held : All (λ i. is_held t i ≡ true) t.armed
  idle : 1 ≤ t.listeners → t.armed ≡ []

stop_timers-silent : (t : Timers) → IsTracked t → (stop_timers t).armed ≡ []
unfolding stop_timers
stop_timers-silent t v = none_left _ (
    clear-All t.initial_timer _ _ (
      clear-All t.cleanup_timer _ _
        (clear-All t.verify_timer _ _ (clear-All t.broadcast_timer _ _ v.held))))

stop_timers-IsTracked : (t : Timers) → IsTracked t → IsTracked (stop_timers t)
unfolding stop_timers
stop_timers-IsTracked t v =
    let e = stop_timers-silent t v in
    record { at_most_one = v.at_most_one; held = subst (All _) (sym e) tt; idle = λ h. e }

initial_fires-IsTracked : (t : Timers) → IsTracked t → IsTracked (initial_fires t)
unfolding initial_fires clear
initial_fires-IsTracked t v = record {
  at_most_one = v.at_most_one;
  held = clear-kept t.initial_timer (is_held t) t.armed v.held;
  idle = λ h. rw (v.idle h) (clear-empty t.initial_timer);
}

start_network_tasks-IsTracked :
    (t : Timers) → t.listeners ≡ 0 → t.armed ≡ [] → IsTracked (start_network_tasks t)
unfolding start_network_tasks
start_network_tasks-IsTracked t h e = record {
  at_most_one = ground (arith, h);
  held = (ground arith, (ground arith, (ground arith, (ground arith, subst (All _) (sym e) tt))));
  idle = λ le. ground (arith, h, le);
}

start_each-IsTracked :
    (n : ℕ) (t : Timers)
    → n ≤ 1
    → t.listeners ≡ 0
    → (1 ≤ n → t.armed ≡ [])
    → All (λ i. is_held t i ≡ true) t.armed
    → IsTracked (start_each n t)
unfolding start_each
start_each-IsTracked zero t le h e held = record {
  at_most_one = ground (arith, h);
  held = held;
  idle = λ one. ground (arith, h, one);
}
start_each-IsTracked (suc zero) t le h e held = start_network_tasks-IsTracked t h (e (ground arith))
start_each-IsTracked (suc (suc n)) t le h e held = ground (arith, le)

step-IsTracked : (e : TimerEvent) (t : Timers) → IsTracked t → IsTracked (step e t)
unfolding step on_status_connected
step-IsTracked connects t v =
    start_each-IsTracked t.listeners (record t { listeners = 0 }) v.at_most_one refl v.idle v.held
step-IsTracked fires t v = initial_fires-IsTracked t v
step-IsTracked stops t v = stop_timers-IsTracked t v

run_timers-IsTracked :
    (es : List TimerEvent) (t : Timers) → IsTracked t → IsTracked (run_timers es t)
unfolding run_timers
run_timers-IsTracked [] t v = v
run_timers-IsTracked (e ∷ es) t v = run_timers-IsTracked es (step e t) (step-IsTracked e t v)

start_timers-IsTracked :
    (is_connected : Bool) (n : ℕ) → IsTracked (start_timers is_connected (no_timers n))
unfolding start_timers
start_timers-IsTracked true n = start_network_tasks-IsTracked (no_timers n) refl refl
start_timers-IsTracked false n = record { at_most_one = ground arith; held = tt; idle = λ h. refl }

-- Nothing is armed, and nobody waits for the connection.
record IsOff (t : Timers) : Type 0 where
  nobody : t.listeners ≡ 0
  nothing : t.armed ≡ []

step-IsOff : (e : TimerEvent) (t : Timers) → IsOff t → IsOff (step e t)
unfolding step on_status_connected initial_fires start_each stop_timers
step-IsOff connects t v =
    subst (λ n. IsOff (start_each n (record t { listeners = 0 }))) (sym v.nobody)
      (record { nobody = refl; nothing = v.nothing })
step-IsOff fires t v = record {
  nobody = v.nobody;
  nothing = rw v.nothing (clear-empty t.initial_timer);
}
step-IsOff stops t v = record {
  nobody = v.nobody;
  nothing = stop_timers-silent t (record {
    at_most_one = ground (arith, v.nobody);
    held = subst (All _) (sym v.nothing) tt;
    idle = λ h. v.nothing;
  });
}

run_timers-IsOff : (es : List TimerEvent) (t : Timers) → IsOff t → IsOff (run_timers es t)
unfolding run_timers
run_timers-IsOff [] t v = v
run_timers-IsOff (e ∷ es) t v = run_timers-IsOff es (step e t) (step-IsOff e t v)

step-arms : (t : Timers) → t.armed ≡ [] → t.listeners ≡ 1 → length (step connects t).armed ≡ 4
unfolding step on_status_connected start_each start_network_tasks
step-arms t e h = rw (h, e) refl

at_most_one-cases : (n : ℕ) → n ≤ 1 → (n ≡ 0) ⊎ (n ≡ 1)
at_most_one-cases zero h = inl refl
at_most_one-cases (suc zero) h = inr refl
at_most_one-cases (suc (suc n)) h = ground (arith, h)

-- The service is started once; whatever happens then, a stop leaves no timer armed. Either no listener
-- waits for the connection any more, and nothing is armed whatever comes after the stop; or the stop
-- has left the listener, and the connection arms the four timers of the stopped service.
pub stop_timers-silences :
    (is_connected : Bool) (n : ℕ) (before after : List TimerEvent)
    → let t = stop_timers (run_timers before (start_timers is_connected (no_timers n))) in
      (t.armed ≡ [])
      × (((t.listeners ≡ 0) × ((run_timers after t).armed ≡ []))
          ⊎ ((t.listeners ≡ 1) × (length (step connects t).armed ≡ 4)))
stop_timers-silences is_connected n before after =
    let v = run_timers-IsTracked before _ (start_timers-IsTracked is_connected n) in
    let t = stop_timers (run_timers before (start_timers is_connected (no_timers n))) in
    let e : t.armed ≡ [] = stop_timers-silent _ v in
    (
      e,
      elim (at_most_one-cases t.listeners (stop_timers-IsTracked _ v).at_most_one) [
        | inl h ↦ inl (h, (run_timers-IsOff after t (record { nobody = h; nothing = e })).nothing)
        | inr h ↦ inr (h, step-arms t e h)
      ],
    )
