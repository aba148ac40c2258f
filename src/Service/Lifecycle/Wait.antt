-- ===== src/Service/Lifecycle/Wait.antt =====
-- `_wait_vector_updates_done` of service/lifecycle.py, over what its polls see.
use cache_seek.Prelude.{
  ℕ, ◌+◌, ◌*◌, ◌≤◌, ◌<◌, ◌≡◌, ◌≢◌, refl, ◌⊎◌, Bool, true, false, ◌&&◌, Option, none, some, List, [],
  ◌∷◌, length, leb, ltb, arith, if◌then◌else◌,
}

-- What a round of the loop sees: whether the event is set, and the time since the start.
pub record Poll : Type 0 where
  pub idle : Bool
  pub elapsed : ℕ

pub data Wait : Type 0 where
  settled timed_out : Wait

-- `none`: the loop still runs after these rounds. (The warning at `warn_s` is only logged.)
unfoldable pub wait_loop : ℕ → List Poll → Option Wait
wait_loop timeout [] = none
wait_loop timeout (p ∷ ps) =
    let rest = wait_loop timeout ps in
    if p.idle
    then some settled
    else if ltb 0 timeout && leb timeout p.elapsed
    then some timed_out
    else rest

-- Each round comes at least `poll` after the one before it.
abbrev pub Paced : ℕ → ℕ → List Poll → Type 0
Paced poll t [] = Unit
Paced poll t (p ∷ ps) = (t ≤ p.elapsed) × Paced poll (t + poll) ps

wait_loop-from :
    (timeout poll t : ℕ) (p : Poll) (ps : List Poll)
    → 0 < timeout
    → Paced poll t (p ∷ ps)
    → timeout ≤ t + length ps * poll
    → wait_loop timeout (p ∷ ps) ≢ none
unfolding wait_loop
wait_loop-from timeout poll t p [] pos paced long = ground arith
wait_loop-from timeout poll t p (q ∷ qs) pos paced long =
    ground (arith, wait_loop-from timeout poll (t + poll) q qs pos paced.1)

-- A poll that saw the event set, in the list.
abbrev pub SawIdle : List Poll → Type 0
SawIdle [] = ⊥
SawIdle (p ∷ ps) = (p.idle ≡ true) ⊎ SawIdle ps

abbrev pub SawTimeout : ℕ → List Poll → Type 0
SawTimeout timeout [] = ⊥
SawTimeout timeout (p ∷ ps) =
    ((0 < timeout) × (timeout ≤ p.elapsed) × (p.idle ≡ false)) ⊎ SawTimeout timeout ps

-- The wait ends as settled only when a round saw the event set, and as timed out only when
-- the timeout is positive and a round came that late with the event still clear.
wait_loop_lem :
    (timeout : ℕ) (ps : List Poll)
    → (wait_loop timeout ps ≡ some settled → SawIdle ps)
      × (wait_loop timeout ps ≡ some timed_out → SawTimeout timeout ps)
unfolding wait_loop
wait_loop_lem timeout [] = (λ h. ground arith, λ h. ground arith)
wait_loop_lem timeout (p ∷ ps) =
    let (s, t) = wait_loop_lem timeout ps in (ground (arith, s), ground (arith, t))

-- How the wait ended, with the round that ended it.
abbrev pub Ended : ℕ → List Poll → Option Wait → Type 0
Ended timeout ps none = ⊥
Ended timeout ps (some settled) = SawIdle ps
Ended timeout ps (some timed_out) = SawTimeout timeout ps

-- With a positive timeout, after rounds that come at least `poll` apart and together span the
-- timeout, the loop has returned: as settled, and a round saw the event set, or as timed out, and a
-- round came as late as the timeout with the event still clear.
pub wait_loop-Ended :
    (timeout poll : ℕ) (p : Poll) (ps : List Poll)
    → 0 < timeout
    → Paced poll 0 (p ∷ ps)
    → timeout ≤ length ps * poll
    → Ended timeout (p ∷ ps) (wait_loop timeout (p ∷ ps))
wait_loop-Ended timeout poll p ps pos paced long =
    ended (wait_loop timeout (p ∷ ps)) refl
      (wait_loop-from timeout poll 0 p ps pos paced (omega arith))
  where
    ended :
        (o : Option Wait)
        → wait_loop timeout (p ∷ ps) ≡ o
        → wait_loop timeout (p ∷ ps) ≢ none
        → Ended timeout (p ∷ ps) o
    ended none e ne = absurd (ne e)
    ended (some settled) e ne = (wait_loop_lem timeout (p ∷ ps)).0 e
    ended (some timed_out) e ne = (wait_loop_lem timeout (p ∷ ps)).1 e
