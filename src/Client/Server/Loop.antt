-- ===== src/Client/Server/Loop.antt =====
-- Server::run and Server::stop of src/client/server.cpp: the flag `running_`, which `stop` clears from
-- another thread. A turn of the loop is a function; `stops n` tells whether `stop` is called during
-- turn `n`, between two tests of the flag.
mod Tests
use modbus_pp.Common.{
  ℕ, zero, suc, ◌+◌, ◌<◌, ◌≡◌, refl, Bool, true, false, Option, none, some, arith, if◌then◌else◌,
}

pub record Running (T : Type 0) : Type 0 where
  pub running : Bool
  pub state : T

module _ {T : Type 0} where
  pub stop : Running T → Running T
  stop r = record r { running = false }

  abbrev pub stop_if : Bool → Running T → Running T
  stop_if true r = stop r
  stop_if false r = r

  -- `none` is a loop that has not ended after so many tests of the flag.
  pub run_loop : (T → T) → (ℕ → Bool) → ℕ → ℕ → Running T → Option (Running T)
  run_loop turn stops zero n r = none
  run_loop turn stops (suc tests) n r =
      let rest =
        run_loop turn stops tests (suc n) (stop_if (stops n) (record r { state = turn r.state })) in
      if r.running then rest else some r

  pub run : (T → T) → (ℕ → Bool) → ℕ → Running T → Option (Running T)
  run turn stops tests r = run_loop turn stops tests 0 (record r { running = true })

  -- The state after so many turns.
  pub turns : (T → T) → ℕ → T → T
  turns turn zero t = t
  turns turn (suc n) t = turns turn n (turn t)

  run_loop-stop :
      (turn : T → T) (stops : ℕ → Bool) (left n : ℕ) (t : T)
      → ((i : ℕ) → i < left → stops (n + i) ≡ false)
      → stops (n + left) ≡ true
      → run_loop turn stops (suc (suc left)) n (record { running = true; state = t })
        ≡ some (record { running = false; state = turns turn (suc left) t })
  unfolding run_loop stop turns
  run_loop-stop turn stops zero n t before last =
      let here : n + 0 ≡ n = omega arith in let now = rw here at last in rw now refl
  run_loop-stop turn stops (suc left) n t before last =
      let here : n + 0 ≡ n = omega arith in
      let now = rw here at (before 0 (omega arith)) in
      let next : n + suc left ≡ suc n + left = omega arith in
      rw now (
        run_loop-stop turn stops left (suc n) (turn t)
          (λ i h.
            let shift : n + suc i ≡ suc n + i = omega arith in
            rw shift at (before (suc i) (omega arith)))
          (rw next at last))

  -- `run` makes turn after turn and ends with the turn during which `stop` is called for the first
  -- time, as many tests of the flag as there are turns and one more being enough. What the flag was
  -- before does not count: a `stop` that comes before `run` is lost, and the loop goes on.
  pub run-stop :
      (turn : T → T) (stops : ℕ → Bool) (left : ℕ) (r : Running T)
      → ((i : ℕ) → i < left → stops i ≡ false)
      → stops left ≡ true
      → run turn stops (suc (suc left)) r
        ≡ some (record { running = false; state = turns turn (suc left) r.state })
  unfolding run
  run-stop turn stops left r before last =
      let here : left ≡ 0 + left = omega arith in
      run_loop-stop turn stops left 0 r.state
        (λ i h. let same : i ≡ 0 + i = omega arith in rw same at (before i h)) (rw here at last)
