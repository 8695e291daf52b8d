-- ===== src/Service/Server.antt =====
-- service/svc_app.go: `getProcesses`, `spawnProcess` as far as it changes the processes, and a round
-- of `tick`. What the system measures and whether a process starts are arguments; within a round the
-- clock stands still and no process exits by itself.
use pmesh.Base.{
  ℕ, zero, suc, ◌+◌, ◌-◌, ◌^◌, ◌%◌, Bool, true, false, not, ◌&&◌, Option, none, some, List, [], ◌∷◌,
  ◌++◌, ltb, ◌==◌, if◌then◌else◌, length,
}
use pmesh.Base.Int.{ℤ, pos, negsuc, ◌+ℤ◌, ltb_ℤ, leb_ℤ, pos_part, i64}
use pmesh.Service.Process.{Process, terminating, try_terminate}
use pmesh.Service.App.{Floats, AppService}

-- `getProcesses`
unfoldable pub get_processes : List Process → List Process
get_processes [] = []
get_processes (p ∷ ps) = let rest = get_processes ps in if p.dead then rest else p ∷ rest

-- How `spawnProcess(true)` ends: before there is a process, with a healthy one, or with one that is
-- killed because it did not become healthy.
pub data Spawned : Type 0 where
  refused : Spawned
  started : ℕ → Spawned
  unready : ℕ → Spawned

abbrev pub fresh : ℕ → Option Bool → Process
fresh pid upstream = record {
  pid = pid;
  dead = false;
  upstream = upstream;
  terminate_deadline = 0;
  signal_sent = false;
  down_ticks = pos 0;
}

abbrev upstream_of : Bool → Bool → Option Bool
upstream_of balancer healthy = if balancer then some healthy else none

-- `spawnProcess(true)`: what it appends.
unfoldable pub spawn_initial : Bool → Spawned → List Process
spawn_initial balancer refused = []
spawn_initial balancer (started pid) = fresh pid (upstream_of balancer true) ∷ []
spawn_initial balancer (unready pid) =
    record (fresh pid (upstream_of balancer false)) { dead = true } ∷ []

-- `spawnProcess(false)`: what it appends; no process is its error.
unfoldable pub spawn_more : Bool → Option ℕ → List Process
spawn_more balancer none = []
spawn_more balancer (some pid) = fresh pid (upstream_of balancer false) ∷ []

-- What a round meets. `memory`, `recent` and `usage` are by process: the resident memory, whether
-- `CreateTime` lies within `AutoScaleDefer`, and the use of the processor. `more` numbers the calls
-- of `spawnProcess(false)`.
pub record Readings {ℓ} (F : Type ℓ) : Type ℓ where
  pub now : ℕ
  pub balancer : Bool
  pub memory : ℕ → ℕ
  pub recent : ℕ → Bool
  pub usage : ℕ → F
  pub initial : Spawned
  pub more : ℕ → Option ℕ

-- The variable `run.processes`, and `upTicks` of the loop.
pub record AppServer : Type 0 where
  pub processes : List Process
  pub up_ticks : ℤ

pub record Tally : Type 0 where
  pub up : ℕ
  pub down : ℕ
  pub neutral : ℕ

abbrev bits32 : ℤ → ℕ
bits32 (pos a) = a % 2 ^ 32
bits32 (negsuc a) = 2 ^ 32 - 1 - a % 2 ^ 32

-- The int32 with the lowest bits of an integer.
abbrev pub i32 : ℤ → ℤ
i32 a = if ltb (bits32 a) (2 ^ 31) then pos (bits32 a) else negsuc (2 ^ 32 - bits32 a - 1)

abbrev pub no_tally : Tally
no_tally = record { up = 0; down = 0; neutral = 0 }

abbrev pub total : Tally → ℕ
total t = t.up + t.down + t.neutral

-- `lo.Find` of a process that is not terminating
unfoldable pub any_running : List Process → Bool
unfolding terminating
any_running [] = false
any_running (p ∷ ps) = if terminating p then any_running ps else true

module _ {ℓ} {F : Type ℓ} (fl : Floats F) (app : AppService F) (r : Readings F) where
  -- `tryTerminate(context.Background())`
  abbrev pub stop_process : Process → Process
  stop_process p = (try_terminate (pos_part app.stop_timeout) r.now none p).0

  abbrev memory_of : Process → ℕ
  memory_of p = if p.dead then 0 else r.memory p.pid

  -- The round's loop over memory.
  unfoldable pub stop_large : List Process → List Process
  unfolding terminating
  stop_large [] = []
  stop_large (p ∷ ps) =
      (if not (terminating p) && ltb_ℤ app.max_memory (pos (memory_of p))
        then stop_process p
        else p)
      ∷ stop_large ps

  unfoldable pub check_memory : List Process → List Process
  check_memory ps = if ltb_ℤ (pos 0) app.max_memory then stop_large ps else ps

  -- The loop that matches the minimum: how many processes are missing, the number of the next call
  -- of `spawnProcess`. It returns what the calls append, the number of calls, and whether
  -- `SlowStart` ends the round.
  unfoldable pub refill : ℕ → ℕ → List Process × ℕ × Bool
  refill zero i = ([], i, false)
  refill (suc missing) i =
      let rest = refill missing (suc i) in
      elim (r.more i) [
        | none ↦ ([], suc i, false)
        | some pid ↦
            if app.slow_start
            then (spawn_more r.balancer (some pid), suc i, true)
            else (spawn_more r.balancer (some pid) ++ rest.0, rest.1, rest.2)
      ]

  abbrev cpu_usage : Process → F
  cpu_usage p = if p.dead then fl.zero_ else r.usage p.pid

  -- The body of the loop over the usage: the process with its ticks, and the tally.
  unfoldable pub measure : Process → Tally → Process × Tally
  unfolding terminating
  measure p t =
      if terminating p
      then (p, t)
      else if r.recent p.pid
      then (p, record t { neutral = suc t.neutral })
      else if fl.lt app.upscale_percent (cpu_usage p)
      then (record p { down_ticks = pos 0 }, record t { up = suc t.up })
      else if fl.lt (cpu_usage p) app.downscale_percent && fl.le fl.zero_ app.downscale_percent
      then (record p { down_ticks = i32 (p.down_ticks +ℤ pos 1) }, record t { down = suc t.down })
      else (record p { down_ticks = pos 0 }, record t { neutral = suc t.neutral })

  unfoldable pub measure_all : List Process → Tally → List Process × Tally
  measure_all [] t = ([], t)
  measure_all (p ∷ ps) t =
      let first = measure p t in let rest = measure_all ps first.1 in (first.0 ∷ rest.0, rest.1)

  -- The loop that terminates one process.
  unfoldable pub stop_idle : List Process → List Process
  unfolding terminating
  stop_idle [] = []
  stop_idle (p ∷ ps) =
      let rest = stop_idle ps in
      if terminating p
      then p ∷ rest
      else if leb_ℤ (i32 app.auto_scale_streak) p.down_ticks
      then stop_process p ∷ ps
      else p ∷ rest

  -- The part of a round that scales: the list of the round, the processes it has appended and the
  -- number of the next call of `spawnProcess`.
  unfoldable pub auto_scale : List Process → List Process → ℕ → ℤ → AppServer
  auto_scale ps appended i up_ticks =
      let m = measure_all ps no_tally in
      let t = m.1 in
      let ticks = if t.down == 0 && ltb t.neutral t.up then i64 (up_ticks +ℤ pos 1) else pos 0 in
      if leb_ℤ app.auto_scale_streak ticks && ltb (total t) app.cluster_n
      then record {
        processes = m.0 ++ appended ++ spawn_more r.balancer (r.more i);
        up_ticks = ticks;
      }
      else if ltb app.cluster_min (total t) && ltb t.neutral t.down && t.up == 0
      then record { processes = stop_idle m.0 ++ appended; up_ticks = ticks }
      else record { processes = m.0 ++ appended; up_ticks = ticks }

  abbrev pub supply : List Process → List Process × ℕ × Bool → ℤ → AppServer
  supply ps (appended, i, true) up_ticks = record {
    processes = ps ++ appended;
    up_ticks = up_ticks;
  }
  supply ps (appended, i, false) up_ticks =
      if app.auto_scale
      then auto_scale ps appended i up_ticks
      else record { processes = ps ++ appended; up_ticks = up_ticks }

  -- The round where no process is running.
  abbrev pub revive : List Process → ℤ → AppServer
  revive [] up_ticks = record {
    processes = spawn_initial r.balancer r.initial;
    up_ticks = up_ticks;
  }
  revive (p ∷ ps) up_ticks = record { processes = p ∷ ps; up_ticks = up_ticks }

  -- One round of the loop of `tick`.
  unfoldable pub tick : AppServer → AppServer
  tick s =
      let list = get_processes s.processes in
      if any_running list
      then supply (check_memory list) (refill (app.cluster_min - length list) 0) s.up_ticks
      else revive list s.up_ticks
