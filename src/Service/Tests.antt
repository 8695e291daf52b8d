-- ===== src/Service/Tests.antt =====
-- A web app of service/svc_app.go with two to three processes, and the ends of one of them.
use pmesh.Base.{
  ◌&&◌, ℕ, ◌+◌, ◌≤◌, ◌≡◌, refl, Bool, true, false, none, some, suc, Option, List, [], ◌∷◌, ◌++◌,
  arith, length,
}
use pmesh.Base.Int.{ℤ, pos, ltb_ℤ, leb_ℤ, i64, ◌+ℤ◌}
use pmesh.Base.Text.{codes, Text}
use pmesh.Service.Process.{terminating, terminate}
use pmesh.Service.Deadline.{meets_end, terminate_ends}
use pmesh.Service.App.{Floats, AppService, AppOptions}
use pmesh.Service.Server.{
  AppServer, Readings, started, get_processes, any_running, tick, fresh, check_memory, refill,
  spawn_more, measure, measure_all, auto_scale,
}
use pmesh.Service.Scaling.{active, tick_lower}

-- Percentages stand for the numbers.
abbrev percents : Floats ℤ
percents = record {
  lt = ltb_ℤ;
  le = leb_ℤ;
  eq = λ a b. leb_ℤ a b && leb_ℤ b a;
  zero_ = pos 0;
  upscale_default = pos 80;
  downscale_default = pos 2;
}

abbrev web : AppService ℤ
web = record {
  name = codes "web";
  service_root = codes "/srv";
  root = [];
  log_file = [];
  env_host = [];
  env_port = [];
  env_listen = [];
  cluster = codes "75%";
  cluster_min_text = codes "2";
  checks = [];
  background = false;
  ready_timeout = pos 0;
  stop_timeout = pos 5_000_000_000;
  slow_start = false;
  max_memory = pos 0;
  auto_scale = true;
  auto_scale_streak = pos 1;
  auto_scale_defer = pos 0;
  upscale_percent = pos 80;
  downscale_percent = pos 2;
  cluster_n = 3;
  cluster_min = 2;
}

abbrev web_options : AppOptions
web_options = record { name = codes "web"; service_root = codes "/srv" }

abbrev join : Text → Text → Text
join a b = a ++ codes "/" ++ b

abbrev prepared : AppService ℤ
prepared = record web {
  root = codes "/srv/web";
  log_file = codes "web.log";
  env_host = codes "HOST";
  env_port = codes "PORT";
  env_listen = codes "LISTEN";
  checks = codes "tcp" ∷ [];
  ready_timeout = pos 30_000_000_000;
  auto_scale_defer = pos 30_000_000_000;
}

-- The third process is gone, the other two are busy.
abbrev busy : Readings ℤ
busy = record {
  now = 5_000_000_000_000;
  balancer = true;
  memory = λ pid. 1;
  recent = λ pid. false;
  usage = λ pid. pos 95;
  initial = started 10;
  more = λ i. some (20 + i);
}

abbrev two_left : AppServer
two_left = record {
  processes =
      fresh 1 (some true) ∷ record (fresh 2 (some true)) { dead = true } ∷ fresh 3 none ∷ [];
  up_ticks = pos 0;
}

tick_lower_example :
    (active (get_processes two_left.processes)
      ≤ suc (active (tick percents web busy two_left).processes))
    × (2 ≤ active (get_processes two_left.processes)
        → 2 ≤ active (tick percents web busy two_left).processes)
tick_lower_example = tick_lower percents web busy two_left (omega arith)

abbrev alone : AppServer
alone = record { processes = fresh 1 (some true) ∷ []; up_ticks = pos 0 }

-- With a minimum of three, which is also the maximum, a busy round restores the minimum and scales up
-- as well: there are four processes.
abbrev full : AppService ℤ
full = record web { cluster_min = 3 }

tick_overshoots : length (tick percents full busy two_left).processes ≡ 4
unfolding tick get_processes any_running terminating check_memory refill spawn_more measure
    measure_all auto_scale ◌+ℤ◌ i64
tick_overshoots = refl

-- A process that never reacts: the clock passes the timeout of five seconds in the third round.
abbrev rounds : List (ℕ × Bool)
rounds = (1_000_500_000_000, false) ∷ (1_001_000_000_000, false) ∷ (1_006_000_000_000, false) ∷ []

terminate_ends_example :
    ((terminate 5_000_000_000 1_000_000_000_000 none rounds (fresh 1 (some true))).1 ≡ true)
    × ((terminate 5_000_000_000 1_000_000_000_000 none rounds (fresh 1 (some true))).0.dead ≡ true)
unfolding meets_end
terminate_ends_example =
    terminate_ends 5_000_000_000 1_000_000_000_000 none rounds (fresh 1 (some true)) (omega arith)
      (λ h. omega arith) refl

abbrev rounds_of_calls : List (ℕ × Option ℕ)
rounds_of_calls = (1_000_500_000_000, none) ∷ (1_001_000_000_000, some 1_002_000_000_000) ∷ []
