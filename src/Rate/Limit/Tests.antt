-- ===== src/Rate/Limit/Tests.antt =====
-- Runs of the limiter of rate/limit.go.
use pmesh.Base.{refl, true, false, none, arith}
use pmesh.Base.Int.{pos, negsuc}
use pmesh.Rate.Window.{
  pack, to_subticks, tick_of, inc, propose, carry, current, other, read, inc_sliding,
}
use pmesh.Rate.Limit.{Options, LimitCounter, RateError, Env, zero_rate, subticks, probe, granted}
use pmesh.Rate.Limit.Clients.{System, here, next, IsBounded, answer, Reach-IsBounded}

-- Ten requests a second, a burst of five, and a block of a minute.
abbrev limit : Options
limit = record {
  id = "api";
  rate = record { count = 10; period = pos 1_000_000_000 };
  burst = pos 5;
  block_after = zero_rate;
  block_for = pos 60_000_000_000;
  advise_client = true;
}

abbrev idle : LimitCounter
idle = record { sliding = record { even = 0; odd = 0 }; queue = 0; block_window = 0 }

abbrev negative : Options
negative = record limit { burst = negsuc 0 }

abbrev advice : RateError
advice = record {
  block_until = pos 60_000_000_000;
  retry_after = pos 100_000_000;
  no_header = false;
}

abbrev meets : Env
meets = record { now = 0; left = none; woken = none }

abbrev counted : LimitCounter
counted = record idle { sliding = record { even = pack 1 0; odd = 0 } }

abbrev start : System
start = record { counter = idle; arriving = 0; holding = 0; sleeping = 0 }

abbrev served : System
served = record start { counter = counted }

Reach-IsBounded_example : IsBounded limit served
unfolding probe subticks to_subticks tick_of carry current other read inc_sliding inc propose pack
Reach-IsBounded_example =
    Reach-IsBounded {l = limit} {s = start} {t = served} refl refl refl
      (next here (answer {p = granted} {c = counted} 0 refl (λ e. ground arith)))
