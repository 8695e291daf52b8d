-- ===== src/Ids/Tests.antt =====
-- Identifiers of snowflake/id.go and ray/id.go.
use pmesh.Base.{◌+◌, ◌≡◌, ◌≢◌, some, arith}
use pmesh.Base.Int.{pos}
use pmesh.Ids.Snowflake.{Generator, next_at, epoch_begin}
use pmesh.Ids.Snowflake.Fields.{after_calls, next_at-fresh}
use pmesh.Ids.Ray.{Ray, Host, to_array, unmarshal}
use pmesh.Ids.Ray.RoundTrip.{Capital, unmarshal-to_array}

abbrev generator : Generator
generator = record { machine_id = 0xABCDEF; sequence = 4294967295 }

next_at-fresh_example :
    (next_at generator (pos (epoch_begin + 9))).1
    ≢ (next_at (after_calls 3 generator (pos (epoch_begin + 9))) (pos (epoch_begin + 9))).1
next_at-fresh_example =
    next_at-fresh 3 generator 9 (omega arith) (omega arith) (omega arith) (omega arith)

abbrev ray : Ray
ray = record { id = 0xDEADBEEF; host = record { a = 97; b = 0; c = 66 } }

unmarshal-to_array_example :
    (host : Host) × (unmarshal (to_array ray) ≡ some (record ray { host = host }))
    × Capital 97 host.a
    × Capital 0 host.b
    × Capital 66 host.c
unmarshal-to_array_example = unmarshal-to_array ray (omega arith)
