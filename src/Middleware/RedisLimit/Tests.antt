-- ===== src/Middleware/RedisLimit/Tests.antt =====
-- A counter of two requests.
use go_notes_api.Base.{◌≡◌, refl, ◌-◌, min, false, none, [], ◌∷◌, eq_of_text, eq_iff, arith}
use go_notes_api.Base.Int.{pos}
use go_notes_api.Http.{Handler, empty_response}
use go_notes_api.World.{World}
use go_notes_api.Fixtures.{plain_request, plain_redis, plain_net, blank_memory, empty_db, Memory}
use go_notes_api.Middleware.RedisLimit.{RedisLimiter, is_allowed, redis_limit}
use go_notes_api.Middleware.RedisLimit.Window.{IsCounter, let_in, let_in-redis_limit}

abbrev answer : Handler (World Memory)
answer r w = (empty_response 200, w)

abbrev fresh : World Memory
fresh = record { db = empty_db; store = blank_memory; observed = [] }

abbrev two_a_minute : RedisLimiter
two_a_minute = record { limit = pos 2; window = pos 60; key_fn = λ r. "k"; allow_net = none }

plain_redis-IsCounter : IsCounter plain_redis (λ k s. s.counts k)
plain_redis-IsCounter k window s = (refl, ground (arith, eq_iff k k))

outside : is_allowed plain_net two_a_minute plain_request ≡ false
unfolding is_allowed
outside = refl

let_in-redis_limit_example :
    let_in
      (redis_limit plain_net plain_redis two_a_minute answer)
      (plain_request ∷ plain_request ∷ plain_request ∷ [])
      fresh
    ≡ min 3 (2 - 0)
let_in-redis_limit_example =
    let_in-redis_limit plain_net plain_redis (λ k s. s.counts k) plain_redis-IsCounter two_a_minute
      2 refl "k" answer (λ r w. refl) (λ r w. refl)
      (plain_request ∷ plain_request ∷ plain_request ∷ []) fresh
      ((outside, refl), ((outside, refl), ((outside, refl), tt)))
