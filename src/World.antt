-- ===== src/World.antt =====
-- The state that the server's parts share: the backend's state `B`, the database, the warm pool's
-- channels, the metrics, and what the process reads from outside, the clock and fresh UUIDs.
use cage.Common.{ℕ, suc, String, List}
use cage.Common.Dict.{Dict}
use cage.Common.Exec.{Exec, ok}
use cage.Redis.{Redis}
use cage.Store.{Db}

-- pool.TemplateConfig.
pub record TemplateConfig : Type 0 where
  pub slug : String
  pub template_ref : String
  pub size : ℕ

-- A buffered channel: the oldest value first, and the number of places.
pub record Channel : Type 0 where
  pub queue : List String
  pub cap : ℕ

pub record Signal : Type 0 where
  pub pending : ℕ
  pub cap : ℕ

-- The fields of pool.Pool that change or are read by slug.
pub record Pool : Type 0 where
  pub templates : Dict TemplateConfig
  pub warm : Dict Channel
  pub refill : Dict Signal

pub record World (B : Type 0) : Type 0 where
  pub backend : B
  pub db : Db
  pub redis : Redis
  pub pool : Pool
  pub pool_hits : ℕ
  pub pool_misses : ℕ
  pub sandboxes_reaped : ℕ
  -- time.Now at the n-th reading, and the readings taken.
  pub time : ℕ → ℕ
  pub readings : ℕ
  -- uuid.NewString at the n-th call, and the calls made.
  pub uuid : ℕ → String
  pub issued : ℕ
  -- Pause resources whose removal a goroutine has been started for.
  pub cleanups : List String

module _ {B : Type 0} where
  abbrev pub on_backend : {E A : Type 0} → Exec E B A → Exec E (World B) A
  on_backend m w = let (r, b) = m w.backend in (r, record w { backend = b })

  abbrev pub on_db : {E A : Type 0} → Exec E Db A → Exec E (World B) A
  on_db m w = let (r, db) = m w.db in (r, record w { db = db })

  abbrev pub on_redis : {E A : Type 0} → Exec E Redis A → Exec E (World B) A
  on_redis m w = let (r, redis) = m w.redis in (r, record w { redis = redis })

  unfoldable pub time_now : {E : Type 0} → Exec E (World B) ℕ
  time_now w = (ok (w.time w.readings), record w { readings = suc w.readings })

  unfoldable pub new_uuid : {E : Type 0} → Exec E (World B) String
  new_uuid w = (ok (w.uuid w.issued), record w { issued = suc w.issued })
