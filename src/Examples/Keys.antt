-- ===== src/Examples/Keys.antt =====
-- A key from genkey to a guarded route, with a short key and a short hash.
use cage.Common.{ℕ, suc, String, List, [], ◌∷◌, ◌≡◌, refl, none, concat}
use cage.Common.Dict.{lookup}
use cage.Common.Exec.{Exec, Error, Result, ok}
use cage.Config.{Config}
use cage.Store
use cage.Store.{Db}
use cage.Redis
use cage.World.{World}
use cage.Api.{Handler, Response, respond, text}
use cage.Auth.{auth_middleware, validate_with_cache}
use cage.Auth.Keys.{announcement, encode_to_string, generate_api_key, genkey, hash_key}
use cage.Auth.Issue.{genkey-auth_middleware}
use cage.Docker.Adapter.{Adapter}
use cage.Examples.Daemon.{Daemon}
use cage.Examples.Startup.{settings}
use cage.Examples.Worlds.{db, world}

abbrev sha256 : String → List ℕ
sha256 raw_key = 7 ∷ 255 ∷ []

abbrev random : Exec Error ℕ (List ℕ)
random n = (ok (1 ∷ 171 ∷ []), suc n)

abbrev config : Result Error (Config ℕ ℕ)
config = ok (settings "docker")

abbrev connects : String → Result Error (Unit {0})
connects url = ok tt

generated : generate_api_key sha256 random 0 ≡ (ok ("cage_01ab", "07ff"), 1)
unfolding generate_api_key encode_to_string hash_key
generated = refl

issued :
    (genkey sha256 random config connects "ci" (db, 0)).0
    ≡ ok (announcement sha256 random "ci" "cage_01ab")
unfolding genkey generate_api_key encode_to_string hash_key Store.create_api_key Store.has_key
issued = refl

abbrev served : World (Adapter Daemon)
served = record world { db = (genkey sha256 random config connects "ci" (db, 0)).1.0 }

works : served.db.outage served.db.statements ≡ none
unfolding genkey generate_api_key encode_to_string hash_key Store.create_api_key Store.has_key
works = refl

unseen : Redis.get "apikey:07ff" served.redis ≡ none
unfolding Redis.get lookup
unseen = refl

abbrev next : Handler (Adapter Daemon) Response
next w = (ok (respond 200 (text "ok")), w)

genkey-auth_middleware_example :
    (announcement sha256 random "ci" "cage_01ab" ≡ announcement sha256 random "ci" "cage_01ab")
    × (auth_middleware (hash_key sha256) (concat "Bearer " "cage_01ab") next served
        ≡ next (validate_with_cache "07ff" served).1)
genkey-auth_middleware_example =
    genkey-auth_middleware sha256 random config connects "ci"
      (announcement sha256 random "ci" "cage_01ab") "cage_01ab" "07ff" db 0 1 served next generated
      issued refl works unseen
