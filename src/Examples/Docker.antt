-- ===== src/Examples/Docker.antt =====
-- The theorems on Docker's stream and on the Docker backend, at the daemon of Examples.Daemon.
use cage.Common.{
  String, List, [], ◌∷◌, ◌++◌, ◌≡◌, refl, none, some, arith, inl, inr, Bool-cases, str_eq,
  str_eq_iff,
}
use cage.Common.Io.{unexpected_eof, broken}
use cage.Common.Exec.{ok, err, msg}
use cage.Common.Dict
use cage.Docker.Stream.{demux_output}
use cage.Docker.Stream.Demux.{Frame, encode, demux_output-encode, demux_output_cut}
use cage.Docker.Adapter.Mapping.{IsSound}
use cage.Docker.Adapter.Histories
use cage.Docker.Adapter.Histories.{
  Call, calls, calls-IsSound, adopt_calls_placeholder, adopt-not-IsSound, kill_sandbox_again,
}
use cage.Examples.Daemon.{docker, tar, laws}
use cage.Examples.Worlds.{adapter}

abbrev two_frames : List Frame
two_frames =
    record { stream = 1; payload = 104 ∷ 105 ∷ [] } ∷ record { stream = 2; payload = 33 ∷ [] } ∷ []

demux_output-encode_example :
    demux_output (record { bytes = encode two_frames; failure = none })
    ≡ some (ok (record { stdout = 104 ∷ 105 ∷ []; stderr = 33 ∷ [] }))
demux_output-encode_example = demux_output-encode two_frames (omega arith, (omega arith, tt))

demux_output_cut_example :
    (demux_output (record { bytes = encode two_frames ++ 1 ∷ 0 ∷ []; failure = none })
      ≡ some (err unexpected_eof))
    × (demux_output
          (record { bytes = encode two_frames ++ 1 ∷ 0 ∷ []; failure = some (msg "reset") })
        ≡ some (err (broken (msg "reset"))))
demux_output_cut_example =
    demux_output_cut two_frames 1 (0 ∷ []) (msg "reset") (omega arith, (omega arith, tt))
      (omega arith)

one_entry : (id c : String) → Dict.lookup id adapter.containers ≡ some c → ("u1" ≡ id) × ("c1" ≡ c)
unfolding Dict.lookup
one_entry id c h = elim (Bool-cases (str_eq "u1" id)) [
  | inl e ↦ ((str_eq_iff "u1" id).0 e, cc (rw e at h))
  | inr e ↦ cc (rw e at h)
]

adapter-IsSound : IsSound laws adapter
adapter-IsSound = record {
  exists = λ id c h. let (_, e) = one_entry id c h in rw (← e) refl;
  distinct = λ id j c h g.
      let (e, _) = one_entry id c h in let (f, _) = one_entry j c g in rw (← e, ← f) refl;
}

abbrev busy_hour : List Call
busy_hour =
    Histories.create "u9" "alpine"
    ∷ Histories.pause "u1"
    ∷ Histories.resume "u1" "image"
    ∷ Histories.shell "u1"
    ∷ Histories.kill "u9"
    ∷ []

calls-IsSound_example : IsSound laws (calls docker tar busy_hour adapter)
calls-IsSound_example = calls-IsSound docker tar laws busy_hour adapter adapter-IsSound
